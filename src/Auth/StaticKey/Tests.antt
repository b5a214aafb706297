-- ===== src/Auth/StaticKey/Tests.antt =====
-- A request with the key, and one with another scheme.
use tilegroxy.Base.{◌≡◌, refl, true, false, [], ◌∷◌, codes, text_eq, lookup}
use tilegroxy.Auth.StaticKey.{static_key, check_static_key}

accepted :
    check_static_key
      (static_key (codes "r") (codes "k"))
      ((codes "Authorization", codes "Bearer k" ∷ []) ∷ [])
    ≡ true
unfolding check_static_key static_key text_eq lookup
accepted = refl

refused :
    check_static_key
      (static_key (codes "r") [])
      ((codes "Authorization", codes "Basic r" ∷ []) ∷ [])
    ≡ false
unfolding check_static_key static_key text_eq lookup
refused = refl
