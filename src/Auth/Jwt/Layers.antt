-- ===== src/Auth/Jwt/Layers.antt =====
-- The layers that an accepted token lets a request see.
use tilegroxy.Base.{
  ℕ, Bool, true, false, not, ◌&&◌, [], ◌++◌, Option, none, some, ◌≡◌, refl, sym, ap, ◌∙◌, subst,
  if◌then◌else◌, inl, inr, ◌↔◌, Bool-cases, Option-cases, Text, codes, contains,
}
use tilegroxy.Base.Strconv.{split}
use tilegroxy.Request.{Grants}
use tilegroxy.Auth.Jwt.{
  JwtConfig, Claim, text, other, Token, CachedAuthResult, Libraries, is_empty, scoped_layers,
  validate_scope, new_bounds_from_geohash, validate_geohash, set_user, result_of, read_claims,
  grant_token, check_without_cache,
}
use tilegroxy.Auth.Jwt.Scopes.{scoped_layers_iff}
use tilegroxy.Auth.Jwt.Expiration.{granted}

module _ {F : Type 0} (lib : Libraries F) (c : JwtConfig) (limited : c.layer_scope ≡ true) where
  -- The grants are limited to these layers more than before, from the scopes of the claim.
  IsScoped : Option Claim → Grants F → Grants F → Type 0
  IsScoped o g g' =
      (s : Text) × ((o ≡ some (text s))
        × ((g'.limit_layers ≡ g.limit_layers)
            × (g'.allowed_layers
                ≡ g.allowed_layers ++ scoped_layers c.scope_prefix (split b' ' s))))

  validate_scope-IsScoped :
      (o : Option Claim) (g : Grants F)
      → (validate_scope c o g).0 ≡ true
      → IsScoped o g (validate_scope c o g).1
  unfolding validate_scope IsScoped
  validate_scope-IsScoped none g h = absurd (let z : false ≡ true = rw limited at h in cc)
  validate_scope-IsScoped (some other) g h = absurd (let z : false ≡ true = rw limited at h in cc)
  validate_scope-IsScoped (some (text s)) g h =
      elim (Bool-cases
        (not (is_empty c.expected_scope) && not (contains (split b' ' s) c.expected_scope))) [
          | inl e ↦ absurd (let z : false ≡ true = rw e at h in cc)
          | inr e ↦ (s, (refl, rw (e, limited) (refl, refl)))
        ]

  validate_geohash-layers :
      (o : Option Claim) (g : Grants F)
      → ((validate_geohash lib o g).1.limit_layers ≡ g.limit_layers)
        × ((validate_geohash lib o g).1.allowed_layers ≡ g.allowed_layers)
  unfolding validate_geohash
  validate_geohash-layers none g = (refl, refl)
  validate_geohash-layers (some other) g = (refl, refl)
  validate_geohash-layers (some (text hash)) g =
      elim (Option-cases (new_bounds_from_geohash lib hash)) [
        | inl e ↦ rw (e, validate_geohash) (refl, refl)
        | inr (b, e) ↦ rw (e, validate_geohash) (refl, refl)
      ]

  set_user-layers :
      (o : Option Claim) (g : Grants F)
      → ((set_user o g).limit_layers ≡ g.limit_layers)
        × ((set_user o g).allowed_layers ≡ g.allowed_layers)
  unfolding set_user
  set_user-layers none g = (refl, refl)
  set_user-layers (some other) g = (refl, refl)
  set_user-layers (some (text u)) g = (refl, refl)

  read_claims-IsScoped :
      (claims : Text → Option Claim) (g : Grants F)
      → (read_claims lib c claims g).0 ≡ true
      → IsScoped (claims (codes "scope")) g (read_claims lib c claims g).1
  unfolding read_claims IsScoped
  read_claims-IsScoped claims g h =
      let r1 = validate_scope c (claims (codes "scope")) g in
      let r2 = validate_geohash lib (claims (codes "geohash")) r1.1 in
      let o = claims c.user_id in
      elim (Bool-cases r1.0) [
        | inr a ↦ absurd (let z : false ≡ true = rw a at h in cc)
        | inl a ↦ elim (Bool-cases r2.0) [
          | inr b ↦ absurd (let z : false ≡ true = rw (a, b) at h in cc)
          | inl b ↦
              (let (s, (e, (i, j))) = validate_scope-IsScoped (claims (codes "scope")) g a in
                let (i2, j2) = validate_geohash-layers (claims (codes "geohash")) r1.1 in
                let (i3, j3) = set_user-layers o r2.1 in
                (s, (e, rw (a, b) (i3 ∙ (i2 ∙ i), j3 ∙ (j2 ∙ j)))))
        ]
      ]

  passed_claims :
      (exp : ℕ) (p : Bool × Grants F) (r : CachedAuthResult F) (g : Grants F)
      → ((if p.0 then some (result_of exp p.1) else none) ≡ some r) × (p.1 ≡ g)
      → (p.0 ≡ true) × (p.1 ≡ g)
  passed_claims exp (true, g1) r g (a, b) = (refl, b)
  passed_claims exp (false, g1) r g (a, b) = absurd (let z : none ≡ some r = a in cc)

  limit : Grants F → Grants F
  limit g = if c.layer_scope then record g { limit_layers = true } else g

  limit-layers :
      (g : Grants F)
      → ((limit g).limit_layers ≡ true) × ((limit g).allowed_layers ≡ g.allowed_layers)
  unfolding limit
  limit-layers g = (rw limited refl, rw limited refl)

  grant_token-IsScoped :
      (exp : ℕ) (t : Token) (f g : Grants F) (r : CachedAuthResult F)
      → ((grant_token lib c exp t f).0 ≡ some r) × ((grant_token lib c exp t f).1 ≡ g)
      → (claims : (Text → Option Claim)) × ((t.claims ≡ some claims)
          × IsScoped (claims (codes "scope")) (limit f) g)
  unfolding grant_token limit
  grant_token-IsScoped exp t f g r h = elim (Option-cases t.claims) [
    | inl n ↦ absurd (let z : none ≡ some r = (rw (n, grant_token) at h).0 in cc)
    | inr (claims, n) ↦
        (let (a, b) =
            passed_claims exp (read_claims lib c claims (limit f)) r g (rw (n, grant_token) at h) in
          (
            claims,
            (
              n,
              subst (IsScoped (claims (codes "scope")) (limit f)) b
                  (read_claims-IsScoped claims (limit f) a),
            ),
          ))
  ]

  -- With layer scopes, a token that is accepted on a context without layers is parsed at the time and
  -- has a scope claim; the request is limited to layers, and one is allowed exactly when the prefix
  -- with its name is one of the scopes.
  pub check_without_cache-scope :
      (now : ℕ) (token : Text) (f g : Grants F) (r : CachedAuthResult F) (l : Text)
      → f.allowed_layers ≡ []
      → check_without_cache lib c now token f ≡ (some r, g)
      → (t : Token) × ((claims : (Text → Option Claim)) × ((s : Text) × ((lib.parse c now token
                ≡ some t)
              × ((t.claims ≡ some claims)
                  × ((claims (codes "scope") ≡ some (text s))
                      × ((g.limit_layers ≡ true)
                          × ((contains g.allowed_layers l ≡ true)
                              ↔ (contains (split b' ' s) (c.scope_prefix ++ l) ≡ true))))))))
  unfolding IsScoped
  check_without_cache-scope now token f g r l e h =
      let (t, (n, (i, k))) = granted lib c now token f r (ap (λ x. x.0) h) in
      let m = sym k ∙ h in
      let (claims, (q, (s, (u, (a, b))))) =
        grant_token-IsScoped r.expiration t f g r (ap (λ x. x.0) m, ap (λ x. x.1) m) in
      let (i1, i2) = limit-layers f in
      let scopes = scoped_layers c.scope_prefix (split b' ' s) in
      let all : g.allowed_layers ≡ scopes = b ∙ ap (λ x. x ++ scopes) (i2 ∙ e) in
      let iff : (contains scopes l ≡ true)
          ↔ (contains (split b' ' s) (c.scope_prefix ++ l) ≡ true) =
        scoped_layers_iff c.scope_prefix (split b' ' s) l in
      let named =
        subst (λ x. (contains x l ≡ true) ↔ (contains (split b' ' s) (c.scope_prefix ++ l) ≡ true))
          (sym all) iff in
      (t, (claims, (s, (n, (q, (u, (a ∙ i1, named)))))))
