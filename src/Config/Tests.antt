-- ===== src/Config/Tests.antt =====
-- A map with a secret in a list.
use mathlib.Core.Option
use tilegroxy.Base.{
  Option, none, some, ◌∷◌, ◌++◌, ◌≡◌, ◌≢◌, refl, inl, inr, Text, codes, text_eq, has_prefix,
  has_prefix-split, drop, Bool-cases, if◌then◌else◌,
}
use tilegroxy.Layer.Refs.{Fields, text, array, end, field, nil, item}
use tilegroxy.Config.{replace_config_values}
use tilegroxy.Config.Leaves.{strings_of_fields, replace_each, replace_config_values-strings}

abbrev secrets : Fields
secrets =
    field (codes "name") (text (codes "jwt"))
      (field (codes "keys") (array (item (text (codes "secret.a")) nil)) end)

abbrev vault : Text → Option Text
vault name = if text_eq name (codes "a") then some (codes "k") else none

abbrev revealed : Text → Option Text
revealed s = if has_prefix s (codes "secret.") then vault (drop 7 s) else some s

revealed_tagged : (name : Text) → revealed (codes "secret" ++ (b'.' ∷ name)) ≡ vault name
unfolding has_prefix
revealed_tagged name = refl

revealed_plain :
    (s : Text) → ((name : Text) → s ≢ codes "secret" ++ (b'.' ∷ name)) → revealed s ≡ some s
revealed_plain s n = elim (Bool-cases (has_prefix s (codes "secret."))) [
  | inl e ↦ absurd (n (drop 7 s) (has_prefix-split s (codes "secret.") e))
  | inr e ↦ rw e refl
]

replace_config_values-strings_example :
    Option.map strings_of_fields (replace_config_values (codes "secret") vault secrets)
    ≡ replace_each revealed (strings_of_fields secrets)
replace_config_values-strings_example =
    replace_config_values-strings (codes "secret") vault revealed revealed_tagged revealed_plain
      secrets
