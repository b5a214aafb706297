-- ===== src/Auth/Jwt/Scopes.antt =====
-- The layers that the scopes of a token grant.
use tilegroxy.Base.{
  true, false, ◌||◌, List, [], ◌∷◌, ◌++◌, ◌≡◌, ◌≢◌, ◌↔◌, refl, ap, ◌∙◌, arith, Bool-cases, inl, inr,
  length, drop, Text, text_eq_iff, has_prefix, has_prefix-split, has_prefix-append, contains,
  drop-append,
}
use tilegroxy.Auth.Jwt.{is_empty, scoped_layers}

named_scope :
    (pre s l : Text)
    → (is_empty pre || has_prefix s pre) ≡ true
    → drop (length pre) s ≡ l
    → s ≡ pre ++ l
unfolding is_empty
named_scope [] s l h e = e
named_scope (c ∷ pre) s l h e = has_prefix-split s (c ∷ pre) h ∙ ap (λ x. (c ∷ pre) ++ x) e

scope_of_layer :
    (pre l : Text)
    → (is_empty pre || has_prefix (pre ++ l) pre) ≡ true × drop (length pre) (pre ++ l) ≡ l
unfolding is_empty
scope_of_layer [] l = (refl, refl)
scope_of_layer (c ∷ pre) l = (has_prefix-append (c ∷ pre) l, drop-append (c ∷ pre) l)

-- A scope that names no layer of the prefix is not the prefix with a name.
other_scope : (pre s l : Text) → (is_empty pre || has_prefix s pre) ≡ false → s ≢ pre ++ l
other_scope pre s l h e = let k = (scope_of_layer pre l).0 in let j : s ≡ pre ++ l = e in cc

-- A layer is granted exactly when the prefix with its name is one of the token's scopes.
pub scoped_layers_iff :
    (pre : Text) (ss : List Text) (l : Text)
    → (contains (scoped_layers pre ss) l ≡ true) ↔ (contains ss (pre ++ l) ≡ true)
unfolding scoped_layers contains
scoped_layers_iff pre [] l = ground arith
scoped_layers_iff pre (s ∷ ss) l = elim (Bool-cases (is_empty pre || has_prefix s pre)) [
  | inl h ↦
      (let e = text_eq_iff (drop (length pre) s) l in
        let d = text_eq_iff s (pre ++ l) in
        let k : drop (length pre) s ≡ l → s ≡ pre ++ l = named_scope pre s l h in
        let j : s ≡ pre ++ l → drop (length pre) s ≡ l =
          (λ q. ap (drop (length pre)) q ∙ (scope_of_layer pre l).1) in
        rw h (ground (arith, scoped_layers_iff pre ss l)))
  | inr h ↦
      (let e = text_eq_iff s (pre ++ l) in
        rw h (ground (arith, scoped_layers_iff pre ss l, other_scope pre s l h)))
]
