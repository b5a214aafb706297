-- ===== src/Providers/Placeholders/Values.antt =====
-- internal/providers/utility.go: a URL from the values of two requests.
use tilegroxy.Base.{
  ℕ, zero, suc, ◌<◌, Bool, List, [], ◌∷◌, ◌++◌, ◌≡◌, refl, sym, ap, ◌∙◌, inl, inr, arith,
  if◌then◌else◌, length, length-append, get_elem?, Text, codes, index,
}
use tilegroxy.Tile.Floats.{Floats}
use tilegroxy.Tile.Bounds.{TileRequest, Result, ok, err, get_bounds_projection, Result-cases}
use tilegroxy.Providers.Placeholders.{
  Sources, find_names, number_matches, inverted_y, replace_pairs, tile_values, number_placeholders,
  replace_placeholders_in_string, scan, replace_url_placeholders,
}
use tilegroxy.Providers.Placeholders.Structure.{delimiters, SameEnv, scan-delimiters}

number_matches-text :
    (names : List Text) (v w : Text → Text) (start : Text) (n : ℕ) (s : Text)
    → ((number_matches v start names n s).0 ≡ (number_matches w start names n s).0)
      × ((number_matches v start names n s).2 ≡ (number_matches w start names n s).2)
unfolding number_matches
number_matches-text [] v w start n s = (refl, refl)
number_matches-text (x ∷ names) v w start n s = number_matches-text names v w start (suc n) _

number_matches-length :
    (names : List Text) (v : Text → Text) (start : Text) (n : ℕ) (s : Text)
    → length (number_matches v start names n s).1 ≡ length names
unfolding number_matches
number_matches-length [] v start n s = refl
number_matches-length (x ∷ names) v start n s =
    ap suc (number_matches-length names v start (suc n) _)

get_elem?-append :
    (xs ys : List Text) (n : ℕ) → n < length xs → get_elem? (xs ++ ys) n ≡ get_elem? xs n
get_elem?-append [] ys n h = absurd (omega arith)
get_elem?-append (x ∷ xs) ys zero h = refl
get_elem?-append (x ∷ xs) ys (suc n) h = get_elem?-append xs ys n (omega arith)

get_elem?-front :
    (xs a b : List Text) (n : ℕ) → n < length xs → get_elem? ((xs ++ a) ++ b) n ≡ get_elem? xs n
get_elem?-front xs a b n h =
    get_elem?-append (xs ++ a) b n (rw (length-append xs a) omega arith) ∙ get_elem?-append xs a n h

same_length :
    (xs a b c d : List Text)
    → length a ≡ length b
    → length c ≡ length d
    → length ((xs ++ a) ++ c) ≡ length ((xs ++ b) ++ d)
same_length xs a b c d h k =
    rw
      (length-append (xs ++ a) c, length-append (xs ++ b) d, length-append xs a, length-append xs b)
      omega arith

-- Another request has other values of the context and of the layer's pattern.
pub with_values : {F : Type 0} → (Text → Text) → (Text → Text) → Sources F → Sources F
with_values ctx lyr src = record src { context_value = ctx; layer_value = lyr }

-- Both are the same error, or texts with the same delimiters.
pub SameDelimiters : Result Text → Result Text → Type 0
SameDelimiters (ok s) (ok t) = delimiters s ≡ delimiters t
SameDelimiters (err a) (err b) = a ≡ b
SameDelimiters _ _ = ⊥

module _ (f : Floats) (src : Sources f.F) (ctx lyr : Text → Text) (str : Text) where
  numbered_text :
      (number_placeholders f src str 0).0
      ≡ (number_placeholders f (with_values ctx lyr src) str 0).0
  unfolding number_placeholders with_values
  numbered_text =
      let names = find_names (codes "{ctx.") in
      let q0 = number_matches src.getenv (codes "{env.") (find_names (codes "{env.") str) 0 str in
      let q1 = number_matches src.context_value (codes "{ctx.") (names q0.0) q0.2 q0.0 in
      let q2 = number_matches ctx (codes "{ctx.") (names q0.0) q0.2 q0.0 in
      let (e, k) =
        number_matches-text (names q0.0) src.context_value ctx (codes "{ctx.") q0.2 q0.0 in
      let lyrs = find_names (codes "{layer.") in
      (number_matches-text (lyrs q1.0) src.layer_value lyr (codes "{layer.") q1.2 q1.0).0
      ∙ (ap (λ s. (number_matches lyr (codes "{layer.") (lyrs s) q1.2 s).0) e
          ∙ ap (λ n. (number_matches lyr (codes "{layer.") (lyrs q2.0) n q2.0).0) k)

  numbered_values :
      SameEnv
        (length (find_names (codes "{env.") str))
        (number_placeholders f src str 0).1
        (number_placeholders f (with_values ctx lyr src) str 0).1
  unfolding number_placeholders with_values SameEnv
  numbered_values =
      let names = find_names (codes "{ctx.") in
      let lyrs = find_names (codes "{layer.") in
      let q0 = number_matches src.getenv (codes "{env.") (find_names (codes "{env.") str) 0 str in
      let q1 = number_matches src.context_value (codes "{ctx.") (names q0.0) q0.2 q0.0 in
      let q2 = number_matches ctx (codes "{ctx.") (names q0.0) q0.2 q0.0 in
      let r1 = number_matches src.layer_value (codes "{layer.") (lyrs q1.0) q1.2 q1.0 in
      let r2 = number_matches lyr (codes "{layer.") (lyrs q2.0) q2.2 q2.0 in
      let e =
        (number_matches-text (names q0.0) src.context_value ctx (codes "{ctx.") q0.2 q0.0).0 in
      let l0 =
        number_matches-length (find_names (codes "{env.") str) src.getenv (codes "{env.") 0 str in
      let l1 = number_matches-length (names q0.0) src.context_value (codes "{ctx.") q0.2 q0.0 in
      let l2 = number_matches-length (names q0.0) ctx (codes "{ctx.") q0.2 q0.0 in
      let m1 = number_matches-length (lyrs q1.0) src.layer_value (codes "{layer.") q1.2 q1.0 in
      let m2 = number_matches-length (lyrs q2.0) lyr (codes "{layer.") q2.2 q2.0 in
      let m : length r1.1 ≡ length r2.1 = m1 ∙ (ap (λ s. length (lyrs s)) e ∙ sym m2) in
      (
        same_length q0.1 q1.1 q2.1 r1.1 r2.1 (l1 ∙ sym l2) m,
        (λ n h.
            let k : n < length q0.1 = rw l0 h in
            get_elem?-front q0.1 q1.1 r1.1 n k ∙ sym (get_elem?-front q0.1 q2.1 r2.1 n k)),
      )

  -- If the escapes leave no slash, question mark or hash, the values of the context and of the
  -- layer's pattern change none of these in a URL: for any other such values the result is the same
  -- error, or a URL with the same slashes, question marks and hashes in the same order.
  pub replace_url_placeholders-delimiters :
      ((v : Text) → delimiters (src.path_escape v) ≡ [])
      → ((v : Text) → delimiters (src.query_escape v) ≡ [])
      → (t : TileRequest) (invert_y : Bool) (srid : ℕ)
      → SameDelimiters
          (replace_url_placeholders f src t str invert_y srid)
          (replace_url_placeholders f (with_values ctx lyr src) t str invert_y srid)
  unfolding replace_url_placeholders replace_placeholders_in_string with_values SameDelimiters
  replace_url_placeholders-delimiters path query t invert_y srid =
      elim (Result-cases (get_bounds_projection f t srid)) [
        | inl (e, n) ↦ rw (n, replace_url_placeholders, replace_placeholders_in_string) refl
        | inr (b, n) ↦
            rw (n, replace_url_placeholders, replace_placeholders_in_string)
              (let y = if invert_y then inverted_y t.z t.y else t.y in
                let other = number_placeholders f (with_values ctx lyr src) str 0 in
                let env_count = length (find_names (codes "{env.") str) in
                let scanned : Text → List Text → Text = λ s values.
                  let u = replace_pairs (tile_values f src t y b) s in
                  scan src.path_escape src.query_escape env_count (index u (codes "?")) values 0 0
                    u in
                let v = number_placeholders f src str 0 in
                let u = replace_pairs (tile_values f src t y b) v.0 in
                scan-delimiters src.path_escape src.query_escape path query env_count
                  (index u (codes "?")) u 0 0 v.1 other.1 numbered_values
                ∙ ap (λ s. delimiters (scanned s other.1)) numbered_text)
      ]
