-- ===== src/Layer/Pattern/Parse.antt =====
-- What parsePattern returns.
use tilegroxy.Base.{
  ℕ, zero, suc, ◌≤◌, true, false, List, [], ◌∷◌, ◌++◌, some, ◌≡◌, ◌≢◌, refl, if◌then◌else◌, length,
  take, drop, Text, codes, index, arith, All, append_assoc, append-nil, length-drop, subst,
  drop_one, Bool-cases, Option-cases, inl, inr, has_prefix, index-split, take-append-drop,
  text_eq_iff, ap,
}
use tilegroxy.Layer.Pattern.{
  Segment, Parsed, prepend, literal, hole, parse_step, parse_fuel, parse_pattern, dupes,
  starts_with_placeholder, PatternError, missing_closing, placeholders_without_separators,
}
use mathlib.Core.List.{cons-ne-nil, append-eq-nil_iff}

-- The pattern that a list of segments is written as.
abbrev pub print_segment : Segment → Text
print_segment s = if s.placeholder then codes "{" ++ (s.value ++ codes "}") else s.value

pub print : List Segment → Text
print [] = []
print (s ∷ segs) = print_segment s ++ print segs

prepend_segments : (s : Segment) (p : Parsed) → (prepend s p).0 ≡ s ∷ p.0
unfolding prepend
prepend_segments s p = ground arith

-- The errors of the rest stay.
prepend_errors : (s : Segment) (p : Parsed) → (prepend s p).1 ≡ [] → p.1 ≡ []
unfolding prepend
prepend_errors s p h = elim (Bool-cases s.placeholder) [
  | inl e ↦ (append-eq-nil_iff.0 (rw e at h)).0
  | inr e ↦ rw e at h
]

-- Fuel for each byte is enough: more changes nothing.
parse_fuel_enough :
    (f g : ℕ) (s : Text) → length s ≤ f → length s ≤ g → parse_fuel f s ≡ parse_fuel g s
unfolding parse_fuel parse_step
parse_fuel_enough f g [] hf hg = refl
parse_fuel_enough zero g (c ∷ s) hf hg = absurd (omega arith)
parse_fuel_enough (suc f) zero (c ∷ s) hf hg = absurd (omega arith)
parse_fuel_enough (suc f) (suc g) (c ∷ s) hf hg = elim (Option-cases (index (c ∷ s) (codes "{"))) [
  | inl e ↦ rw (e, parse_step) refl
  | inr (suc i, e) ↦
      rw (e, parse_step)
        (cc (
          parse_fuel_enough f g (drop i s) (omega (arith, length-drop i s))
            (omega (arith, length-drop i s))))
  | inr (zero, e) ↦ elim (Option-cases (index (c ∷ s) (codes "}"))) [
    | inl e' ↦ rw (e, e', parse_step) refl
    | inr (zero, e') ↦ rw (e, e', parse_step) refl
    | inr (suc j, e') ↦
        rw (e, e', parse_step)
          (cc (
            parse_fuel_enough f g (drop (suc j) s) (omega (arith, length-drop (suc j) s))
              (omega (arith, length-drop (suc j) s))))
  ]
]

cons-injective : {c d : ℕ} {s t : Text} → c ∷ s ≡ d ∷ t → s ≡ t
cons-injective h = cc

print-prepend : (s : Segment) (p : Parsed) → print (prepend s p).0 ≡ print_segment s ++ print p.0
unfolding print
print-prepend s p = rw prepend_segments refl

opening : (c : ℕ) (s : Text) → index (c ∷ s) (codes "{") ≡ some zero → c ≡ b'{'
unfolding index has_prefix
opening c s h = ground arith

closing :
    (c : ℕ) (s : Text) (j : ℕ)
    → index (c ∷ s) (codes "}") ≡ some (suc j)
    → s ≡ take j s ++ b'}' ∷ drop (suc j) s
closing c s j h =
    rw (← drop_one j s) (cons-injective {d = c} (index-split (c ∷ s) (codes "}") (suc j) h))

-- What holds of each way in which a call of parsePattern ends holds of its result, given fuel for
-- each byte.
parse_induction {ℓ} :
    (P : Text → Parsed → Type ℓ)
    → P [] ([], [])
    → ((p : Text) → P p (literal p ∷ [], []))
    → ((v rest : Text) (r : Parsed) → P rest r → P (v ++ rest) (prepend (literal v) r))
    → ((v rest : Text) (r : Parsed) → P rest r → P (b'{' ∷ (v ++ b'}' ∷ rest)) (prepend (hole v) r))
    → ((p : Text) → P p (hole (drop 1 p) ∷ [], missing_closing ∷ []))
    → (f : ℕ) (s : Text) → length s ≤ f
    → P s (parse_fuel f s)
unfolding parse_fuel parse_step
parse_induction P empty whole text_then hole_then unclosed f [] hf = empty
parse_induction P empty whole text_then hole_then unclosed zero (c ∷ s) hf = absurd (omega arith)
parse_induction P empty whole text_then hole_then unclosed (suc f) (c ∷ s) hf =
    let ih = parse_induction P empty whole text_then hole_then unclosed f in
    elim (Option-cases (index (c ∷ s) (codes "{"))) [
      | inl e ↦ rw (e, parse_step) (whole (c ∷ s))
      | inr (suc i, e) ↦
          let fits : length (drop i s) ≤ f = omega (arith, length-drop i s) in
          rw (e, parse_step)
            (subst (λ t. P (c ∷ t) (prepend (literal (c ∷ take i s)) (parse_fuel f (drop i s))))
              (take-append-drop i s)
              (text_then (c ∷ take i s) (drop i s) (parse_fuel f (drop i s)) (ih (drop i s) fits)))
      | inr (zero, e) ↦ elim (Option-cases (index (c ∷ s) (codes "}"))) [
        | inl e' ↦ rw (e, e', parse_step) (unclosed (c ∷ s))
        | inr (zero, e') ↦ rw (e, e', parse_step) (unclosed (c ∷ s))
        | inr (suc j, e') ↦
            let fits : length (drop (suc j) s) ≤ f = omega (arith, length-drop (suc j) s) in
            let split : b'{' ∷ (take j s ++ b'}' ∷ drop (suc j) s) ≡ c ∷ s =
              cc (opening c s e, closing c s j e') in
            rw (e, e', parse_step)
              (subst (λ t. P t (prepend (hole (take j s)) (parse_fuel f (drop (suc j) s)))) split
                (hole_then (take j s) (drop (suc j) s) (parse_fuel f (drop (suc j) s))
                  (ih (drop (suc j) s) fits)))
      ]
    ]

-- A pattern that parsePattern accepts is the concatenation of its segments, each placeholder in
-- braces: nothing of the pattern is lost, added or moved.
pub print-parse_pattern :
    (pattern : Text) → (parse_pattern pattern).1 ≡ [] → print (parse_pattern pattern).0 ≡ pattern
unfolding parse_pattern print
print-parse_pattern pattern =
    parse_induction (λ p r. r.1 ≡ [] → print r.0 ≡ p) (λ h. refl) (λ p h. append-nil p)
      (λ v rest r ih h. rw print-prepend (ap (◌++◌ v) (ih (prepend_errors (literal v) r h))))
      (λ v rest r ih h.
        rw (print-prepend, ih (prepend_errors (hole v) r h))
          (ap (◌∷◌ b'{') (append_assoc v _ rest)))
      (λ p h. absurd (cons-ne-nil missing_closing [] h)) (length pattern) pattern (omega arith)

-- The placeholder's name is not that of a later placeholder.
abbrev pub IsFresh : Text → List Segment → Type 0
IsFresh v = All (λ s. s.placeholder ≡ true → v ≢ s.value)

-- No two placeholders stand side by side, and no two share a name.
abbrev pub IsWellFormed : List Segment → Type 0
IsWellFormed [] = Unit
IsWellFormed (s ∷ segs) =
    (s.placeholder ≡ true → (starts_with_placeholder segs ≡ false) × IsFresh s.value segs)
    × IsWellFormed segs

dupes-eq-nil : (v : Text) (segs : List Segment) → dupes v segs ≡ [] → IsFresh v segs
unfolding dupes
dupes-eq-nil v [] h = tt
dupes-eq-nil v (s ∷ segs) h =
    (λ e e'. ground (arith, text_eq_iff v s.value), ground (arith, dupes-eq-nil v segs))

abbrev at_join : List Segment → List PatternError
at_join segs = if starts_with_placeholder segs then placeholders_without_separators ∷ [] else []

split_errors : (p q : List PatternError) → p ++ q ≡ [] → q ≡ []
split_errors p q h = (append-eq-nil_iff.0 h).1

at_join-eq-nil : (segs : List Segment) → at_join segs ≡ [] → starts_with_placeholder segs ≡ false
at_join-eq-nil segs h = ground arith

join_checks :
    (v : Text) (segs : List Segment)
    → at_join segs ++ dupes v segs ≡ []
    → (starts_with_placeholder segs ≡ false) × IsFresh v segs
join_checks v segs h =
    (at_join-eq-nil segs (append-eq-nil_iff.0 h).0, dupes-eq-nil v segs (append-eq-nil_iff.0 h).1)

prepend-IsWellFormed :
    (s : Segment) (p : Parsed)
    → (prepend s p).1 ≡ []
    → IsWellFormed p.0
    → IsWellFormed (prepend s p).0
unfolding prepend
prepend-IsWellFormed s p h w = rw (prepend_segments s p) (checked, w)
  where
    checks : s.placeholder ≡ true → at_join p.0 ++ dupes s.value p.0 ≡ []
    checks e = split_errors p.1 (at_join p.0 ++ dupes s.value p.0) (rw e at h)

    checked : s.placeholder ≡ true → (starts_with_placeholder p.0 ≡ false) × IsFresh s.value p.0
    checked e = join_checks s.value p.0 (checks e)

-- The segments of an accepted pattern are well formed: a text between any two placeholders, and
-- each placeholder's name once.
pub parse_pattern-IsWellFormed :
    (pattern : Text) → (parse_pattern pattern).1 ≡ [] → IsWellFormed (parse_pattern pattern).0
unfolding parse_pattern
parse_pattern-IsWellFormed pattern =
    parse_induction (λ p r. r.1 ≡ [] → IsWellFormed r.0) (λ h. tt) (λ p h. ((λ e. cc), tt))
      (λ v rest r ih h. prepend-IsWellFormed (literal v) r h (ih (prepend_errors (literal v) r h)))
      (λ v rest r ih h. prepend-IsWellFormed (hole v) r h (ih (prepend_errors (hole v) r h)))
      (λ p h. absurd (cons-ne-nil missing_closing [] h)) (length pattern) pattern (omega arith)
