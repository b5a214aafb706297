-- ===== src/Layer/Pattern/Fill.antt =====
-- What match finds, against the text that a pattern stands for.
use mathlib.Core.Bool.{false≢true}
use tilegroxy.Base.{
  ℕ, zero, suc, true, false, List, [], ◌∷◌, ◌++◌, Option, none, some, ◌≡◌, ◌≢◌, refl, ◌∙◌, sym,
  if◌then◌else◌, length, take, drop, Text, text_eq_iff, index, insert, lookup, lookup-insert, arith,
  append-nil, index-split, Bool-cases, subst, Option-cases, inl, inr,
}
use tilegroxy.Layer.Pattern.{
  Segment, Matches, capture, misplaced, match_loop, match, starts_with_placeholder,
}
use tilegroxy.Layer.Pattern.Parse.{IsFresh, IsWellFormed}

-- matches[name], which is "" for a missing key.
unfoldable pub get : Text → Matches → Text
get k m = elim (lookup k m) [ none ↦ [] | some v ↦ v ]

-- The text of the segments with the values put in.
unfoldable pub fill : List Segment → Matches → Text
unfolding get
fill [] m = []
fill (s ∷ segs) m = (if s.placeholder then get s.value m else s.value) ++ fill segs m

lookup-capture :
    (last : Option Text) (v : Text) (m : Matches) (k : Text)
    → last ≢ some k
    → lookup k (capture last v m) ≡ lookup k m
unfolding capture
lookup-capture none v m k h = refl
lookup-capture (some name) v m k h = ground (arith, lookup-insert name k v m, text_eq_iff name k)

-- A key that no placeholder ahead has keeps its value.
pub lookup-match_loop :
    (segs : List Segment) (rest : Text) (last : Option Text) (m : Matches) (k : Text)
    → IsFresh k segs
    → last ≢ some k
    → lookup k (match_loop segs rest last m).1 ≡ lookup k m
unfolding match_loop
lookup-match_loop [] rest none m k f h = refl
lookup-match_loop [] rest (some name) m k f h =
    ground (arith, lookup-insert name k rest m, text_eq_iff name k)
lookup-match_loop (s ∷ segs) rest last m k f h = elim (Bool-cases s.placeholder) [
  | inl e ↦ rw e (lookup-match_loop segs rest (some s.value) m k f.1 (λ e'. f.0 e (cc)))
  | inr e ↦ elim (Option-cases (index rest s.value)) [
    | inl e₁ ↦ rw (e, e₁, match_loop) refl
    | inr (loc, e₁) ↦ elim (Bool-cases (misplaced last loc)) [
      | inl e₂ ↦ rw (e, e₁, e₂, match_loop) refl
      | inr e₂ ↦
          rw (e, e₁, e₂, match_loop)
            (lookup-match_loop segs _ none (capture last (take loc rest) m) k f.1 (λ e'. cc)
              ∙ lookup-capture last (take loc rest) m k h)
    ]
  ]
]

-- A placeholder that waits is followed by a literal or by the end, and its name does not return.
abbrev pub IsWaiting : Option Text → List Segment → Type 0
IsWaiting none segs = Unit
IsWaiting (some name) segs = (starts_with_placeholder segs ≡ false) × IsFresh name segs

abbrev pub IsFreshWaiting : Option Text → List Segment → Type 0
IsFreshWaiting none segs = Unit
IsFreshWaiting (some name) segs = IsFresh name segs

unfoldable pub waiting : Option Text → Matches → Text
waiting none m = []
waiting (some name) m = get name m

pub match_loop_hole :
    (s : Segment) (segs : List Segment) (rest : Text) (last : Option Text) (m : Matches)
    → s.placeholder ≡ true
    → match_loop (s ∷ segs) rest last m ≡ match_loop segs rest (some s.value) m
unfolding match_loop
match_loop_hole s segs rest last m e = rw e refl

-- What a literal that was passed says.
match_loop_literal :
    (s : Segment) (segs : List Segment) (rest : Text) (last : Option Text) (m : Matches)
    → s.placeholder ≡ false
    → (match_loop (s ∷ segs) rest last m).0 ≡ true
    → (loc : ℕ) × (index rest s.value ≡ some loc)
      × (misplaced last loc ≡ false)
      × (match_loop (s ∷ segs) rest last m
          ≡ match_loop segs
              (drop (length s.value) (drop loc rest))
              none
              (capture last (take loc rest) m))
unfolding match_loop
match_loop_literal s segs rest last m e h = elim (Option-cases (index rest s.value)) [
  | inl e₁ ↦ absurd (refused e₁)
  | inr (loc, e₁) ↦ (loc, e₁, placed loc e₁, ground arith)
]
  where
    refused : index rest s.value ≡ none → ⊥
    refused e₁ = ground arith

    placed : (loc : ℕ) → index rest s.value ≡ some loc → misplaced last loc ≡ false
    placed loc e₁ = ground arith

-- The name that waits, which no placeholder ahead has, keeps what is captured for it.
pub waiting-capture :
    (last : Option Text) (segs : List Segment) (rest ahead : Text) (m : Matches) (loc : ℕ)
    → IsFreshWaiting last segs
    → misplaced last loc ≡ false
    → let found = (match_loop segs ahead none (capture last (take loc rest) m)).1 in
      waiting last found ≡ take loc rest
unfolding waiting misplaced capture get
waiting-capture none segs rest ahead m zero p e = refl
waiting-capture none segs rest ahead m (suc loc) p e = ground arith
waiting-capture (some name) segs rest ahead m loc p e =
    rw (get, lookup-match_loop segs ahead none (insert name (take loc rest) m) name p (λ e'. cc))
      (ground (arith, lookup-insert name name (take loc rest) m, text_eq_iff name name))

pub IsWaiting-tail :
    (last : Option Text) (s : Segment) (segs : List Segment)
    → IsWaiting last (s ∷ segs)
    → IsFreshWaiting last segs
IsWaiting-tail none s segs p = tt
IsWaiting-tail (some name) s segs p = p.1.1

none_waits :
    (last : Option Text) (s : Segment) (segs : List Segment) (rest : Text) (found : Matches)
    → s.placeholder ≡ true
    → IsWaiting last (s ∷ segs)
    → get s.value found ++ fill segs found ≡ rest
    → waiting last found ++ (get s.value found ++ fill segs found) ≡ rest
unfolding waiting starts_with_placeholder
none_waits none s segs rest found e p h = h
none_waits (some name) s segs rest found e p h = absurd (false≢true (sym p.0 ∙ e))

literal_spells :
    (last : Option Text) (s : Segment) (segs : List Segment) (rest : Text) (found : Matches)
    (loc : ℕ)
    → s.placeholder ≡ false
    → index rest s.value ≡ some loc
    → waiting last found ≡ take loc rest
    → fill segs found ≡ drop (length s.value) (drop loc rest)
    → waiting last found ++ fill (s ∷ segs) found ≡ rest
unfolding fill
literal_spells last s segs rest found loc e e₁ e₂ ih =
    rw (e, e₂, ih) (sym (index-split rest s.value loc e₁))

-- The values found, with the segments ahead, spell the text ahead.
fill-match_loop :
    (segs : List Segment) (rest : Text) (last : Option Text) (m : Matches)
    → IsWaiting last segs
    → IsWellFormed segs
    → (match_loop segs rest last m).0 ≡ true
    → let found = (match_loop segs rest last m).1 in waiting last found ++ fill segs found ≡ rest
unfolding waiting fill
fill-match_loop [] rest none m p w h = unfold match_loop in ground arith
fill-match_loop [] rest (some name) m p w h =
    unfold match_loop in
    ground (arith, lookup-insert name name rest m, text_eq_iff name name, append-nil rest)
fill-match_loop (s ∷ segs) rest last m p w h = elim (Bool-cases s.placeholder) [
  | inl e ↦
      let ih =
        fill-match_loop segs rest (some s.value) m (w.0 e) w.1
          (subst (λ r. r.0 ≡ true) (match_loop_hole s segs rest last m e) h) in
      rw (match_loop_hole s segs rest last m e, e) (none_waits last s segs rest _ e p ih)
  | inr e ↦
      let (loc, e₁, e₂, next) = match_loop_literal s segs rest last m e h in
      let ih =
        fill-match_loop segs (drop (length s.value) (drop loc rest)) none
          (capture last (take loc rest) m) tt w.1 (subst (λ r. r.0 ≡ true) next h) in
      subst (λ r. waiting last r.1 ++ fill (s ∷ segs) r.1 ≡ rest) (sym next)
        (literal_spells last s segs rest _ loc e e₁
          (waiting-capture last segs rest _ m loc (IsWaiting-tail last s segs p) e₂) ih)
]

-- A name that match accepts is the pattern with the values that it returns put in for the
-- placeholders, if the pattern is well formed.
pub fill-match :
    (segments : List Segment) (str : Text)
    → IsWellFormed segments
    → (match segments str).0 ≡ true
    → fill segments (match segments str).1 ≡ str
unfolding match fill waiting
fill-match segments str w h = fill-match_loop segments str none [] tt w h
