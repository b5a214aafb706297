-- ===== src/Layer/Pattern/Find.antt =====
-- Which names match accepts.
use tilegroxy.Base.{
  ℕ, Bool, true, false, List, [], ◌∷◌, ◌++◌, Option, none, some, ◌≡◌, ◌≢◌, refl, ap, subst, ◌∙◌,
  sym, length, take, drop, Text, text_eq_iff, index, lookup-insert, arith, All, append-nil,
  index-append, Bool-cases, inl, inr, drop-append, take-append, has_prefix-append,
}
use mathlib.Core.Bool.{false≢true}
use tilegroxy.Layer.Pattern.{
  Segment, Matches, capture, misplaced, match_loop, match, starts_with_placeholder,
}
use tilegroxy.Layer.Pattern.Parse.{IsWellFormed}
use tilegroxy.Layer.Pattern.Fill.{
  get, fill, waiting, IsWaiting, IsFreshWaiting, IsWaiting-tail, waiting-capture, match_loop_hole,
}

-- No byte of the value begins the literal, which is not empty.
abbrev pub Delimits : Text → Text → Type 0
Delimits v [] = ⊥
Delimits v (d ∷ sub) = All (λ c. c ≢ d) v

-- Each value ends where the literal behind it first begins.
abbrev pub IsDelimited : List Segment → Matches → Type 0
IsDelimited [] m = Unit
IsDelimited (s ∷ []) m = Unit
IsDelimited (s ∷ t ∷ segs) m =
    (s.placeholder ≡ true → Delimits (get s.value m) t.value) × IsDelimited (t ∷ segs) m

-- Every placeholder has this value in the one map as in the other.
abbrev pub Agree : List Segment → Matches → Matches → Type 0
Agree segs found m = All (λ s. s.placeholder ≡ true → get s.value found ≡ get s.value m) segs

index-delimited : (v t rest : Text) → Delimits v t → index (v ++ (t ++ rest)) t ≡ some (length v)
index-delimited v [] rest h = absurd h
index-delimited v (d ∷ sub) rest h = index-append v d sub rest h

index_at_once : (t rest : Text) → index (t ++ rest) t ≡ some 0
unfolding index
index_at_once [] [] = refl
index_at_once [] (c ∷ rest) = ground (arith, has_prefix-append [] (c ∷ rest))
index_at_once (d ∷ t) rest = ground (arith, has_prefix-append (d ∷ t) rest)

match_loop_found :
    (s : Segment) (segs : List Segment) (rest : Text) (last : Option Text) (m : Matches) (loc : ℕ)
    → s.placeholder ≡ false
    → index rest s.value ≡ some loc
    → misplaced last loc ≡ false
    → match_loop (s ∷ segs) rest last m
      ≡ match_loop segs
          (drop (length s.value) (drop loc rest))
          none
          (capture last (take loc rest) m)
unfolding match_loop
match_loop_found s segs rest last m loc e e₁ e₂ = rw (e, e₁, e₂, match_loop) refl

-- Every value that waits ends where the literal ahead begins.
abbrev WaitDelimited : Option Text → List Segment → Matches → Type 0
WaitDelimited none segs m = Unit
WaitDelimited (some name) [] m = Unit
WaitDelimited (some name) (t ∷ segs) m = Delimits (get name m) t.value

found_at :
    (last : Option Text) (t : Segment) (segs : List Segment) (rest : Text) (m : Matches)
    → WaitDelimited last (t ∷ segs) m
    → (index (waiting last m ++ (t.value ++ rest)) t.value ≡ some (length (waiting last m)))
      × (misplaced last (length (waiting last m)) ≡ false)
unfolding waiting misplaced
found_at none t segs rest m h = (index_at_once t.value rest, refl)
found_at (some name) t segs rest m h = (index-delimited (get name m) t.value rest h, refl)

fill-literal :
    (s : Segment) (segs : List Segment) (m : Matches)
    → s.placeholder ≡ false
    → fill (s ∷ segs) m ≡ s.value ++ fill segs m
unfolding fill
fill-literal s segs m e = rw e refl

literal_next :
    (last : Option Text) (s : Segment) (segs : List Segment) (m acc : Matches)
    → s.placeholder ≡ false
    → WaitDelimited last (s ∷ segs) m
    → match_loop (s ∷ segs) (waiting last m ++ fill (s ∷ segs) m) last acc
      ≡ match_loop segs (fill segs m) none (capture last (waiting last m) acc)
literal_next last s segs m acc e wd =
    let at = found_at last s segs (fill segs m) m wd in
    rw (fill-literal s segs m e) (
      match_loop_found s segs (waiting last m ++ (s.value ++ fill segs m)) last acc
        (length (waiting last m)) e at.0 at.1
      ∙ rw
          (
            drop-append (waiting last m) (s.value ++ fill segs m),
            take-append (waiting last m) (s.value ++ fill segs m),
            drop-append s.value (fill segs m),
          )
          refl)

take_all : (v : Text) → take (length v) v ≡ v
take_all [] = refl
take_all (c ∷ v) = ap (◌∷◌ c) (take_all v)

waiting-literal :
    (last : Option Text) (segs : List Segment) (ahead : Text) (m acc : Matches)
    → IsFreshWaiting last segs
    → waiting last (match_loop segs ahead none (capture last (waiting last m) acc)).1
      ≡ waiting last m
unfolding waiting misplaced
waiting-literal none segs ahead m acc p = refl
waiting-literal (some name) segs ahead m acc p =
    subst (λ v. get name (match_loop segs ahead none (capture (some name) v acc)).1 ≡ v)
      (take_all (get name m))
      (waiting-capture (some name) segs (get name m) ahead acc (length (get name m)) p refl)

hole_next :
    (s : Segment) (segs : List Segment) (last : Option Text) (m acc : Matches)
    → s.placeholder ≡ true
    → IsWaiting last (s ∷ segs)
    → match_loop (s ∷ segs) (waiting last m ++ fill (s ∷ segs) m) last acc
      ≡ match_loop segs (waiting (some s.value) m ++ fill segs m) (some s.value) acc
unfolding waiting fill starts_with_placeholder
hole_next s segs none m acc e p = match_loop_hole s segs _ none acc e ∙ rw e refl
hole_next s segs (some name) m acc e p = absurd (false≢true (sym p.0 ∙ e))

wait_for_next :
    (s : Segment) (segs : List Segment) (m : Matches)
    → s.placeholder ≡ true
    → IsDelimited (s ∷ segs) m
    → WaitDelimited (some s.value) segs m × IsDelimited segs m
wait_for_next s [] m e d = (tt, tt)
wait_for_next s (t ∷ segs) m e d = (d.0 e, d.1)

IsDelimited-tail :
    (s : Segment) (segs : List Segment) (m : Matches)
    → IsDelimited (s ∷ segs) m
    → IsDelimited segs m
IsDelimited-tail s [] m d = tt
IsDelimited-tail s (t ∷ segs) m d = d.1

-- A waiting placeholder takes the last piece of the text.
match_loop_end :
    (last : Option Text) (m acc : Matches)
    → let res = match_loop [] (waiting last m ++ fill [] m) last acc in
      (res.0 ≡ true) × (waiting last res.1 ≡ waiting last m)
unfolding match_loop waiting get fill
match_loop_end none m acc = (refl, refl)
match_loop_end (some name) m acc = (
  refl,
  ground (
    arith,
    lookup-insert name name (get name m ++ []) acc,
    text_eq_iff name name,
    append-nil (get name m),
  ),
)

abbrev Found : Option Text → List Segment → Matches → Bool × Matches → Type 0
Found last segs m res = (res.0 ≡ true) × (waiting last res.1 ≡ waiting last m) × Agree segs res.1 m

Found-hole :
    (last : Option Text) (s : Segment) (segs : List Segment) (m : Matches) (res : Bool × Matches)
    → s.placeholder ≡ true
    → IsWaiting last (s ∷ segs)
    → Found (some s.value) segs m res
    → Found last (s ∷ segs) m res
unfolding waiting starts_with_placeholder
Found-hole none s segs m res e p h = (h.0, refl, ((λ _. h.1), h.2))
Found-hole (some name) s segs m res e p h = absurd (false≢true (sym p.0 ∙ e))

match_loop-fill :
    (segs : List Segment) (last : Option Text) (m acc : Matches)
    → IsWaiting last segs
    → IsWellFormed segs
    → WaitDelimited last segs m
    → IsDelimited segs m
    → Found last segs m (match_loop segs (waiting last m ++ fill segs m) last acc)
unfolding waiting fill
match_loop-fill [] last m acc p w wd d = let res = match_loop_end last m acc in (res.0, res.1, tt)
match_loop-fill (s ∷ segs) last m acc p w wd d = elim (Bool-cases s.placeholder) [
  | inl e ↦
      let next = wait_for_next s segs m e d in
      subst (Found last (s ∷ segs) m) (sym (hole_next s segs last m acc e p)) (
        Found-hole last s segs m _ e p
          (match_loop-fill segs (some s.value) m acc (w.0 e) w.1 next.0 next.1))
  | inr e ↦
      let ih =
        match_loop-fill segs none m (capture last (waiting last m) acc) tt w.1 tt
          (IsDelimited-tail s segs m d) in
      subst (Found last (s ∷ segs) m) (sym (literal_next last s segs m acc e wd)) (
        ih.0,
        waiting-literal last segs _ m acc (IsWaiting-tail last s segs p),
        ((λ e'. absurd (false≢true (sym e ∙ e'))), ih.2),
      )
]

-- match accepts a well-formed pattern with values put in, and returns those values, if each value
-- holds no byte that begins the literal behind it.
pub match-fill :
    (segments : List Segment) (m : Matches)
    → IsWellFormed segments
    → IsDelimited segments m
    → let res = match segments (fill segments m) in (res.0 ≡ true) × Agree segments res.1 m
unfolding match waiting
match-fill segments m w d = let res = match_loop-fill segments none m [] tt w tt d in (res.0, res.2)
