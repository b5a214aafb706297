-- ===== src/Layer/Pattern.antt =====
-- pkg/entities/layer/layer.go: layerSegment, prependLayerSegment, parsePattern and match. An error
-- joined by errors.Join is a list of errors, empty for nil. `match` carries the text from strLoc on
-- in place of strLoc itself.
pub mod Parse
pub mod Fill
pub mod Find
pub mod Tests
use tilegroxy.Base.{
  ℕ, zero, suc, ◌<◌, Bool, true, false, ◌&&◌, List, [], ◌∷◌, ◌++◌, Option, none, some, ltb,
  if◌then◌else◌, length, take, drop, Text, codes, text_eq, index, insert,
}

pub record Segment : Type 0 where
  pub value : Text
  pub placeholder : Bool

pub data PatternError : Type 0 where
  placeholders_without_separators missing_closing : PatternError
  dupe : Text → PatternError

abbrev pub Parsed : Type 0
Parsed = List Segment × List PatternError

pub starts_with_placeholder : List Segment → Bool
starts_with_placeholder [] = false
starts_with_placeholder (s ∷ segs) = s.placeholder

-- for _, cur := range existingSegments
dupes : Text → List Segment → List PatternError
dupes v [] = []
dupes v (cur ∷ segs) =
    if cur.placeholder && text_eq v cur.value then dupe v ∷ dupes v segs else dupes v segs

pub prepend : Segment → Parsed → Parsed
unfolding starts_with_placeholder dupes
prepend seg (segs, errs) =
    if seg.placeholder
    then (
      seg ∷ segs,
      errs
          ++ ((if starts_with_placeholder segs then placeholders_without_separators ∷ [] else [])
              ++ dupes seg.value segs),
    )
    else (seg ∷ segs, errs)

abbrev pub literal : Text → Segment
literal v = record { value = v; placeholder = false }

abbrev pub hole : Text → Segment
hole v = record { value = v; placeholder = true }

-- One call of parsePattern, over the function that it calls on the rest of the pattern.
parse_step : (Text → Parsed) → Text → Parsed
unfolding prepend
parse_step rec pattern = elim (index pattern (codes "{")) [
  | none ↦ (literal pattern ∷ [], [])
  | some zero ↦ elim (index pattern (codes "}")) [
    | some (suc j) ↦
        prepend (hole (drop 1 (take (suc j) pattern))) (rec (drop (suc (suc j)) pattern))
    | _ ↦ (hole (drop 1 pattern) ∷ [], missing_closing ∷ [])
  ]
  | some (suc i) ↦ prepend (literal (take (suc i) pattern)) (rec (drop (suc i) pattern))
]

-- parsePattern with fuel: every call cuts off at least one byte.
parse_fuel : ℕ → Text → Parsed
unfolding parse_step
parse_fuel f [] = ([], [])
parse_fuel zero (c ∷ s) = ([], missing_closing ∷ [])
parse_fuel (suc f) (c ∷ s) = parse_step (parse_fuel f) (c ∷ s)

unfoldable pub parse_pattern : Text → Parsed
unfolding parse_fuel
parse_pattern pattern = parse_fuel (length pattern) pattern

abbrev pub Matches : Type 0
Matches = List (Text × Text)

-- The value for the placeholder that waits, if one does.
unfoldable pub capture : Option Text → Text → Matches → Matches
capture none v m = m
capture (some name) v m = insert name v m

-- A literal that follows no placeholder has to stand at once.
unfoldable pub misplaced : Option Text → ℕ → Bool
misplaced none loc = ltb 0 loc
misplaced (some name) loc = false

unfoldable pub match_loop : List Segment → Text → Option Text → Matches → Bool × Matches
unfolding capture misplaced
match_loop [] rest none m = (if ltb 0 (length rest) then false else true, m)
match_loop [] rest (some name) m = (true, insert name rest m)
match_loop (seg ∷ segs) rest last m = elim seg.placeholder [
  | true ↦ match_loop segs rest (some seg.value) m
  | false ↦ elim (index rest seg.value) [
    | none ↦ (false, m)
    | some loc ↦ elim (misplaced last loc) [
      | true ↦ (false, m)
      | false ↦
          match_loop segs (drop (length seg.value) (drop loc rest)) none
            (capture last (take loc rest) m)
    ]
  ]
]

unfoldable pub match : List Segment → Text → Bool × Matches
unfolding match_loop
match segments str = match_loop segments str none []
