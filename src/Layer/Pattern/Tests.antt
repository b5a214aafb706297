-- ===== src/Layer/Pattern/Tests.antt =====
-- The pattern `a{x}b`.
use tilegroxy.Base.{
  true, List, [], ◌∷◌, ◌≡◌, refl, Text, codes, text_eq, index, has_prefix, lookup, arith,
}
use tilegroxy.Layer.Pattern.{
  Segment, parse_pattern, parse_fuel, parse_step, prepend, dupes, starts_with_placeholder, match,
  match_loop, capture, misplaced, Matches, literal, hole,
}
use tilegroxy.Layer.Pattern.Parse.{parse_pattern-IsWellFormed, IsWellFormed}
use tilegroxy.Layer.Pattern.Fill.{fill, get, fill-match}
use tilegroxy.Layer.Pattern.Find.{IsDelimited, Agree, match-fill}

abbrev pattern_ab : Text
pattern_ab = codes "a{x}b"

abbrev segments_ab : List Segment
segments_ab = literal (codes "a") ∷ hole (codes "x") ∷ literal (codes "b") ∷ []

abbrev one_for_x : Matches
one_for_x = (codes "x", codes "1") ∷ []

segments_ab-IsWellFormed : IsWellFormed segments_ab
unfolding parse_pattern parse_fuel parse_step prepend dupes starts_with_placeholder index has_prefix
    text_eq
segments_ab-IsWellFormed = parse_pattern-IsWellFormed pattern_ab refl

fill-match_example : fill segments_ab (match segments_ab (codes "a1b")).1 ≡ codes "a1b"
unfolding match match_loop capture misplaced index has_prefix text_eq
fill-match_example = fill-match segments_ab (codes "a1b") segments_ab-IsWellFormed refl

one_for_x-IsDelimited : IsDelimited segments_ab one_for_x
unfolding get lookup text_eq
one_for_x-IsDelimited = ((λ e. ground arith), ((λ e. ((λ h. omega arith), tt)), tt))

match-fill_example :
    let res = match segments_ab (fill segments_ab one_for_x) in
    (res.0 ≡ true) × Agree segments_ab res.1 one_for_x
match-fill_example = match-fill segments_ab one_for_x segments_ab-IsWellFormed one_for_x-IsDelimited
