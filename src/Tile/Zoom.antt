-- ===== src/Tile/Zoom.antt =====
-- pkg/utility.go: ParseZoomString. An error is `none`.
pub mod Levels
pub mod Listing
pub mod Tests
use tilegroxy.Base.{
  ℕ, zero, suc, ◌+◌, ◌-◌, ◌*◌, ◌^◌, Bool, true, false, ◌||◌, ◌&&◌, List, [], ◌∷◌, ◌++◌, Option,
  none, some, ltb, leb, ◌==◌, if◌then◌else◌, Text,
}
use tilegroxy.Base.Int.{ℤ, pos, negsuc, ltb_ℤ}
use tilegroxy.Base.Strconv.{split, atoi}
use tilegroxy.Tile.Bounds.{max_zoom}

-- `count` levels from the first
pub levels : ℕ → ℕ → List ℤ
levels first zero = []
levels first (suc count) = pos first ∷ levels (suc first) count

-- for i := start; i <= end; i++, where neither is negative
pub level_range : ℤ → ℤ → List ℤ
unfolding levels
level_range (pos a) (pos b) = levels a (suc b - a)
level_range _ _ = []

pub parse_single : ℤ × Bool → Option (List ℤ)
parse_single (z, ok) =
    if ltb_ℤ z (pos 0) || ltb_ℤ (pos max_zoom) z then none else if ok then some (z ∷ []) else none

pub parse_range : ℤ × Bool → ℤ × Bool → Option (List ℤ)
unfolding level_range
parse_range (start, ok1) (end, ok2) =
    if ok1 && ok2
    then (if ltb_ℤ end start
        then none
        else if ltb_ℤ start (pos 0) || ltb_ℤ (pos max_zoom) end
        then none
        else some (level_range start end))
    else none

-- The switch on the number of parts.
pub parse_entry : List Text → Option (List ℤ)
unfolding parse_single parse_range atoi
parse_entry (a ∷ []) = parse_single (atoi a)
parse_entry (a ∷ b ∷ []) = parse_range (atoi a) (atoi b)
parse_entry _ = none

pub append_levels : Option (List ℤ) → Option (List ℤ) → Option (List ℤ)
append_levels none rest = none
append_levels (some zs) none = none
append_levels (some zs) (some rest) = some (zs ++ rest)

-- The loop over the entries.
pub parse_entries : List Text → Option (List ℤ)
unfolding append_levels parse_entry split
parse_entries [] = some []
parse_entries (e ∷ es) = append_levels (parse_entry (split b'-' e)) (parse_entries es)

pub parse_zoom_string : Text → Option (List ℤ)
unfolding parse_entries split
parse_zoom_string str = parse_entries (split b',' str)
