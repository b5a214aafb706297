-- ===== src/Tile/Zoom/Tests.antt =====
-- The text `1-3,6`.
use tilegroxy.Base.{[], ◌∷◌, some, ◌≡◌, arith}
use tilegroxy.Tile.Zoom.{parse_zoom_string}
use tilegroxy.Tile.Zoom.Listing.{
  single, through, show_entries, all_levels, parse_zoom_string-show_entries,
}

parse_zoom_string-show_entries_example :
    parse_zoom_string (show_entries (through 1 3) (single 6 ∷ []))
    ≡ some (all_levels (through 1 3 ∷ single 6 ∷ []))
parse_zoom_string-show_entries_example =
    parse_zoom_string-show_entries (through 1 3) (single 6 ∷ [])
      ((omega arith, omega arith), (omega arith, tt))
