-- ===== src/Tile/Find/Tests.antt =====
-- Listings of a few tiles, and a longitude beyond 180.
use tilegroxy.Base.{◌≡◌, refl, false, List, some, codes, arith}
use tilegroxy.Base.Int.{pos}
use tilegroxy.Errors.{too_many_tiles}
use tilegroxy.Tile.Bounds.{TileRequest, ok, err, max_long, min_long}
use tilegroxy.Tile.Floats.{Floats}
use tilegroxy.Tile.Tests.{integers}
use tilegroxy.Tile.Find.{sub_ℤ, blank_tiles, list_tiles, wrap_long, lower_long, raise_long}
use tilegroxy.Tile.Find.Listing.{IsAllowed, IsListing, list_tiles-rows, list_tiles_inverted}

list_tiles-rows_example :
    (IsAllowed 4 false
      → (ts : List TileRequest) × (list_tiles
            (codes "a")
            (pos 2)
            false
            (pos 1)
            (pos 3)
            (pos 0)
            (pos 2)
          ≡ ok ts)
        × IsListing (codes "a") (pos 2) 1 0 2 2 ts)
    × (¬ IsAllowed 4 false
        → list_tiles (codes "a") (pos 2) false (pos 1) (pos 3) (pos 0) (pos 2)
          ≡ err (too_many_tiles 4))
list_tiles-rows_example =
    list_tiles-rows (codes "a") (pos 2) false 1 3 0 2 (omega arith) (omega arith) (omega arith)
      (omega arith)

list_tiles_inverted_example :
    (IsAllowed 4 false
      → list_tiles (codes "a") (pos 2) false (pos 3) (pos 1) (pos 2) (pos 0) ≡ ok (blank_tiles 4))
    × (¬ IsAllowed 4 false
        → list_tiles (codes "a") (pos 2) false (pos 3) (pos 1) (pos 2) (pos 0)
          ≡ err (too_many_tiles 4))
list_tiles_inverted_example =
    list_tiles_inverted (codes "a") (pos 2) false 3 1 2 0 (omega arith) (omega arith) (omega arith)
      (omega arith)

-- Integers that can be subtracted
abbrev subtracting : Floats
subtracting = record integers { sub = sub_ℤ }

-- 190 degrees east is 170 degrees west, but becomes 10 degrees east.
beyond_180 : wrap_long subtracting 3 (pos 190) ≡ some (pos 10)
unfolding wrap_long lower_long raise_long max_long min_long
beyond_180 = refl
