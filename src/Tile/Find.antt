-- ===== src/Tile/Find.antt =====
-- pkg/tile_request.go: FindTiles, which lists the tiles of a box. The loops that bring a longitude into
-- range run on fuel: on a float64 that is too large they would not end. Integers are Go's int, and
-- uint64 keeps its wrap-around.
pub mod Filling
pub mod Listing
pub mod Tests
use tilegroxy.Base.{
  ℕ, zero, suc, ◌+◌, ◌-◌, ◌*◌, ◌%◌, ◌^◌, Bool, true, false, not, ◌&&◌, List, [], ◌∷◌, Option, none,
  some, if◌then◌else◌, ltb, leb, set, Text, codes,
}
use tilegroxy.Base.Int.{ℤ, pos, negsuc, pos_part, neg_part, eqb_ℤ}
use tilegroxy.Errors.{Error, range, too_many_tiles}
use tilegroxy.Tile.Floats.{Floats}
use tilegroxy.Tile.Bounds.{
  max_zoom, max_lat, min_lat, max_long, min_long, TileRequest, Box, Result, ok, err,
}

-- a - b on natural numbers, as an integer
abbrev pub sub_ℕ : ℕ → ℕ → ℤ
sub_ℕ a b = if leb b a then pos (a - b) else negsuc (b - a - 1)

abbrev pub sub_ℤ : ℤ → ℤ → ℤ
sub_ℤ a b = sub_ℕ (pos_part a + neg_part b) (neg_part a + pos_part b)

-- The integer that lies a number of steps behind another.
abbrev pub after_ℤ : ℤ → ℕ → ℤ
after_ℤ a n = sub_ℕ (pos_part a + n) (neg_part a)

-- uint64(a)
abbrev pub to_u64 : ℤ → ℕ
to_u64 (pos n) = n % 2 ^ 64
to_u64 (negsuc n) = 2 ^ 64 - 1 - n % 2 ^ 64

abbrev pub blank_tile : TileRequest
blank_tile = record { layer_name = []; z = pos 0; x = pos 0; y = pos 0 }

-- make([]TileRequest, n)
pub blank_tiles : ℕ → List TileRequest
blank_tiles zero = []
blank_tiles (suc n) = blank_tile ∷ blank_tiles n

module _ (layer_name : Text) (z x_min y_min : ℤ) (w : ℕ) where
  abbrev pub tile_at : ℕ → ℕ → TileRequest
  tile_at i j = record { layer_name = layer_name; z = z; x = after_ℤ x_min i; y = after_ℤ y_min j }

  -- The inner loop, with the rows that are left, from a row on.
  pub fill_rows : ℕ → ℕ → ℕ → List TileRequest → List TileRequest
  fill_rows zero j i ts = ts
  fill_rows (suc k) j i ts = fill_rows k (suc j) i (set ts (j * w + i) (tile_at i j))

  -- The outer loop, with the columns that are left.
  pub fill_columns : ℕ → ℕ → ℕ → List TileRequest → List TileRequest
  unfolding fill_rows
  fill_columns zero i h ts = ts
  fill_columns (suc m) i h ts = fill_columns m (suc i) h (fill_rows h 0 i ts)

-- The range of a coordinate: one tile if it would be empty.
abbrev pub at_least_one : ℤ → ℤ → ℤ
at_least_one low high = if eqb_ℤ low high then after_ℤ low 1 else high

-- The number of tiles, on unsigned numbers of 64 bits.
abbrev pub num_tiles : ℤ → ℤ → ℕ
num_tiles dx dy = (to_u64 dx * to_u64 dy) % 2 ^ 64

abbrev pub max_int32 : ℕ
max_int32 = 2 ^ 31 - 1

pub listed : Text → ℤ → Bool → ℤ → ℤ → ℤ → ℤ → Result (List TileRequest)
unfolding fill_columns blank_tiles
listed layer_name z force x_min y_min dx dy =
    let n = num_tiles dx dy in
    if ltb 10000 n && not force
    then err (too_many_tiles n)
    else if ltb max_int32 n
    then err (too_many_tiles n)
    else ok (
        fill_columns layer_name z x_min y_min (pos_part dx) (pos_part dx) 0 (pos_part dy)
          (blank_tiles n))

-- What follows the computation of the ranges.
pub list_tiles : Text → ℤ → Bool → (x_min x_max y_min y_max : ℤ) → Result (List TileRequest)
unfolding listed
list_tiles layer_name z force x_min x_max y_min y_max =
    listed layer_name z force x_min y_min (sub_ℤ (at_least_one x_min x_max) x_min)
      (sub_ℤ (at_least_one y_min y_max) y_min)

module _ (f : Floats) where
  open f use {
    F, of_int, add, sub, mul, div, lt, min, max, exp2, log, tan, cos, ceil, floor, to_int, pi,
  }

  -- for lon > maxLong { lon -= maxLong }
  unfoldable pub lower_long : ℕ → F → Option F
  unfolding max_long
  lower_long zero lon = none
  lower_long (suc fuel) lon =
      let rest = lower_long fuel (sub lon (max_long f)) in
      if lt (max_long f) lon then rest else some lon

  -- for lon < minLong { lon -= minLong }
  unfoldable pub raise_long : ℕ → F → Option F
  unfolding min_long
  raise_long zero lon = none
  raise_long (suc fuel) lon =
      let rest = raise_long fuel (sub lon (min_long f)) in
      if lt lon (min_long f) then rest else some lon

  unfoldable pub wrap_long : ℕ → F → Option F
  unfolding lower_long raise_long
  wrap_long fuel lon = elim (lower_long fuel lon) [ none ↦ none | some l ↦ raise_long fuel l ]

  -- A latitude in radians, and its row of tiles before rounding.
  pub radians : F → F
  unfolding max_lat min_lat max_long
  radians lat = div (mul (min (max_lat f) (max (min_lat f) lat)) pi) (max_long f)

  pub row_of : F → F → F
  row_of n lat =
      div
        (mul n
          (sub (of_int (pos 1)) (div (log (add (tan lat) (div (of_int (pos 1)) (cos lat)))) pi)))
        (of_int (pos 2))

  pub column_of : F → F → F
  unfolding max_long
  column_of n lon = mul n (div (add lon (max_long f)) (of_int (pos 360)))

  -- int(math.Min(n, math.Max(0, a)))
  pub clamp_int : F → F → ℤ
  clamp_int n a = to_int (min n (max (of_int (pos 0)) a))

  pub find_from : Text → ℕ → Bool → Box F → F → F → Result (List TileRequest)
  unfolding radians row_of column_of clamp_int list_tiles
  find_from layer_name zoom force b west east =
      let n = exp2 (of_int (pos zoom)) in
      list_tiles layer_name (pos zoom) force (clamp_int n (column_of n west))
        (clamp_int n (column_of n east)) (clamp_int n (floor (row_of n (radians b.north))))
        (clamp_int n (ceil (row_of n (radians b.south))))

  -- FindTiles; `none` means that a loop has run out of fuel.
  unfoldable pub find_tiles : ℕ → Box F → Text → ℕ → Bool → Option (Result (List TileRequest))
  unfolding wrap_long find_from
  find_tiles fuel b layer_name zoom force =
      if ltb max_zoom zoom
      then some (err (range (codes "z") (pos 0) (pos max_zoom)))
      else elim (wrap_long fuel b.west) [
        | none ↦ none
        | some west ↦ elim (wrap_long fuel b.east) [
          | none ↦ none
          | some east ↦ some (find_from layer_name zoom force b west east)
        ]
      ]
