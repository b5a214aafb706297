-- ===== src/Tile/Bounds.antt =====
-- TileRequest, Bounds and their geometry.
use tilegroxy.Base.{
  ℕ, zero, suc, ◌^◌, Bool, true, not, ◌&&◌, ◌||◌, if◌then◌else◌, ◌==◌, Text, codes, ◌≡◌, ◌⊎◌, inl,
  inr, refl,
}
use tilegroxy.Base.Int.{ℤ, pos, negsuc, ltb_ℤ}
use tilegroxy.Errors.{Error, range, invalid_srid}
use tilegroxy.Tile.Floats.{Floats}

abbrev pub max_zoom : ℕ
max_zoom = 21

abbrev pub srid_wgs84 : ℕ
srid_wgs84 = 4326

abbrev pub srid_psuedo_mercator : ℕ
srid_psuedo_mercator = 3857

pub record TileRequest : Type 0 where
  pub layer_name : Text
  pub z : ℤ
  pub x : ℤ
  pub y : ℤ

pub record Box (F : Type 0) : Type 0 where
  pub south : F
  pub north : F
  pub west : F
  pub east : F
  pub srid : ℕ

pub data Result {ℓ} (A : Type ℓ) : Type ℓ where
  ok : A → Result A
  err : Error → Result A

pub Result-cases {ℓ} :
    {A : Type ℓ} (r : Result A) → ((e : Error) × (r ≡ err e)) ⊎ ((a : A) × (r ≡ ok a))
Result-cases (err e) = inl (e, refl)
Result-cases (ok a) = inr (a, refl)

-- The power of two that a zoom level stands for, for the message of a RangeError.
exp2_int : ℤ → ℤ
exp2_int (pos z) = pos (2 ^ z)
exp2_int (negsuc z) = pos 0

minus_one : ℤ → ℤ
minus_one (pos zero) = negsuc zero
minus_one (pos (suc n)) = pos n
minus_one (negsuc n) = negsuc (suc n)

module _ (f : Floats) where
  open f use {
    F, of_int, decimal, add, sub, mul, div, lt, le, eq, min, max, abs, exp2, log, tan, atan, sinh,
    pi,
  }

  nat : ℕ → F
  nat n = of_int (pos n)

  unfoldable pub max_3857_coord_in_meters : F
  max_3857_coord_in_meters = decimal (pos 20037508342789) 6

  delta : F
  delta = decimal (pos 1) 8

  unfoldable pub convert_lat_4326_to_3857 : F → F
  unfolding nat max_3857_coord_in_meters
  convert_lat_4326_to_3857 lat =
      mul (div (log (tan (div (mul (add (nat 90) lat) pi) (nat 360)))) (div pi (nat 180)))
        (div max_3857_coord_in_meters (nat 180))

  unfoldable pub convert_lon_4326_to_3857 : F → F
  unfolding nat max_3857_coord_in_meters
  convert_lon_4326_to_3857 lon = div (mul lon max_3857_coord_in_meters) (nat 180)

  -- The bounds of a tile whose coordinates are in range.
  pub tile_box : F → F → F → ℕ → Box F
  unfolding nat convert_lat_4326_to_3857 convert_lon_4326_to_3857
  tile_box n x y srid =
      let x1 = sub (mul (div x n) (nat 360)) (nat 180) in
      let x2 = sub (mul (div (add x (nat 1)) n) (nat 360)) (nat 180) in
      let y1 =
        mul (div (nat 180) pi) (atan (sinh (mul pi (sub (nat 1) (div (mul (nat 2) y) n))))) in
      let y2 =
        mul (div (nat 180) pi)
          (atan (sinh (mul pi (sub (nat 1) (div (mul (nat 2) (add y (nat 1))) n))))) in
      let north = max y1 y2 in
      let south = min y1 y2 in
      let west = min x2 x1 in
      let east = max x2 x1 in
      if srid == srid_wgs84
      then record { south = south; north = north; west = west; east = east; srid = srid }
      else record {
        south = convert_lat_4326_to_3857 south;
        north = convert_lat_4326_to_3857 north;
        west = convert_lon_4326_to_3857 west;
        east = convert_lon_4326_to_3857 east;
        srid = srid;
      }

  unfoldable pub get_bounds_projection : TileRequest → ℕ → Result (Box F)
  unfolding nat tile_box exp2_int minus_one
  get_bounds_projection t srid =
      let n = exp2 (of_int t.z) in
      let x = of_int t.x in
      let y = of_int t.y in
      if ltb_ℤ t.z (pos 0) || ltb_ℤ (pos max_zoom) t.z
      then err (range (codes "Z") (pos 0) (pos max_zoom))
      else if not (srid == srid_wgs84) && not (srid == srid_psuedo_mercator)
      then err (invalid_srid srid)
      else if lt x (nat 0) || le n x
      then err (range (codes "X") (pos 0) (minus_one (exp2_int t.z)))
      else if lt y (nat 0) || le n y
      then err (range (codes "Y") (pos 0) (minus_one (exp2_int t.z)))
      else ok (tile_box n x y srid)

  unfoldable pub get_bounds : TileRequest → Result (Box F)
  get_bounds t = get_bounds_projection t srid_wgs84

  unfoldable pub is_null_island : Box F → Bool
  unfolding nat
  is_null_island b =
      eq b.east (nat 0) && (eq b.north (nat 0) && (eq b.west (nat 0) && eq b.south (nat 0)))

  unfoldable pub intersects : Box F → Box F → Bool
  intersects b b2 =
      lt b.south b2.north && (lt b2.south b.north && (lt b.west b2.east && lt b2.west b.east))

  unfoldable pub contains_box : Box F → Box F → Bool
  unfolding delta
  contains_box b b2 =
      le b.south (add b2.south delta)
      && (le b2.north (add b.north delta)
          && (le b.west (add b2.west delta) && le b2.east (add b.east delta)))

  unfoldable pub intersects_bounds_projection : TileRequest → Box F → ℕ → Result Bool
  intersects_bounds_projection t b srid =
      if is_null_island b
      then ok true
      else elim (get_bounds_projection t srid) [ err e ↦ err e | ok b2 ↦ ok (intersects b2 b) ]

  unfoldable pub intersects_bounds : TileRequest → Box F → Result Bool
  intersects_bounds t b = intersects_bounds_projection t b srid_wgs84

  unfoldable pub width : Box F → F
  width b = abs (sub b.east b.west)

  unfoldable pub height : Box F → F
  height b = abs (sub b.north b.south)

  unfoldable pub buffer_relative : Box F → F → Box F
  unfolding nat width height
  buffer_relative b pct =
      let delta_w = div (mul (width b) pct) (nat 2) in
      let delta_h = div (mul (height b) pct) (nat 2) in
      record {
        north = add b.north delta_h;
        south = sub b.south delta_h;
        west = sub b.west delta_w;
        east = add b.east delta_w;
        srid = b.srid;
      }

  unfoldable pub convert_to_psuedo_mercator_range : Box F → Box F
  unfolding convert_lat_4326_to_3857 convert_lon_4326_to_3857
  convert_to_psuedo_mercator_range b = if b.srid == srid_psuedo_mercator then b else record {
    south = convert_lat_4326_to_3857 b.south;
    north = convert_lat_4326_to_3857 b.north;
    west = convert_lon_4326_to_3857 b.west;
    east = convert_lon_4326_to_3857 b.east;
    srid = srid_psuedo_mercator;
  }

  unfoldable pub contains_point : Box F → F → F → Bool
  unfolding delta
  contains_point b x y =
      le b.south (add y delta)
      && (le y (add b.north delta) && (le b.west (add x delta) && le x (add b.east delta)))

  unfoldable pub centroid : Box F → F × F
  unfolding nat
  centroid b = (div (add b.west b.east) (nat 2), div (add b.north b.south) (nat 2))

  unfoldable pub max_lat : F
  max_lat = decimal (pos 850511) 4

  unfoldable pub min_lat : F
  min_lat = decimal (negsuc 850510) 4

  unfoldable pub max_long : F
  max_long = of_int (pos 180)

  unfoldable pub min_long : F
  min_long = of_int (negsuc 179)

  unfoldable pub min_3857_coord_in_meters : F
  min_3857_coord_in_meters = decimal (negsuc 20037508342788) 6

  -- math.Max(math.Min(a, high), low)
  unfoldable pub clamp : F → F → F → F
  clamp low high a = max (min a high) low

  unfoldable pub confine_to_psuedo_mercator_range : Box F → Box F
  unfolding clamp
  confine_to_psuedo_mercator_range b =
      if b.srid == srid_psuedo_mercator
      then record {
        south = clamp min_3857_coord_in_meters max_3857_coord_in_meters b.south;
        north = clamp min_3857_coord_in_meters max_3857_coord_in_meters b.north;
        west = clamp min_3857_coord_in_meters max_3857_coord_in_meters b.west;
        east = clamp min_3857_coord_in_meters max_3857_coord_in_meters b.east;
        srid = b.srid;
      }
      else record {
        south = clamp min_lat max_lat b.south;
        north = clamp min_lat max_lat b.north;
        west = clamp min_long max_long b.west;
        east = clamp min_long max_long b.east;
        srid = b.srid;
      }
