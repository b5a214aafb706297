-- ===== src/Tile/Range.antt =====
-- Which tile coordinates have bounds.
use tilegroxy.Base.{ℕ, ◌^◌, ◌≤◌, ◌<◌, ◌≡◌, ◌↔◌, arith, inl, inr}
use tilegroxy.Base.Int.{pos, ℤ-cases}
use tilegroxy.Tile.Floats.{Floats, FloatLaws}
use tilegroxy.Tile.Bounds.{
  TileRequest, Box, ok, max_zoom, get_bounds, get_bounds_projection, tile_box, srid_wgs84,
  convert_to_psuedo_mercator_range, srid_psuedo_mercator,
}

-- The tile exists: its zoom level is one of 22, and its coordinates are below two to that power.
abbrev pub IsTile : TileRequest → Type 0
IsTile t =
    (z : ℕ) × (x : ℕ) × (y : ℕ) × (t.z ≡ pos z)
    × (t.x ≡ pos x)
    × (t.y ≡ pos y)
    × (z ≤ max_zoom)
    × (x < 2 ^ z)
    × (y < 2 ^ z)

module _ (f : Floats) (laws : FloatLaws f) where
  in_range : (t : TileRequest) (b : Box f.F) → get_bounds f t ≡ ok b → IsTile t
  unfolding get_bounds get_bounds_projection
  in_range t b h = elim (ℤ-cases t.z) [
    | inr (z, ez) ↦ absurd (ground arith)
    | inl (z, ez) ↦ elim (ℤ-cases t.x) [
      | inr (x, ex) ↦ absurd (ground (arith, laws.exp2_int z, laws.lt_zero t.x))
      | inl (x, ex) ↦ elim (ℤ-cases t.y) [
        | inr (y, ey) ↦ absurd (ground (arith, laws.exp2_int z, laws.lt_zero t.y))
        | inl (y, ey) ↦ (
          z,
          x,
          y,
          ez,
          ex,
          ey,
          ground arith,
          ground (arith, laws.exp2_int z, laws.le_power t.x z),
          ground (arith, laws.exp2_int z, laws.le_power t.y z),
        )
      ]
    ]
  ]

  bounds_of_tile : (t : TileRequest) → IsTile t → (b : Box f.F) × (get_bounds f t ≡ ok b)
  unfolding get_bounds get_bounds_projection
  bounds_of_tile t (z, x, y, ez, ex, ey, hz, hx, hy) = (
    tile_box f (f.exp2 (f.of_int t.z)) (f.of_int t.x) (f.of_int t.y) srid_wgs84,
    ground (
      arith,
      laws.exp2_int z,
      laws.lt_zero t.x,
      laws.lt_zero t.y,
      laws.le_power t.x z,
      laws.le_power t.y z,
    ),
  )

  -- GetBounds succeeds for exactly the tiles that exist: a zoom level from 0 to 21 and coordinates
  -- from 0 to two to that power, that power excluded.
  pub get_bounds_iff : (t : TileRequest) → ((b : Box f.F) × (get_bounds f t ≡ ok b)) ↔ IsTile t
  get_bounds_iff t = ((λ h. in_range t h.0 h.1), bounds_of_tile t)

-- Converting a box twice to Web Mercator is converting it once, and every converted box says so.
convert_idem :
    (f : Floats) (b : Box f.F)
    → let c = convert_to_psuedo_mercator_range f b in
      (c.srid ≡ srid_psuedo_mercator) × (convert_to_psuedo_mercator_range f c ≡ c)
unfolding convert_to_psuedo_mercator_range
convert_idem f b = ground arith
