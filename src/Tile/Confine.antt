-- ===== src/Tile/Confine.antt =====
-- pkg/tile_request.go: ConfineToPsuedoMercatorRange, on numbers of which none is NaN.
use tilegroxy.Base.{
  true, false, ◌≡◌, ◌≢◌, refl, sym, ◌∙◌, ◌==◌, arith, ap, Bool-cases, inl, inr, ◌⊎◌, subst,
}
use tilegroxy.Tile.Floats.{Floats}
use tilegroxy.Tile.Bounds.{
  Box, srid_psuedo_mercator, max_lat, min_lat, max_long, min_long, min_3857_coord_in_meters,
  max_3857_coord_in_meters, clamp, confine_to_psuedo_mercator_range,
}

-- What math.Min and math.Max do for numbers that are not NaN, and the order of the constants.
pub record ClampLaws (f : Floats) : Type 0 where
  pub min_le : (a b : f.F) → f.le (f.min a b) b ≡ true
  pub le_max : (a b : f.F) → f.le b (f.max a b) ≡ true
  pub max_le : (a b c : f.F) → f.le a c ≡ true → f.le b c ≡ true → f.le (f.max a b) c ≡ true
  pub min_left : (a b : f.F) → f.le a b ≡ true → f.min a b ≡ a
  pub max_left : (a b : f.F) → f.le b a ≡ true → f.max a b ≡ a
  pub lat : f.le (min_lat f) (max_lat f) ≡ true
  pub long : f.le (min_long f) (max_long f) ≡ true
  pub coord : f.le (min_3857_coord_in_meters f) (max_3857_coord_in_meters f) ≡ true

module _ (f : Floats) (laws : ClampLaws f) where
  -- The number is between the two.
  unfoldable pub IsBetween : f.F → f.F → f.F → Type 0
  IsBetween low high a = f.le low a ≡ true × f.le a high ≡ true

  -- The box lies between two bounds for each of its axes.
  unfoldable pub IsWithin : f.F → f.F → f.F → f.F → Box f.F → Type 0
  IsWithin low_y high_y low_x high_x b =
      (IsBetween low_y high_y b.south × IsBetween low_y high_y b.north)
      × (IsBetween low_x high_x b.west × IsBetween low_x high_x b.east)

  -- The box lies in the part of the world that its reference system shows: a square in metres, or
  -- the degrees of the square.
  unfoldable pub IsConfined : Box f.F → Type 0
  IsConfined b =
      (b.srid ≡ srid_psuedo_mercator
        × IsWithin (min_3857_coord_in_meters f) (max_3857_coord_in_meters f)
            (min_3857_coord_in_meters f) (max_3857_coord_in_meters f) b)
      ⊎ (b.srid ≢ srid_psuedo_mercator
          × IsWithin (min_lat f) (max_lat f) (min_long f) (max_long f) b)

  clamp_box : f.F → f.F → f.F → f.F → Box f.F → Box f.F
  clamp_box low_y high_y low_x high_x b = record {
    south = clamp f low_y high_y b.south;
    north = clamp f low_y high_y b.north;
    west = clamp f low_x high_x b.west;
    east = clamp f low_x high_x b.east;
    srid = b.srid;
  }

  in_meters :
      (b : Box f.F)
      → b.srid ≡ srid_psuedo_mercator
      → confine_to_psuedo_mercator_range f b
        ≡ clamp_box
            (min_3857_coord_in_meters f)
            (max_3857_coord_in_meters f)
            (min_3857_coord_in_meters f)
            (max_3857_coord_in_meters f)
            b
  unfolding confine_to_psuedo_mercator_range clamp_box
  in_meters b h = let e : (b.srid == srid_psuedo_mercator) ≡ true = ground arith in rw e refl

  in_degrees :
      (b : Box f.F)
      → b.srid ≢ srid_psuedo_mercator
      → confine_to_psuedo_mercator_range f b
        ≡ clamp_box (min_lat f) (max_lat f) (min_long f) (max_long f) b
  unfolding confine_to_psuedo_mercator_range clamp_box
  in_degrees b h = let e : (b.srid == srid_psuedo_mercator) ≡ false = ground arith in rw e refl

  clamp-IsBetween :
      (low high a : f.F) → f.le low high ≡ true → IsBetween low high (clamp f low high a)
  unfolding clamp IsBetween
  clamp-IsBetween low high a h =
      (laws.le_max (f.min a high) low, laws.max_le (f.min a high) low high (laws.min_le a high) h)

  clamp_between : (low high a : f.F) → IsBetween low high a → clamp f low high a ≡ a
  unfolding clamp IsBetween
  clamp_between low high a (l, h) =
      ap (λ x. f.max x low) (laws.min_left a high h) ∙ laws.max_left a low l

  clamp_box-IsWithin :
      (ly hy lx hx : f.F) (b : Box f.F)
      → f.le ly hy ≡ true
      → f.le lx hx ≡ true
      → IsWithin ly hy lx hx (clamp_box ly hy lx hx b)
  unfolding IsWithin clamp_box
  clamp_box-IsWithin ly hy lx hx b h i = (
    (clamp-IsBetween ly hy b.south h, clamp-IsBetween ly hy b.north h),
    (clamp-IsBetween lx hx b.west i, clamp-IsBetween lx hx b.east i),
  )

  clamp_box_within :
      (ly hy lx hx : f.F) (b : Box f.F) → IsWithin ly hy lx hx b → clamp_box ly hy lx hx b ≡ b
  unfolding IsWithin clamp_box
  clamp_box_within ly hy lx hx b ((s, n), (w, e)) =
      let p = clamp_between ly hy b.south s in
      let q = clamp_between ly hy b.north n in
      let r = clamp_between lx hx b.west w in let t = clamp_between lx hx b.east e in cc

  -- A box that has been confined lies in the range of its reference system.
  confine-IsConfined : (b : Box f.F) → IsConfined (confine_to_psuedo_mercator_range f b)
  unfolding IsConfined clamp_box
  confine-IsConfined b = elim (Bool-cases (b.srid == srid_psuedo_mercator)) [
    | inl e ↦
        let h : b.srid ≡ srid_psuedo_mercator = ground arith in
        subst IsConfined (sym (in_meters b h))
          (inl (h, clamp_box-IsWithin _ _ _ _ b laws.coord laws.coord))
    | inr e ↦
        let h : b.srid ≢ srid_psuedo_mercator = ground arith in
        subst IsConfined (sym (in_degrees b h))
          (inr (h, clamp_box-IsWithin _ _ _ _ b laws.lat laws.long))
  ]

  -- A box within the range of its reference system is left as it is.
  confine_confined : (b : Box f.F) → IsConfined b → confine_to_psuedo_mercator_range f b ≡ b
  unfolding IsConfined
  confine_confined b (inl (h, w)) = in_meters b h ∙ clamp_box_within _ _ _ _ b w
  confine_confined b (inr (h, w)) = in_degrees b h ∙ clamp_box_within _ _ _ _ b w
