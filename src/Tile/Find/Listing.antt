-- ===== src/Tile/Find/Listing.antt =====
-- FindTiles once the ranges of the coordinates are known: what it lists, and what it refuses.
use tilegroxy.Base.{
  ℕ, suc, ◌+◌, ◌-◌, ◌*◌, ◌%◌, ◌^◌, ◌≤◌, ◌<◌, ◌≡◌, ◌⊎◌, inl, inr, refl, ap, subst, ◌∙◌, Bool, true,
  false, not, ◌&&◌, List, some, if◌then◌else◌, ltb, ◌==◌, length, get_elem?, Text, arith,
  Bool-cases,
}
use tilegroxy.Base.Int.{ℤ, pos, negsuc, pos_part}
use tilegroxy.Errors.{too_many_tiles}
use tilegroxy.Tile.Bounds.{TileRequest, ok, err}
use tilegroxy.Tile.Find.{
  blank_tiles, fill_columns, max_int32, num_tiles, sub_ℤ, at_least_one, after_ℤ, listed, list_tiles,
}
use tilegroxy.Tile.Find.Filling.{length-blank_tiles, fill_columns-fills, fill_columns-length}

-- How many coordinates there are from the first to the last.
abbrev pub span : ℕ → ℕ → ℕ
span a b = if a == b then 1 else b - a

-- The number of tiles that FindTiles agrees to list.
abbrev pub IsAllowed : ℕ → Bool → Type 0
IsAllowed n force = (n ≤ 10000) ⊎ ((force ≡ true) × (n ≤ max_int32))

abbrev pub limit : ℕ
limit = 2 ^ 21

range_length : (a b : ℕ) → a ≤ b → sub_ℤ (at_least_one (pos a) (pos b)) (pos a) ≡ pos (span a b)
range_length a b h = ground arith

mul_le : (w h m : ℕ) → w ≤ m → h ≤ m → w * h ≤ m * m
mul_le w h m p q = grind arith

span_le : (a b : ℕ) → b ≤ limit → span a b ≤ limit
span_le a b h = ground arith

count : (w h : ℕ) → w ≤ limit → h ≤ limit → num_tiles (pos w) (pos h) ≡ w * h
count w h p q =
    let m = mul_le w h limit p q in
    let a : w % 2 ^ 64 ≡ w = omega arith in
    let b : h % 2 ^ 64 ≡ h = omega arith in rw (a, b) (omega arith)

inverted : (a b : ℕ) → b < a → sub_ℤ (at_least_one (pos a) (pos b)) (pos a) ≡ negsuc (a - b - 1)
inverted a b h = ground arith

-- The product of two complements to 2^64.
complements :
    (p q u v : ℕ)
    → p + u ≡ 2 ^ 64
    → q + v ≡ 2 ^ 64
    → u ≤ q
    → u * v ≤ limit * limit
    → (p * q) % 2 ^ 64 ≡ u * v
complements p q u v e f h l =
    let s : p * q + u * q ≡ 2 ^ 64 * q = omega (arith, ap (λ x. x * q) e) in
    let t : u * q + u * v ≡ 2 ^ 64 * u = omega (arith, ap (λ x. u * x) f) in omega arith

count_inverted :
    (m n u v : ℕ)
    → u ≡ suc m
    → v ≡ suc n
    → u ≤ limit
    → v ≤ limit
    → num_tiles (negsuc m) (negsuc n) ≡ u * v
count_inverted m n u v e f p q =
    complements (2 ^ 64 - 1 - m % 2 ^ 64) (2 ^ 64 - 1 - n % 2 ^ 64) u v (omega arith) (omega arith)
      (omega arith) (mul_le u v limit p q)

unforced : (n : ℕ) (force : Bool) → IsAllowed n force → (ltb 10000 n && not force) ≡ false
unforced n force (inl h) = ground arith
unforced n true (inr h) = ground arith
unforced n false (inr h) = let k = h.0 in cc

in_range : (n : ℕ) (force : Bool) → IsAllowed n force → ltb max_int32 n ≡ false
in_range n force (inl h) = ground arith
in_range n force (inr h) = let k = h.1 in ground arith

refused :
    (n : ℕ) (force : Bool)
    → ¬ IsAllowed n force
    → ((ltb 10000 n && not force) ≡ true)
      ⊎ (((ltb 10000 n && not force) ≡ false) × (ltb max_int32 n ≡ true))
refused n true h = elim (Bool-cases (ltb max_int32 n)) [
  | inl k ↦ inr (ground arith, k)
  | inr k ↦ absurd (h (inr (refl, ground arith)))
]
refused n false h = elim (Bool-cases (ltb 10000 n)) [
  | inl k ↦ inl (ground arith)
  | inr k ↦ absurd (h (inl (ground arith)))
]

module _ (layer_name : Text) (z : ℤ) (force : Bool) (x_min y_min dx dy : ℤ) where
  filled : ℕ → List TileRequest
  filled n =
      fill_columns layer_name z x_min y_min (pos_part dx) (pos_part dx) 0 (pos_part dy)
        (blank_tiles n)

  listed_allowed :
      (n : ℕ)
      → num_tiles dx dy ≡ n
      → IsAllowed n force
      → listed layer_name z force x_min y_min dx dy ≡ ok (filled n)
  unfolding listed filled
  listed_allowed n e h =
      subst (λ m. IsAllowed m force → listed layer_name z force x_min y_min dx dy ≡ ok (filled m)) e
        (λ k.
          rw (unforced (num_tiles dx dy) force k, listed)
            (rw (in_range (num_tiles dx dy) force k) refl))
        h

  listed_refused :
      (n : ℕ)
      → num_tiles dx dy ≡ n
      → ¬ IsAllowed n force
      → listed layer_name z force x_min y_min dx dy ≡ err (too_many_tiles n)
  unfolding listed
  listed_refused n e h =
      subst
        (λ m.
          ¬ IsAllowed m force
          → listed layer_name z force x_min y_min dx dy ≡ err (too_many_tiles m))
        e
        (λ k. elim (refused (num_tiles dx dy) force k) [
          | inl t ↦ rw (t, listed) refl
          | inr t ↦ rw (t.0, listed) (rw t.1 refl)
        ])
        h

after_pos : (a n : ℕ) → after_ℤ (pos a) n ≡ pos (a + n)
after_pos a n = ground arith

-- The tiles of so many columns and rows from a first tile on, in rows.
pub record IsListing (layer_name : Text) (z : ℤ) (a c w h : ℕ) (ts : List TileRequest)
    : Type 0 where
  pub size : length ts ≡ w * h
  pub tile :
      (i j : ℕ)
      → i < w
      → j < h
      → get_elem? ts (j * w + i)
        ≡ some (record { layer_name = layer_name; z = z; x = pos (a + i); y = pos (c + j) })

filled-IsListing :
    (layer_name : Text) (z : ℤ) (force : Bool) (a c w h : ℕ)
    → IsListing layer_name z a c w h
        (filled layer_name z force (pos a) (pos c) (pos w) (pos h) (w * h))
unfolding filled
filled-IsListing layer_name z force a c w h = record {
  size =
      fill_columns-length layer_name z (pos a) (pos c) w h w 0 (blank_tiles (w * h))
      ∙ length-blank_tiles (w * h);
  tile = λ i j p q.
      fill_columns-fills layer_name z (pos a) (pos c) w h w 0 i j (blank_tiles (w * h))
        (omega arith) (length-blank_tiles (w * h) ∙ grind arith) (omega arith) (omega arith) q
      ∙ (λ k.
          some
            (record { layer_name = layer_name; z = z; x = after_pos a i k; y = after_pos c j k }));
}

module _ (layer_name : Text) (z : ℤ) (force : Bool) (a b c d : ℕ) where
  ranges :
      a ≤ b
      → c ≤ d
      → list_tiles layer_name z force (pos a) (pos b) (pos c) (pos d)
        ≡ listed layer_name z force (pos a) (pos c) (pos (span a b)) (pos (span c d))
  unfolding list_tiles
  ranges p r =
      λ i. listed layer_name z force (pos a) (pos c) (range_length a b p i) (range_length c d r i)

  -- For ranges of coordinates from a first to a last that is not less: if FindTiles agrees to list so
  -- many tiles, that is, ten thousand at most, or by force as many as an int32 holds, it lists them all,
  -- in rows, each at its place, with a range that would be empty counted as one tile; otherwise it
  -- returns an error with their number. The coordinates are those of the zoom levels in use.
  pub list_tiles-rows :
      a ≤ b
      → b ≤ limit
      → c ≤ d
      → d ≤ limit
      → (IsAllowed (span a b * span c d) force
          → (ts : List TileRequest) × (list_tiles layer_name z force (pos a) (pos b) (pos c) (pos d)
              ≡ ok ts)
            × IsListing layer_name z a c (span a b) (span c d) ts)
        × (¬ IsAllowed (span a b * span c d) force
            → list_tiles layer_name z force (pos a) (pos b) (pos c) (pos d)
              ≡ err (too_many_tiles (span a b * span c d)))
  list_tiles-rows p q r s =
      let n = count (span a b) (span c d) (span_le a b q) (span_le c d s) in
      let dx = pos (span a b) in
      let dy = pos (span c d) in
      (
        (λ k. (
          filled layer_name z force (pos a) (pos c) dx dy (span a b * span c d),
          ranges p r ∙ listed_allowed layer_name z force (pos a) (pos c) dx dy _ n k,
          filled-IsListing layer_name z force a c (span a b) (span c d),
        )),
        (λ k. ranges p r ∙ listed_refused layer_name z force (pos a) (pos c) dx dy _ n k),
      )

  inverted_ranges :
      b < a
      → d < c
      → list_tiles layer_name z force (pos a) (pos b) (pos c) (pos d)
        ≡ listed layer_name z force (pos a) (pos c) (negsuc (a - b - 1)) (negsuc (c - d - 1))
  unfolding list_tiles
  inverted_ranges p r =
      λ i. listed layer_name z force (pos a) (pos c) (inverted a b p i) (inverted c d r i)

  -- When both ranges are inverted, the product of the two negative lengths is taken for the number of
  -- tiles: if FindTiles agrees to list so many, that is, ten thousand at most, or by force as many as
  -- an int32 holds, it returns that many blank requests, of no layer and at zoom 0, and no error;
  -- otherwise an error with that number. The coordinates are those of the zoom levels in use.
  pub list_tiles_inverted :
      b < a
      → a ≤ limit
      → d < c
      → c ≤ limit
      → (IsAllowed ((a - b) * (c - d)) force
          → list_tiles layer_name z force (pos a) (pos b) (pos c) (pos d)
            ≡ ok (blank_tiles ((a - b) * (c - d))))
        × (¬ IsAllowed ((a - b) * (c - d)) force
            → list_tiles layer_name z force (pos a) (pos b) (pos c) (pos d)
              ≡ err (too_many_tiles ((a - b) * (c - d))))
  unfolding filled fill_columns
  list_tiles_inverted p q r s =
      let dx = negsuc (a - b - 1) in
      let dy = negsuc (c - d - 1) in
      let n =
        count_inverted (a - b - 1) (c - d - 1) (a - b) (c - d) (omega arith) (omega arith)
          (omega arith) (omega arith) in
      (
        (λ k. inverted_ranges p r ∙ listed_allowed layer_name z force (pos a) (pos c) dx dy _ n k),
        (λ k. inverted_ranges p r ∙ listed_refused layer_name z force (pos a) (pos c) dx dy _ n k),
      )
