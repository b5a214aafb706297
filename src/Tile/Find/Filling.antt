-- ===== src/Tile/Find/Filling.antt =====
-- The tiles that FindTiles lists, in rows from the least coordinates on.
use tilegroxy.Base.{
  ℕ, zero, suc, ◌+◌, ◌*◌, ◌≤◌, ◌<◌, ◌≡◌, ◌≢◌, ◌⊎◌, inl, inr, refl, ap, subst, ◌∙◌, List, [], ◌∷◌,
  some, ltb, ◌==◌, length, get_elem?, set, Text, arith, Bool-cases,
}
use tilegroxy.Base.Int.{ℤ}
use tilegroxy.Tile.Bounds.{TileRequest}
use tilegroxy.Tile.Find.{blank_tiles, tile_at, fill_rows, fill_columns}

module _ {A : Type 0} where
  length-set : (ts : List A) (i : ℕ) (a : A) → length (set ts i a) ≡ length ts
  length-set [] i a = refl
  length-set (t ∷ ts) zero a = refl
  length-set (t ∷ ts) (suc i) a = ap suc (length-set ts i a)

  get_elem?-set_same :
      (ts : List A) (i : ℕ) (a : A) → i < length ts → get_elem? (set ts i a) i ≡ some a
  get_elem?-set_same [] i a h = absurd (omega arith)
  get_elem?-set_same (t ∷ ts) zero a h = refl
  get_elem?-set_same (t ∷ ts) (suc i) a h = get_elem?-set_same ts i a (omega arith)

  get_elem?-set_other :
      (ts : List A) (i k : ℕ) (a : A) → i ≢ k → get_elem? (set ts i a) k ≡ get_elem? ts k
  get_elem?-set_other [] i k a h = refl
  get_elem?-set_other (t ∷ ts) zero zero a h = absurd (h refl)
  get_elem?-set_other (t ∷ ts) zero (suc k) a h = refl
  get_elem?-set_other (t ∷ ts) (suc i) zero a h = refl
  get_elem?-set_other (t ∷ ts) (suc i) (suc k) a h =
      get_elem?-set_other ts i k a (λ e. h (ap suc e))

pub length-blank_tiles : (n : ℕ) → length (blank_tiles n) ≡ n
unfolding blank_tiles
length-blank_tiles zero = refl
length-blank_tiles (suc n) = ap suc (length-blank_tiles n)

-- The place of a tile says its row and its column.
row_lt : (i i' j j' w : ℕ) → i < w → j < j' → j * w + i < j' * w + i'
row_lt i i' j j' w h l = grind arith

index_lt : (i j w h : ℕ) → i < w → j < h → j * w + i < h * w
index_lt i j w h p q = grind arith

index_cases : (w i i' j j' : ℕ) → i < w → i' < w → ((i ≡ i') × (j ≡ j')) ⊎ (j * w + i ≢ j' * w + i')
index_cases w i i' j j' h k = elim (Bool-cases (ltb j j')) [
  | inl l ↦ inr (λ e. let q = row_lt i i' j j' w h (ground arith) in omega arith)
  | inr l ↦ elim (Bool-cases (ltb j' j)) [
    | inl m ↦ inr (λ e. let q = row_lt i' i j' j w k (ground arith) in omega arith)
    | inr m ↦
        (let same : j ≡ j' = ground arith in
          elim (Bool-cases (i == i')) [
            | inl n ↦ inl (ground arith, same)
            | inr n ↦ inr (λ e.
                let r : j * w ≡ j' * w = ap (λ x. x * w) same in
                let q : i ≡ i' = omega arith in ground arith)
          ])
  ]
]

module _ (layer_name : Text) (z x_min y_min : ℤ) (w : ℕ) where
  abbrev Has : ℕ → ℕ → List TileRequest → Type 0
  Has i j ts = get_elem? ts (j * w + i) ≡ some (tile_at layer_name z x_min y_min w i j)

  fill_rows-length :
      (k j i : ℕ) (ts : List TileRequest)
      → length (fill_rows layer_name z x_min y_min w k j i ts) ≡ length ts
  unfolding fill_rows
  fill_rows-length zero j i ts = refl
  fill_rows-length (suc k) j i ts = fill_rows-length k (suc j) i _ ∙ length-set ts (j * w + i) _

  -- A write of a tile at its place keeps the tiles that are in their places.
  set-Has :
      (i j i' j' : ℕ) (ts : List TileRequest)
      → i < w
      → i' < w
      → j * w + i < length ts
      → Has i' j' ts
      → Has i' j' (set ts (j * w + i) (tile_at layer_name z x_min y_min w i j))
  set-Has i j i' j' ts h k l p = elim (index_cases w i i' j j' h k) [
    | inl e ↦
        subst (λ x. Has x j' (set ts (j * w + i) (tile_at layer_name z x_min y_min w i j))) e.0
          (subst (λ y. Has i y (set ts (j * w + i) (tile_at layer_name z x_min y_min w i j))) e.1
            (get_elem?-set_same ts (j * w + i) (tile_at layer_name z x_min y_min w i j) l))
    | inr n ↦ get_elem?-set_other ts (j * w + i) (j' * w + i') _ n ∙ p
  ]

  module _ (h : ℕ) where
    fill_rows-keeps :
        (k j i i' j' : ℕ) (ts : List TileRequest)
        → i < w
        → i' < w
        → j + k ≤ h
        → length ts ≡ h * w
        → Has i' j' ts
        → Has i' j' (fill_rows layer_name z x_min y_min w k j i ts)
    unfolding fill_rows
    fill_rows-keeps zero j i i' j' ts p q r l s = s
    fill_rows-keeps (suc k) j i i' j' ts p q r l s =
        let b : j * w + i < length ts = omega (arith, index_lt i j w h p (omega arith)) in
        fill_rows-keeps k (suc j) i i' j' _ p q (omega arith) (length-set ts (j * w + i) _ ∙ l)
          (set-Has i j i' j' ts p q b s)

    -- The inner loop puts the tiles of its column.
    fill_rows-fills :
        (k j i j' : ℕ) (ts : List TileRequest)
        → i < w
        → j + k ≤ h
        → length ts ≡ h * w
        → j ≤ j'
        → j' < j + k
        → Has i j' (fill_rows layer_name z x_min y_min w k j i ts)
    unfolding fill_rows
    fill_rows-fills zero j i j' ts p r l a b = absurd (omega arith)
    fill_rows-fills (suc k) j i j' ts p r l a b =
        let v = tile_at layer_name z x_min y_min w i j in
        let m : length (set ts (j * w + i) v) ≡ h * w = length-set ts (j * w + i) v ∙ l in
        let c : j * w + i < length ts = omega (arith, index_lt i j w h p (omega arith)) in
        elim (Bool-cases (j == j')) [
          | inl e ↦
              (let same : j ≡ j' = ground arith in
                subst (λ x. Has i x (fill_rows layer_name z x_min y_min w (suc k) j i ts)) same
                  (fill_rows-keeps k (suc j) i i j (set ts (j * w + i) v) p p (omega arith) m
                    (get_elem?-set_same ts (j * w + i) v c)))
          | inr e ↦
              fill_rows-fills k (suc j) i j' (set ts (j * w + i) v) p (omega arith) m (ground arith)
                (omega arith)
        ]

    fill_columns-keeps :
        (m i i' j' : ℕ) (ts : List TileRequest)
        → i + m ≤ w
        → i' < w
        → length ts ≡ h * w
        → Has i' j' ts
        → Has i' j' (fill_columns layer_name z x_min y_min w m i h ts)
    unfolding fill_columns
    fill_columns-keeps zero i i' j' ts a q l s = s
    fill_columns-keeps (suc m) i i' j' ts a q l s =
        fill_columns-keeps m (suc i) i' j' _ (omega arith) q (fill_rows-length h 0 i ts ∙ l)
          (fill_rows-keeps h 0 i i' j' ts (omega arith) q (omega arith) l s)

    pub fill_columns-fills :
        (m i i' j' : ℕ) (ts : List TileRequest)
        → i + m ≤ w
        → length ts ≡ h * w
        → i ≤ i'
        → i' < i + m
        → j' < h
        → Has i' j' (fill_columns layer_name z x_min y_min w m i h ts)
    unfolding fill_columns
    fill_columns-fills zero i i' j' ts a l b c d = absurd (omega arith)
    fill_columns-fills (suc m) i i' j' ts a l b c d =
        let l' = fill_rows-length h 0 i ts ∙ l in
        elim (Bool-cases (i == i')) [
          | inl e ↦
              (let same : i ≡ i' = ground arith in
                subst (λ x. Has x j' (fill_columns layer_name z x_min y_min w (suc m) i h ts)) same
                  (fill_columns-keeps m (suc i) i j' _ (omega arith) (omega arith) l' (
                    fill_rows-fills h 0 i j' ts (omega arith) (omega arith) l (omega arith)
                      (omega arith))))
          | inr e ↦
              fill_columns-fills m (suc i) i' j' _ (omega arith) l' (ground arith) (omega arith) d
        ]

    pub fill_columns-length :
        (m i : ℕ) (ts : List TileRequest)
        → length (fill_columns layer_name z x_min y_min w m i h ts) ≡ length ts
    unfolding fill_columns
    fill_columns-length zero i ts = refl
    fill_columns-length (suc m) i ts = fill_columns-length m (suc i) _ ∙ fill_rows-length h 0 i ts
