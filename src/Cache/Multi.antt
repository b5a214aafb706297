-- ===== src/Cache/Multi.antt =====
-- internal/caches/multi.go: Lookup and Save of Multi, over the tiers' own functions. A tier is a
-- `Cache` of Layer.Group, a pair of functions on the world W that holds all tiers.
use tilegroxy.Base.{List, [], ◌∷◌, Option, none, some, ◌≡◌, refl, ◌∙◌, All}
use tilegroxy.Errors.{Error, join}
use tilegroxy.Tile.Bounds.{TileRequest}
use tilegroxy.Layer.Provide.{Image}
use tilegroxy.Layer.Group.{Cache}

module _ {W : Type 0} where
  -- The loop of Lookup, with the errors so far; a nil error joins as no error.
  lookup_from : Option Error → List (Cache W) → TileRequest → W → Option Image × Option Error × W
  lookup_from errs [] t w = (none, errs, w)
  lookup_from errs (c ∷ cs) t w =
      let (img, e, w') = c.lookup_tile t w in
      let rest = lookup_from (join errs e) cs t w' in
      elim img [ some i ↦ (some i, join errs e, w') | none ↦ rest ]

  pub multi_lookup : List (Cache W) → TileRequest → W → Option Image × Option Error × W
  unfolding lookup_from
  multi_lookup tiers t w = lookup_from none tiers t w

  save_from : Option Error → List (Cache W) → TileRequest → Image → W → Option Error × W
  save_from errs [] t img w = (errs, w)
  save_from errs (c ∷ cs) t img w =
      let (e, w') = c.save t img w in save_from (join errs e) cs t img w'

  pub multi_save : List (Cache W) → TileRequest → Image → W → Option Error × W
  unfolding save_from
  multi_save tiers t img w = save_from none tiers t img w

  -- Multi is a cache itself.
  pub multi : List (Cache W) → Cache W
  multi tiers = record { lookup_tile = multi_lookup tiers; save = multi_save tiers }

  -- A tier whose Lookup finds what it holds, and whose Save makes it hold the image.
  pub record Keeps (held : W → TileRequest → Option Image) (c : Cache W) : Type 0 where
    pub finds : (t : TileRequest) (w : W) → (c.lookup_tile t w).0 ≡ held w t
    pub saves : (t : TileRequest) (i : Image) (w : W) → held (c.save t i w).1 t ≡ some i

  -- A Save of the tier leaves what `held` says of the tile.
  pub record Leaves (held : W → TileRequest → Option Image) (t : TileRequest) (c : Cache W)
      : Type 0 where
    pub writes : (i : Image) (w : W) → held (c.save t i w).1 t ≡ held w t

  module _ (held : W → TileRequest → Option Image) (t : TileRequest) where
    save_from-Leaves :
        (errs : Option Error) (cs : List (Cache W)) (i : Image) (w : W)
        → All (Leaves held t) cs
        → held (save_from errs cs t i w).1 t ≡ held w t
    unfolding save_from
    save_from-Leaves errs [] i w h = refl
    save_from-Leaves errs (c ∷ cs) i w h =
        save_from-Leaves (join errs (c.save t i w).0) cs i (c.save t i w).1 h.1 ∙ h.0.writes i w

    multi_lookup-first :
        (c : Cache W) (cs : List (Cache W)) (w : W) (i : Image)
        → (c.lookup_tile t w).0 ≡ some i
        → (multi_lookup (c ∷ cs) t w).0 ≡ some i
    unfolding multi_lookup lookup_from
    multi_lookup-first c cs w i h = rw (h, multi_lookup, lookup_from) refl

    -- What a Save has written, the first tier gives back at once, if the first tier keeps what is
    -- saved and the other tiers leave it alone.
    pub multi_lookup-save :
        (c : Cache W) (cs : List (Cache W)) (i : Image) (w : W)
        → Keeps held c
        → All (Leaves held t) cs
        → (multi_lookup (c ∷ cs) t (multi_save (c ∷ cs) t i w).1).0 ≡ some i
    unfolding multi_save save_from
    multi_lookup-save c cs i w k h =
        let w' = (save_from (join none (c.save t i w).0) cs t i (c.save t i w).1).1 in
        multi_lookup-first c cs w' i (k.finds t w' ∙ save_from-Leaves _ cs i _ h ∙ k.saves t i w)
