-- ===== src/Layer/Group.antt =====
-- pkg/entities/layer/layergroup.go: LayerGroup, its lookup of layers, its check of permissions, and
-- its rendering through the cache. All layers share the group's cache, a pair of functions on the
-- world W that the providers also change. A background write of the cache is a pair in `pending`,
-- one for each token in cacheWriteLimiter, until finish_write runs it; its panics are not modelled.
pub mod Permission
pub mod Rendering
pub mod Runs
pub mod Tests
use tilegroxy.Base.{
  ℕ, zero, suc, Bool, true, false, not, ◌&&◌, List, [], ◌∷◌, ◌++◌, Option, none, some, ltb, length,
  set, if◌then◌else◌, Text, codes, text_eq, contains,
}
use tilegroxy.Errors.{Error, unauthorized, plain}
use tilegroxy.Request.{Context}
use tilegroxy.Tile.Floats.{Floats}
use tilegroxy.Tile.Bounds.{
  TileRequest, Box, Result, ok, err, get_bounds, is_null_island, intersects, contains_box,
}
use tilegroxy.Layer.Provide.{Image, Layer, Rendered, matches_name, render_tile_no_cache}

pub record Cache (W : Type 0) : Type 0 where
  pub lookup_tile : TileRequest → W → Option Image × Option Error × W
  pub save : TileRequest → Image → W → Option Error × W

pub record LayerGroup (W P : Type 0) : Type 0 where
  pub layers : List (Layer W P)
  pub cache_hit : ℕ
  pub cache_miss : ℕ
  pub pending : List (TileRequest × Image)

abbrev pub max_concurrent_cache_writes : ℕ
max_concurrent_cache_writes = 64

abbrev pub Answer : Type 0 → Type 0 → Type 0
Answer W P = Option Image × Option Error × LayerGroup W P × W

pub is_set : Option Bool → Bool
is_set none = false
is_set (some b) = b

unfoldable pub texts : Option (List Text) → List Text
texts none = []
texts (some ts) = ts

pub does_not_exist : Text → Error
does_not_exist name = unauthorized (codes "Layer " ++ (name ++ codes " does not exist"))

pub denied_layer : Error
denied_layer = unauthorized (codes "Denying access to non-allowed layer")

pub denied_area : Error
denied_area = unauthorized (codes "Denying access to non-allowed area")

pub error_nil_image : Error
error_nil_image = plain (codes "provider returned no image and no error")

module _ (f : Floats) where
  -- Whether the area admits the tile.
  pub admits : Bool → Box f.F → Result (Box f.F) → Bool
  admits partial area (err e) = false
  admits partial area (ok b) = if partial then intersects f area b else contains_box f area b

  pub check_area : Option (Box f.F) → Bool → TileRequest → Option Error
  unfolding admits
  check_area none partial t = none
  check_area (some area) partial t =
      if is_null_island f area
      then none
      else if admits partial area (get_bounds f t)
      then none
      else some denied_area

  unfoldable pub check_permission : Context f.F → Text → TileRequest → Option Error
  unfolding check_area is_set texts
  check_permission c id t =
      if is_set c.limit_layers && not (contains (texts c.allowed_layers) id)
      then some denied_layer
      else check_area c.allowed_area (is_set c.limit_area_partial) t

module _ {W P : Type 0} where
  -- The first layer that has the name, with its place.
  unfoldable pub find_layer : List (Layer W P) → Text → Option (ℕ × Layer W P)
  find_layer [] name = none
  find_layer (l ∷ ls) name =
      let rest = find_layer ls name in
      elim (matches_name l name) [
        | some found ↦ some (0, l)
        | none ↦ elim rest [ none ↦ none | some p ↦ some (suc p.0, p.1) ]
      ]

  pub put_layer : ℕ → LayerGroup W P → Rendered W P → Answer W P
  put_layer i lg (img, e, l, w) = (img, e, record lg { layers = set lg.layers i l }, w)

  -- The send to the channel in a select with a default.
  pub start_write : TileRequest → Image → LayerGroup W P → LayerGroup W P
  start_write t img lg =
      if not img.force_skip_cache && ltb (length lg.pending) max_concurrent_cache_writes
      then record lg { pending = lg.pending ++ ((t, img) ∷ []) }
      else lg

  pub after_miss : TileRequest → Answer W P → Answer W P
  unfolding start_write error_nil_image
  after_miss t (img, some e, lg, w) = (none, some e, lg, w)
  after_miss t (none, none, lg, w) = (none, some error_nil_image, lg, w)
  after_miss t (some img, none, lg, w) = (some img, none, start_write t img lg, w)

  module _ (f : Floats) (c : Context f.F) (start later : ℕ) where
    unfoldable pub render_group_no_cache : LayerGroup W P → TileRequest → W → Answer W P
    unfolding put_layer
    render_group_no_cache lg t w = elim (find_layer lg.layers t.layer_name) [
      | none ↦ (none, some (does_not_exist t.layer_name), lg, w)
      | some p ↦ elim (check_permission f c p.1.id t) [
        | some e ↦ (none, some e, lg, w)
        | none ↦ put_layer p.0 lg (render_tile_no_cache start later p.1 t w)
      ]
    ]

    -- What follows the lookup in the cache.
    pub after_lookup : LayerGroup W P → TileRequest → Option Image → Option Error → W → Answer W P
    unfolding after_miss
    after_lookup lg t (some img) e w = (some img, e, record lg { cache_hit = suc lg.cache_hit }, w)
    after_lookup lg t none e w =
        after_miss t (render_group_no_cache (record lg { cache_miss = suc lg.cache_miss }) t w)

    unfoldable pub render_tile : Cache W → LayerGroup W P → TileRequest → W → Answer W P
    unfolding after_lookup
    render_tile cache lg t w = elim (find_layer lg.layers t.layer_name) [
      | none ↦ (none, some (does_not_exist t.layer_name), lg, w)
      | some p ↦
          if p.1.skip_cache
          then render_group_no_cache lg t w
          else elim (check_permission f c p.1.id t) [
            | some e ↦ (none, some e, lg, w)
            | none ↦ (let (img, e, w') = cache.lookup_tile t w in after_lookup lg t img e w')
          ]
    ]

  -- The oldest background write runs and gives its token back.
  unfoldable pub finish_write : Cache W → LayerGroup W P → W → LayerGroup W P × W
  finish_write cache lg w = elim lg.pending [
    | [] ↦ (lg, w)
    | (t, img) ∷ rest ↦ (record lg { pending = rest }, (cache.save t img w).1)
  ]
