-- ===== src/Layer/Group/Rendering.antt =====
-- pkg/entities/layer/layergroup.go: RenderTile with its cache and its limit of background writes.
use tilegroxy.Base.{
  ℕ, suc, ◌<◌, ◌≤◌, false, not, ◌&&◌, [], ◌∷◌, Option, none, some, ◌≡◌, ◌≢◌, refl, inl, inr,
  Bool-cases, Option-cases, arith, subst, sym, ◌∙◌, some-injective, ltb, length, length-append,
}
use tilegroxy.Errors.{Error}
use tilegroxy.Tile.Floats.{Floats}
use tilegroxy.Request.{Context}
use tilegroxy.Tile.Bounds.{TileRequest}
use tilegroxy.Layer.Provide.{Image, Layer}
use tilegroxy.Layer.Group.{
  Cache, LayerGroup, Answer, max_concurrent_cache_writes, check_permission, find_layer, put_layer,
  start_write, after_miss, render_group_no_cache, after_lookup, render_tile, finish_write,
}

module _ {W P : Type 0} where
  start_write-pending :
      (t : TileRequest) (img : Image) (lg : LayerGroup W P)
      → length lg.pending ≤ 64
      → length (start_write t img lg).pending ≤ 64
  unfolding start_write
  start_write-pending t img lg h =
      elim (Bool-cases (not img.force_skip_cache && ltb (length lg.pending) 64)) [
        | inl e ↦
            let i : length lg.pending < 64 = ground arith in
            rw (e, length-append lg.pending ((t, img) ∷ [])) omega arith
        | inr e ↦ rw e h
      ]

  after_miss-pending :
      (t : TileRequest) (r : Answer W P)
      → length r.2.pending ≤ 64
      → length (after_miss t r).2.pending ≤ 64
  unfolding after_miss
  after_miss-pending t (img, some e, lg, w) h = h
  after_miss-pending t (none, none, lg, w) h = h
  after_miss-pending t (some img, none, lg, w) h = start_write-pending t img lg h

  after_miss_image :
      (t : TileRequest) (r : Answer W P) → (after_miss t r).0 ≡ none → (after_miss t r).1 ≢ none
  unfolding after_miss
  after_miss_image t (img, some e, lg, w) h k = ground arith
  after_miss_image t (none, none, lg, w) h k = ground arith
  after_miss_image t (some img, none, lg, w) h k = ground arith

  started :
      (t : TileRequest) (img : Image) (lg : LayerGroup W P)
      → img.force_skip_cache ≡ false
      → lg.pending ≡ []
      → (start_write t img lg).pending ≡ (t, img) ∷ []
  unfolding start_write
  started t img lg h e = rw (h, e, start_write) refl

  after_miss-starts :
      (t : TileRequest) (r : Answer W P) (img : Image)
      → img.force_skip_cache ≡ false
      → r.2.pending ≡ []
      → (after_miss t r).0 ≡ some img
      → (after_miss t r).2.pending ≡ (t, img) ∷ []
  unfolding after_miss
  after_miss-starts t (i, some e, lg, w) img s h k = ground arith
  after_miss-starts t (none, none, lg, w) img s h k = ground arith
  after_miss-starts t (some i, none, lg, w) img s h k =
      let q : i ≡ img = some-injective _ _ k in
      subst (λ j. (start_write t i lg).pending ≡ (t, j) ∷ []) q
        (started t i lg (subst (λ (j : Image). j.force_skip_cache ≡ false) (sym q) s) h)

  module _ (f : Floats) (c : Context f.F) (start later : ℕ) where
    pub render_group_no_cache-pending :
        (lg : LayerGroup W P) (t : TileRequest) (w : W)
        → (render_group_no_cache f c start later lg t w).2.pending ≡ lg.pending
    unfolding render_group_no_cache put_layer
    render_group_no_cache-pending lg t w = elim (Option-cases (find_layer lg.layers t.layer_name)) [
      | inl e ↦ rw (e, render_group_no_cache) refl
      | inr (p, e) ↦ elim (Option-cases (check_permission f c p.1.id t)) [
        | inl k ↦ rw (e, k, render_group_no_cache) refl
        | inr (x, k) ↦ rw (e, k, render_group_no_cache) refl
      ]
    ]

    after_lookup-pending :
        (lg : LayerGroup W P) (t : TileRequest) (i : Option Image) (e : Option Error) (w : W)
        → length lg.pending ≤ 64
        → length (after_lookup f c start later lg t i e w).2.pending ≤ 64
    unfolding after_lookup
    after_lookup-pending lg t (some img) e w h = h
    after_lookup-pending lg t none e w h =
        let lg' = record lg { cache_miss = suc lg.cache_miss } in
        after_miss-pending t (render_group_no_cache f c start later lg' t w)
          (rw (render_group_no_cache-pending lg' t w) h)

    -- A render keeps the number of writes of the cache that are under way at 64 at most.
    pub render_tile-pending :
        (cache : Cache W) (lg : LayerGroup W P) (t : TileRequest) (w : W)
        → length lg.pending ≤ max_concurrent_cache_writes
        → length (render_tile f c start later cache lg t w).2.pending ≤ max_concurrent_cache_writes
    unfolding render_tile
    render_tile-pending cache lg t w h = elim (Option-cases (find_layer lg.layers t.layer_name)) [
      | inl e ↦ rw (e, render_tile) h
      | inr (p, e) ↦ elim (Bool-cases p.1.skip_cache) [
        | inl s ↦ rw (e, s, render_tile) (rw (render_group_no_cache-pending lg t w) h)
        | inr s ↦ elim (Option-cases (check_permission f c p.1.id t)) [
          | inl k ↦ rw (e, s, k, render_tile) (after_lookup-pending lg t _ _ _ h)
          | inr (x, k) ↦ rw (e, s, k, render_tile) h
        ]
      ]
    ]

    no_cache-denied :
        (lg : LayerGroup W P) (t : TileRequest) (w : W) (p : ℕ × Layer W P) (x : Error)
        → find_layer lg.layers t.layer_name ≡ some p
        → check_permission f c p.1.id t ≡ some x
        → render_group_no_cache f c start later lg t w ≡ (none, some x, lg, w)
    unfolding render_group_no_cache
    no_cache-denied lg t w p x e k = rw (e, k, render_group_no_cache) refl

    -- A request for a layer that the context may not see, or for a tile that it may not see, gets
    -- the error of the check; the group, its counters, the cache and the providers are untouched,
    -- whether or not the layer skips the cache.
    pub render_tile-denied :
        (cache : Cache W) (lg : LayerGroup W P) (t : TileRequest) (w : W) (p : ℕ × Layer W P)
        (x : Error)
        → find_layer lg.layers t.layer_name ≡ some p
        → check_permission f c p.1.id t ≡ some x
        → render_tile f c start later cache lg t w ≡ (none, some x, lg, w)
    unfolding render_tile
    render_tile-denied cache lg t w p x e k = elim (Bool-cases p.1.skip_cache) [
      | inl s ↦ rw (e, s, render_tile) (no_cache-denied lg t w p x e k)
      | inr s ↦ rw (e, s, k, render_tile) refl
    ]

    after_lookup_image :
        (lg : LayerGroup W P) (t : TileRequest) (i : Option Image) (x : Option Error) (w : W)
        → (after_lookup f c start later lg t i x w).0 ≡ none
        → (after_lookup f c start later lg t i x w).1 ≢ none
    unfolding after_lookup
    after_lookup_image lg t (some img) x w h = ground arith
    after_lookup_image lg t none x w h = after_miss_image t _ h

    after_lookup-starts :
        (lg : LayerGroup W P) (t : TileRequest) (i : Option Image) (x : Option Error) (w : W)
        (img : Image)
        → img.force_skip_cache ≡ false
        → lg.pending ≡ []
        → i ≡ none
        → (after_lookup f c start later lg t i x w).0 ≡ some img
        → (after_lookup f c start later lg t i x w).2.pending ≡ (t, img) ∷ []
    unfolding after_lookup
    after_lookup-starts lg t (some a) x w img s h m k = ground arith
    after_lookup-starts lg t none x w img s h m k =
        let lg' = record lg { cache_miss = suc lg.cache_miss } in
        after_miss-starts t (render_group_no_cache f c start later lg' t w) img s
          (render_group_no_cache-pending lg' t w ∙ h) k

    finish_write-saves :
        (cache : Cache W)
        → ((t : TileRequest) (i : Image) (w : W)
            → (cache.lookup_tile t (cache.save t i w).1).0 ≡ some i)
        → (lg : LayerGroup W P) (t : TileRequest) (img : Image) (w : W) → lg.pending ≡ (t, img) ∷ []
        → (finish_write cache lg w).0.pending ≡ []
          × (cache.lookup_tile t (finish_write cache lg w).1).0 ≡ some img
    unfolding finish_write
    finish_write-saves cache law lg t img w h = rw (h, finish_write) (refl, law t img w)

    -- For a layer that does not skip the cache, an answer without a tile has an error: a provider
    -- that gives neither does not get through.
    render_tile_image_or_error :
        (cache : Cache W) (lg : LayerGroup W P) (t : TileRequest) (w : W) (p : ℕ × Layer W P)
        → find_layer lg.layers t.layer_name ≡ some p
        → p.1.skip_cache ≡ false
        → (render_tile f c start later cache lg t w).0 ≡ none
        → (render_tile f c start later cache lg t w).1 ≢ none
    unfolding render_tile
    render_tile_image_or_error cache lg t w p e s =
        elim (Option-cases (check_permission f c p.1.id t)) [
          | inl k ↦
              rw (e, s, k, render_tile) (after_lookup_image lg t (cache.lookup_tile t w).0 _ _)
          | inr (x, k) ↦ rw (e, s, k, render_tile) (λ h i. ground arith)
        ]

    render_tile-starts :
        (cache : Cache W) (lg : LayerGroup W P) (t : TileRequest) (w : W) (p : ℕ × Layer W P)
        (img : Image)
        → find_layer lg.layers t.layer_name ≡ some p
        → p.1.skip_cache ≡ false
        → (cache.lookup_tile t w).0 ≡ none
        → lg.pending ≡ []
        → img.force_skip_cache ≡ false
        → (render_tile f c start later cache lg t w).0 ≡ some img
        → (render_tile f c start later cache lg t w).2.pending ≡ (t, img) ∷ []
    unfolding render_tile
    render_tile-starts cache lg t w p img e s m n q h =
        elim (Option-cases (check_permission f c p.1.id t)) [
          | inl k ↦
              rw (e, s, k, render_tile)
                (after_lookup-starts lg t _ _ _ img q n m (rw (e, s, k, render_tile) at h))
          | inr (x, k) ↦ (let z : none ≡ some img = rw (e, s, k, render_tile) at h in ground arith)
        ]

    -- When a tile that the cache lacked is rendered with no other write under way, and may be
    -- cached, the write that the render starts leaves it in the cache, for any cache in which a
    -- lookup finds what was saved last; and no write is under way then.
    pub render_tile-saves :
        (cache : Cache W)
        → ((t : TileRequest) (i : Image) (w : W)
            → (cache.lookup_tile t (cache.save t i w).1).0 ≡ some i)
        → (lg : LayerGroup W P) (t : TileRequest) (w : W) (p : ℕ × Layer W P) (img : Image)
        → find_layer lg.layers t.layer_name ≡ some p
        → p.1.skip_cache ≡ false
        → (cache.lookup_tile t w).0 ≡ none
        → lg.pending ≡ []
        → img.force_skip_cache ≡ false
        → (render_tile f c start later cache lg t w).0 ≡ some img
        → let r = render_tile f c start later cache lg t w in
          let (lg', w') = finish_write cache r.2 r.3 in
          lg'.pending ≡ [] × (cache.lookup_tile t w').0 ≡ some img
    render_tile-saves cache law lg t w p img e s m n q h =
        let r = render_tile f c start later cache lg t w in
        finish_write-saves cache law r.2 t img r.3
          (render_tile-starts cache lg t w p img e s m n q h)
