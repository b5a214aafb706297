-- ===== src/Layer/Provide/Counters.antt =====
-- pkg/entities/layer/layer.go: what RenderTileNoCache counts.
use tilegroxy.Base.{ℕ, suc, ◌≤◌, Option, none, some, ◌≡◌, refl, arith, if-ind, ltb, not, ◌&&◌}
use tilegroxy.Errors.{Error, is_provider_auth}
use tilegroxy.Tile.Bounds.{TileRequest}
use tilegroxy.Layer.Provide.{
  Image, ProviderContext, Layer, Rendered, get_provider_context, force_reauth, retried, retry,
  after_generate, generate, render_tile_no_cache,
}

-- What the counters of requests, successes and errors become, and when a tile comes with an error.
pub CountsSince : {W P : Type 0} → Layer W P → Option Image → Option Error → Layer W P → Type 0
CountsSince l img none l' = l'.tile_success ≡ suc l.tile_success × l'.tile_error ≡ l.tile_error
CountsSince l img (some e) l' =
    l'.tile_success ≡ l.tile_success × l'.tile_error ≤ suc l.tile_error × img ≡ none

-- The two layers have counted the same requests and results.
pub Same : {W P : Type 0} → Layer W P → Layer W P → Type 0
Same l l' =
    l'.tile_all ≡ l.tile_all × l'.tile_success ≡ l.tile_success × l'.tile_error ≡ l.tile_error

CountsSince-Same :
    {W P : Type 0} (l l' : Layer W P)
    → l'.tile_success ≡ l.tile_success
    → l'.tile_error ≡ l.tile_error
    → (img : Option Image) (e : Option Error) (r : Layer W P) → CountsSince l' img e r
    → CountsSince l img e r
unfolding CountsSince
CountsSince-Same l l' a b img none r (p, q) = (cc, cc)
CountsSince-Same l l' a b img (some e) r (p, q, i) = (cc, omega arith, i)

module _ {W P : Type 0} where
  Counts : Layer W P → Rendered W P → Type 0
  Counts l r = r.2.tile_all ≡ l.tile_all × CountsSince l r.0 r.1 r.2

  Counts-Same : (l l' : Layer W P) → Same l l' → (r : Rendered W P) → Counts l' r → Counts l r
  unfolding Counts Same
  Counts-Same l l' (a, s, f) r (b, c) = (cc, CountsSince-Same l l' s f _ _ _ c)

  get_provider_context-Same :
      (now : ℕ) (l : Layer W P) (w : W) → Same l (get_provider_context now l w).2
  unfolding get_provider_context Same
  get_provider_context-Same now l w =
      if-ind (λ (r : ProviderContext P × Option Error × Layer W P × W). Same l r.2)
        (not l.provider_context.auth_bypass && ltb l.provider_context.auth_expiration now)
        (λ _. (refl, refl, refl)) (λ _. (refl, refl, refl))

  force_reauth-Same : (now : ℕ) (l : Layer W P) (w : W) → Same l (force_reauth now l w).2
  unfolding force_reauth Same
  force_reauth-Same now l w =
      get_provider_context-Same now
        (record l { provider_context = record l.provider_context { auth_expiration = 0 } }) w

  retried-Counts :
      (img : Option Image) (e : Option Error) (l : Layer W P) (w : W) → Counts l (retried img e l w)
  unfolding retried CountsSince Counts
  retried-Counts img none l w = (refl, (refl, refl))
  retried-Counts img (some e) l w = (refl, (refl, omega arith, refl))

  retry-Counts :
      (t : TileRequest) (pc : ProviderContext P) (e : Option Error) (l : Layer W P) (w : W)
      → Counts l (retry t pc e l w)
  unfolding retry CountsSince Counts
  retry-Counts t pc (some e) l w = (refl, (refl, omega arith, refl))
  retry-Counts t pc none l w = retried-Counts _ _ l _

  after_generate-Counts :
      (now : ℕ) (t : TileRequest) (img : Option Image) (e : Option Error) (l : Layer W P) (w : W)
      → Counts l (after_generate now t img e l w)
  unfolding after_generate CountsSince Counts
  after_generate-Counts now t img none l w = (refl, (refl, refl))
  after_generate-Counts now t img (some e) l w =
      let (pc, e', l', w') = force_reauth now l w in
      if-ind (Counts l) (is_provider_auth e)
        (λ _.
          Counts-Same l l' (force_reauth-Same now l w) (retry t pc e' l' w')
            (retry-Counts t pc e' l' w'))
        (λ _. (refl, (refl, omega arith, refl)))

  generate-Counts :
      (now : ℕ) (t : TileRequest) (pc : ProviderContext P) (e : Option Error) (l : Layer W P)
      (w : W)
      → Counts l (generate now t pc e l w)
  unfolding generate CountsSince Counts
  generate-Counts now t pc (some e) l w = (refl, (refl, omega arith, refl))
  generate-Counts now t pc none l w = after_generate-Counts now t _ _ l _

  -- A render counts one request. With no error it counts one success and no error; with an error it
  -- gives no tile, counts no success and at most one error.
  render_tile_no_cache-counts :
      (start later : ℕ) (l : Layer W P) (t : TileRequest) (w : W)
      → (render_tile_no_cache start later l t w).2.tile_all ≡ suc l.tile_all
        × CountsSince l
            (render_tile_no_cache start later l t w).0
            (render_tile_no_cache start later l t w).1
            (render_tile_no_cache start later l t w).2
  unfolding render_tile_no_cache Counts
  render_tile_no_cache-counts start later l t w =
      let l0 = record l { tile_all = suc l.tile_all } in
      let (a, c) =
        Counts-Same l0 _ (get_provider_context-Same start l0 w)
          (render_tile_no_cache start later l t w) (generate-Counts later t _ _ _ _) in
      (a, CountsSince-Same l l0 refl refl _ _ _ c)
