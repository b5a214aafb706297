-- ===== src/Server/Handler/Access.antt =====
-- internal/server/tile_handler.go with pkg/entities/layer/layergroup.go: what a request changes that
-- was not let through.
use tilegroxy.Base.{
  ℕ, true, not, List, none, some, ◌≡◌, ◌⊎◌, refl, inl, inr, arith, if-ind, Text, codes, text_eq,
  Option-cases,
}
use tilegroxy.Errors.{Error}
use tilegroxy.Request.{Grants, new_request_context, context_of}
use tilegroxy.Tile.Floats.{Floats}
use tilegroxy.Tile.Bounds.{TileRequest, ok, get_bounds, Result-cases}
use tilegroxy.Layer.Provide.{Layer}
use tilegroxy.Layer.Group.{
  Cache, LayerGroup, find_layer, check_permission, render_tile, does_not_exist,
}
use tilegroxy.Layer.Group.Rendering.{render_tile-denied}
use tilegroxy.Server.Response.{Response}
use tilegroxy.Server.Handler.{
  Request, Settings, Auth, State, count_all, count_valid, count_error, finish_request,
  render_request, extract_and_validate_request, serve_tile_with, serve_http_with, serve_tile,
  serve_http,
}

module _ {W P : Type 0} (f : Floats) where
  -- The request names a tile with bounds, of a layer that the grants permit.
  unfoldable pub IsPermitted : Request → Grants f.F → LayerGroup W P → Type 0
  IsPermitted req g lg =
      (t : TileRequest) × ((p : ℕ × Layer W P) × ((extract_and_validate_request req ≡ ok t)
          × ((find_layer lg.layers t.layer_name ≡ some p)
              × (check_permission f (context_of g) p.1.id t ≡ none))))

module _ {W P A : Type 0} where
  -- Nothing has been rendered, written to the cache or recorded, and no success counted.
  pub IsUntouched : State W P A → State W P A → Type 0
  IsUntouched s s' =
      (s'.group ≡ s.group)
      × ((s'.world ≡ s.world)
          × ((s'.events ≡ s.events) × (s'.counters.success ≡ s.counters.success)))

  module _ (f : Floats) (sha256 : Text → List ℕ) (settings : Settings) (auth : Auth f.F A)
      (cache : Cache W) where
    render_request-IsUntouched :
        (start later : ℕ) (req : Request) (g : Grants f.F) (t : TileRequest) (s : State W P A)
        (e : Error)
        → render_tile f (context_of g) start later cache s.group t s.world
          ≡ (none, some e, s.group, s.world)
        → IsUntouched s (render_request f sha256 settings auth cache start later req g t s).1
    unfolding render_request finish_request count_error count_valid IsUntouched
    render_request-IsUntouched start later req g t s e h = rw h (refl, (refl, (refl, refl)))

    render_tile-unknown :
        (start later : ℕ) (g : Grants f.F) (lg : LayerGroup W P) (t : TileRequest) (w : W)
        → find_layer lg.layers t.layer_name ≡ none
        → render_tile f (context_of g) start later cache lg t w
          ≡ (none, some (does_not_exist t.layer_name), lg, w)
    unfolding render_tile
    render_tile-unknown start later g lg t w h = rw (h, render_tile) refl

    serve_tile-access :
        (start later : ℕ) (req : Request) (g : Grants f.F) (s : State W P A)
        → IsUntouched s (serve_tile f sha256 settings auth cache start later req g s).1
          ⊎ IsPermitted f req g s.group
    unfolding serve_tile serve_tile_with IsUntouched IsPermitted
    serve_tile-access start later req g s = elim (Result-cases (extract_and_validate_request req)) [
      | inl (e, n) ↦ inl (rw (n, serve_tile, serve_tile_with) (refl, (refl, (refl, refl))))
      | inr (t, n) ↦ elim (Result-cases (get_bounds f t)) [
        | inl (e, m) ↦ inl (rw (n, m, serve_tile, serve_tile_with) (refl, (refl, (refl, refl))))
        | inr (b, m) ↦ elim (Option-cases (find_layer s.group.layers t.layer_name)) [
          | inl u ↦ inl (
              rw (n, m, serve_tile, serve_tile_with)
                (render_request-IsUntouched start later req g t s _
                  (render_tile-unknown start later g s.group t s.world u)))
          | inr (p, u) ↦ elim (Option-cases (check_permission f (context_of g) p.1.id t)) [
            | inl k ↦ inr (t, (p, (n, (u, k))))
            | inr (x, k) ↦ inl (
                rw (n, m, serve_tile, serve_tile_with)
                  (render_request-IsUntouched start later req g t s x (
                    render_tile-denied f (context_of g) start later cache s.group t s.world p x u
                      k)))
          ]
        ]
      ]
    ]

    -- A request leaves the layer group, the world of the cache and the providers, the events and the
    -- successes as they are, or authentication has accepted it, and what it has granted permits the tile
    -- of the layer that the request names.
    pub serve_http-access :
        (start later : ℕ) (req : Request) (s : State W P A)
        → let r = auth.check_authentication req (new_request_context f) s.auth in
          IsUntouched s (serve_http f sha256 settings auth cache start later req s).1
          ⊎ ((r.0 ≡ true) × IsPermitted f req r.1 s.group)
    unfolding serve_http serve_http_with IsUntouched count_all
    serve_http-access start later req s =
        let r = auth.check_authentication req (new_request_context f) s.auth in
        let C : Response × State W P A → Type 0 =
          λ o. IsUntouched s o.1 ⊎ ((r.0 ≡ true) × IsPermitted f req r.1 s.group) in
        if-ind C (text_eq req.method (codes "OPTIONS")) (λ e. inl (refl, (refl, (refl, refl))))
          (λ e.
            if-ind C (not r.0) (λ k. inl (refl, (refl, (refl, refl))))
              (λ k.
                elim (serve_tile-access start later req r.1 (record (count_all s) { auth = r.2 })) [
                  | inl u ↦ inl u
                  | inr q ↦ inr (ground arith, q)
                ]))
