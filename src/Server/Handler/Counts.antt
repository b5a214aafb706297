-- ===== src/Server/Handler/Counts.antt =====
-- internal/server/tile_handler.go: the counters of the requests.
use tilegroxy.Base.{
  ℕ, suc, ◌+◌, ◌≤◌, not, List, Option, none, some, ◌≡◌, ◌⊎◌, refl, inl, inr, arith, if-ind, length,
  length-append, Text, codes, text_eq, Option-cases,
}
use tilegroxy.Request.{Grants, new_request_context, context_of}
use tilegroxy.Tile.Floats.{Floats}
use tilegroxy.Tile.Bounds.{TileRequest, get_bounds, Result-cases}
use tilegroxy.Layer.Provide.{Image}
use tilegroxy.Layer.Group.{Cache, LayerGroup, Answer, find_layer, render_tile}
use tilegroxy.Server.Response.{Response}
use tilegroxy.Server.Handler.{
  Request, Settings, Auth, Event, State, record_analytics, count_all, count_valid, count_error,
  count_success, finish_request, render_request, extract_and_validate_request, serve_tile_with,
  serve_http_with, serve_tile, serve_http, recovered, render_or_recover, serve_recovered,
}

record_analytics-length :
    {F W P : Type 0} (settings : Settings) (lg : LayerGroup W P) (g : Grants F) (t : TileRequest)
    (img : Image)
    → length (record_analytics settings lg g t img) ≤ 1
unfolding record_analytics
record_analytics-length settings lg g t img =
    if-ind (λ (es : List Event). length es ≤ 1) settings.no_analytics (λ e. omega arith)
      (λ e. elim (Option-cases (find_layer lg.layers t.layer_name)) [
        | inl n ↦ rw (n, record_analytics) omega arith
        | inr (p, n) ↦
            rw (n, record_analytics)
              (if-ind (λ (es : List Event). length es ≤ 1) p.1.skip_analytics (λ k. omega arith)
                (λ k. omega arith))
      ])

module _ {W P A : Type 0} where
  -- Each valid request has failed or succeeded, or is one of so many that are lost; and only a success
  -- has an event.
  unfoldable pub IsBalanced : ℕ → State W P A → Type 0
  IsBalanced lost s =
      (s.counters.valid ≡ lost + (s.counters.error + s.counters.success))
      × ((s.counters.valid ≤ s.counters.all) × (length s.events ≤ s.counters.success))

  count_all-IsBalanced :
      (lost : ℕ) (s : State W P A)
      → IsBalanced lost s
      → IsBalanced lost (count_all s) × suc s.counters.valid ≤ (count_all s).counters.all
  unfolding IsBalanced count_all
  count_all-IsBalanced lost s (a, (b, c)) = ((a, (omega arith, c)), omega arith)

  count_valid-IsBalanced :
      (lost : ℕ) (s : State W P A)
      → IsBalanced lost s
      → suc s.counters.valid ≤ s.counters.all
      → IsBalanced (suc lost) (count_valid s)
  unfolding IsBalanced count_valid
  count_valid-IsBalanced lost s (a, (b, c)) l = (omega arith, (l, c))

  module _ (f : Floats) (sha256 : Text → List ℕ) (settings : Settings) (lost : ℕ) where
    finish_request-IsBalanced :
        (req : Request) (g : Grants f.F) (t : TileRequest) (r : Answer W P) (s : State W P A)
        → IsBalanced (suc lost) s
        → IsBalanced lost (finish_request f sha256 settings req g t r s).1
    unfolding finish_request IsBalanced count_error count_success
    finish_request-IsBalanced req g t (img, some e, lg, w) s (a, (b, c)) = (omega arith, (b, c))
    finish_request-IsBalanced req g t (none, none, lg, w) s (a, (b, c)) = (omega arith, (b, c))
    finish_request-IsBalanced req g t (some img, none, lg, w) s (a, (b, c)) =
        let n = record_analytics-length settings lg g t img in
        (
          omega arith,
          (b, rw (length-append s.events (record_analytics settings lg g t img)) omega arith),
        )

    module _ (auth : Auth f.F A) (cache : Cache W)
        (dies : Grants f.F → TileRequest → State W P A → Option (LayerGroup W P × W))
        (start later : ℕ) (req : Request) where
      -- The counters are balanced as before; or a render has panicked, the response is that of the
      -- recovery, and one more request is lost.
      unfoldable pub IsAccounted : Response × State W P A → Type 0
      IsAccounted r =
          IsBalanced lost r.1
          ⊎ ((g : Grants f.F) × (t : TileRequest) × (s : State W P A) × (left : LayerGroup W P × W)
              × (dies g t s ≡ some left)
              × (r ≡ recovered f sha256 settings left s)
              × IsBalanced (suc lost) r.1)

      render_or_recover-IsAccounted :
          (g : Grants f.F) (t : TileRequest) (s : State W P A)
          → IsBalanced lost s
          → suc s.counters.valid ≤ s.counters.all
          → IsAccounted (render_or_recover f sha256 settings auth cache dies start later req g t s)
      unfolding render_or_recover render_request recovered IsAccounted IsBalanced
      render_or_recover-IsAccounted g t s h l = elim (Option-cases (dies g t s)) [
        | inl n ↦
            rw (n, render_or_recover)
              (inl (
                finish_request-IsBalanced req g t
                  (render_tile f (context_of g) start later cache s.group t s.world) (count_valid s)
                  (count_valid-IsBalanced lost s h l)))
        | inr (left, n) ↦
            rw (n, render_or_recover)
              (inr (g, t, s, left, n, refl, count_valid-IsBalanced lost s h l))
      ]

      serve_tile_with-IsAccounted :
          (g : Grants f.F) (s : State W P A)
          → IsBalanced lost s
          → suc s.counters.valid ≤ s.counters.all
          → IsAccounted (
              serve_tile_with f sha256 settings
                (render_or_recover f sha256 settings auth cache dies start later req)
                req
                g
                s)
      unfolding serve_tile_with IsAccounted
      serve_tile_with-IsAccounted g s h l = elim (Result-cases (extract_and_validate_request req)) [
        | inl (e, n) ↦ rw (n, serve_tile_with) (inl h)
        | inr (t, n) ↦ elim (Result-cases (get_bounds f t)) [
          | inl (e, m) ↦ rw (n, m, serve_tile_with) (inl h)
          | inr (b, m) ↦ rw (n, m, serve_tile_with) (render_or_recover-IsAccounted g t s h l)
        ]
      ]

      -- A request keeps the counters balanced: as many requests are valid as have failed or succeeded,
      -- but for those that are lost, no more are valid than there are, and there are no more events than
      -- successes. A request is lost only if its render panics: the recovery answers it, and it is
      -- counted neither as an error nor as a success.
      pub serve_recovered-IsAccounted :
          (s : State W P A)
          → IsBalanced lost s
          → IsAccounted (serve_recovered f sha256 settings auth cache dies start later req s)
      unfolding serve_recovered serve_http_with IsAccounted IsBalanced count_all
      serve_recovered-IsAccounted s h =
          let r = auth.check_authentication req (new_request_context f) s.auth in
          let h1 = count_all-IsBalanced lost s h in
          if-ind IsAccounted (text_eq req.method (codes "OPTIONS")) (λ e. inl h1.0)
            (λ e.
              if-ind IsAccounted (not r.0) (λ k. inl h1.0)
                (λ k.
                  serve_tile_with-IsAccounted r.1 (record (count_all s) { auth = r.2 }) h1.0 h1.1))

-- Without a panic the recovery changes nothing.
serve_recovered_quiet :
    {W P A : Type 0} (f : Floats) (sha256 : Text → List ℕ) (settings : Settings) (auth : Auth f.F A)
    (cache : Cache W) (start later : ℕ) (req : Request) (s : State W P A)
    → serve_recovered f sha256 settings auth cache (λ g t s'. none) start later req s
      ≡ serve_http f sha256 settings auth cache start later req s
unfolding serve_recovered render_or_recover serve_http serve_tile
serve_recovered_quiet f sha256 settings auth cache start later req s = refl
