-- ===== src/Server/Health/Tests.antt =====
-- Two checks: one that has passed, and one that has panicked after it passed.
use tilegroxy.Base.{ℕ, ◌*◌, ◌≡◌, ◌≢◌, ◌↔◌, refl, List, [], ◌∷◌, none, some, Text, codes, text_eq}
use tilegroxy.Server.Response.{Response}
use tilegroxy.Server.Health.{
  second, Body, Environment, check_detail, details_from, with_cache, write_body, serve_health,
  finished, panicked, Event, ticked, run,
}
use tilegroxy.Server.Health.Freshness.{IsDraining, AllPassing, serve_health-status}

abbrev environment : Environment
environment = record {
  message = λ e. [];
  marshal = λ b. some b.status;
  version = codes "1.0";
  git_ref = codes "HEAD";
}

abbrev delays : ℕ → ℕ
delays i = 10

abbrev history : List Event
history =
    ticked 1 (20 * second) panicked
    ∷ (ticked 0 (20 * second) (finished none)
        ∷ (ticked 1 (10 * second) (finished none) ∷ (ticked 0 (10 * second) (finished none) ∷ [])))

abbrev checks : List Text
checks = codes "TileCheck" ∷ (codes "CacheCheck" ∷ [])

abbrev answer : ℕ → Response
answer now =
    serve_health environment now (codes "GET") (run delays history).draining checks
      (some (run delays history).results) []

marshal_ne : (b : Body) → environment.marshal b ≢ none
marshal_ne b h = cc

serve_health-status_example :
    (((answer (24 * second)).status ≡ 503) ↔ IsDraining history)
    × (((answer (24 * second)).status ≡ 200)
        ↔ ((¬ IsDraining history) × AllPassing delays (24 * second) 0 checks history))
serve_health-status_example =
    serve_health-status delays environment (24 * second) checks history [] marshal_ne

answer_fresh : (answer (24 * second)).status ≡ 200
unfolding serve_health run details_from with_cache write_body check_detail text_eq
answer_fresh = refl

-- The result from before the panic has become stale.
answer_stale : (answer (26 * second)).status ≡ 500
unfolding serve_health run details_from with_cache write_body check_detail text_eq
answer_stale = refl
