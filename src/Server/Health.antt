-- ===== src/Server/Health.antt =====
-- internal/server/health.go: the endpoint of the health subsystem, and the routine of each check that
-- stores its results. The checks, reflection on their types, the encoding of JSON and the version are
-- parameters; times are in nanoseconds. A run is a list of events, the latest first.
pub mod Freshness
pub mod Tests
use tilegroxy.Base.{
  ℕ, zero, suc, ◌+◌, ◌*◌, ◌-◌, ◌/◌, ◌^◌, Bool, true, false, not, ◌&&◌, List, [], ◌∷◌, ◌++◌, Option,
  none, some, if◌then◌else◌, ltb, ◌==◌, Text, codes, text_eq,
}
use tilegroxy.Base.Strconv.{natural}
use tilegroxy.Errors.{Error}
use tilegroxy.Server.Response.{Header, Response, add_header}

abbrev pub second : ℕ
second = 1000000000

abbrev pub check_leeway : ℕ
check_leeway = 5 * second

pub record CheckResult : Type 0 where
  pub failure : Option Error
  pub timestamp : ℕ
  pub ttl : ℕ

-- One entry of the response; `since` is the time and the seconds of the TTL.
pub record Detail : Type 0 where
  pub component_id : Text
  pub component_type : Text
  pub status : Text
  pub output : Option Text
  pub since : Option (ℕ × ℕ)

-- sync.Map from the index of a check
abbrev pub Results : Type 0
Results = ℕ → Option CheckResult

pub record Body : Type 0 where
  pub details : List Detail
  pub output : Option Text
  pub status : Text
  pub version : Text
  pub release_id : Text

pub record Environment : Type 0 where
  pub message : Error → Text
  pub marshal : Body → Option Text
  pub version : Text
  pub git_ref : Text

-- The entry of a result, before its status.
unfoldable pub timed_detail : ℕ → Text → CheckResult → Detail
timed_detail i name r = record {
  component_id = natural i;
  component_type = name;
  status = [];
  output = none;
  since = some (r.timestamp, r.ttl / second);
}

module _ (env : Environment) where
  -- The switch on a result that is there.
  pub result_detail : ℕ → Detail → CheckResult → Option Error → Detail × Bool
  result_detail now d r (some e) =
      (record d { status = codes "error"; output = some (env.message e) }, false)
  result_detail now d r none =
      if ltb (r.timestamp + r.ttl + check_leeway) now
      then (record d { status = codes "error"; output = some (codes "stale") }, false)
      else (record d { status = codes "ok" }, true)

  -- checkDetail, for a check whose type has a name
  unfoldable pub check_detail : ℕ → ℕ → Text → Results → Detail × Bool
  unfolding result_detail timed_detail
  check_detail now i name cache = elim (cache i) [
    | none ↦ (
      record {
        component_id = natural i;
        component_type = name;
        status = codes "error";
        output = some (codes "Check has not updated stored health value");
        since = none;
      },
      false,
    )
    | some r ↦ result_detail now (timed_detail i name r) r r.failure
  ]

  -- The loop over the checks from an index on: the details, and whether all are ok.
  pub details_from : ℕ → ℕ → List Text → Results → List Detail × Bool
  unfolding check_detail
  details_from now i [] cache = ([], true)
  details_from now i (name ∷ names) cache =
      let (d, fine) = check_detail now i name cache in
      let (ds, rest) = details_from now (suc i) names cache in (d ∷ ds, fine && rest)

  pub with_cache : ℕ → List Text → Option Results → List Detail × Option Text × Bool
  unfolding details_from
  with_cache now names none = ([], some (codes "missing check cache"), false)
  with_cache now names (some cache) =
      let (ds, fine) = details_from now 0 names cache in (ds, none, fine)

  pub body_of : List Detail × Option Text × Bool → Body
  body_of (ds, output, fine) = record {
    details = ds;
    output = output;
    status = if fine then codes "ok" else codes "error";
    version = env.version;
    release_id = env.git_ref;
  }

  -- What is written for the body; one that cannot be encoded is left out, and counts as a failure.
  pub write_body : Bool → Option Text → Header → Response
  unfolding add_header
  write_body fine none h = record {
    status = 500;
    header = add_header (codes "Content-Type") (codes "application/json+health") h;
    body = [];
  }
  write_body fine (some text) h = record {
    status = if fine then 200 else 500;
    header = add_header (codes "Content-Type") (codes "application/json+health") h;
    body = text;
  }

  -- ServeHTTP; a writer whose status is not set writes 200.
  unfoldable pub serve_health :
      ℕ → (method : Text) → (draining : Bool) → List Text → Option Results → Header → Response
  unfolding with_cache body_of write_body
  serve_health now method draining names cache h =
      let out = with_cache now names cache in
      if not (text_eq method (codes "GET"))
      then record { status = 204; header = h; body = [] }
      else if draining
      then record { status = 503; header = h; body = codes "{\"status\":\"draining\"}" }
      else write_body out.2 (env.marshal (body_of out)) h

-- What a call of a check comes to.
pub data Outcome : Type 0 where
  finished : Option Error → Outcome
  panicked : Outcome

unfoldable pub store : ℕ → CheckResult → Results → Results
store i r cache j = if i == j then some r else cache j

-- tickCheck: a check that panics stores nothing.
unfoldable pub tick_check : ℕ → ℕ → ℕ → Outcome → Results → Results
unfolding store
tick_check i ttl now (finished e) cache =
    store i (record { failure = e; timestamp = now; ttl = ttl }) cache
tick_check i ttl now panicked cache = cache

abbrev pub max_delay : ℕ
max_delay = 2 ^ 31 - 1

-- The TTL of a check with a delay in seconds, at most math.MaxInt32.
unfoldable pub ttl_of : ℕ → ℕ
ttl_of delay = second * (if ltb max_delay delay then max_delay else delay)

-- What the endpoint reads.
pub record Health : Type 0 where
  pub results : Results
  pub draining : Bool

-- A call of the check with an index ends at a time; or shutdown begins.
pub data Event : Type 0 where
  ticked : ℕ → ℕ → Outcome → Event
  start_draining : Event

module _ (delay : ℕ → ℕ) where
  unfoldable pub apply_event : Event → Health → Health
  unfolding tick_check ttl_of
  apply_event (ticked i t o) s = record s {
    results = tick_check i (ttl_of (delay i)) t o s.results;
  }
  apply_event start_draining s = record s { draining = true }

  -- The state after the events, from that of SetupHealth.
  unfoldable pub run : List Event → Health
  unfolding apply_event
  run [] = record { results = λ i. none; draining = false }
  run (e ∷ es) = apply_event e (run es)
