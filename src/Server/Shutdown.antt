-- ===== src/Server/Shutdown.antt =====
-- internal/server/shutdown.go: runShutdown. The phases, the shared deadline and the wait are functions on
-- a world, which holds the time; logs and the texts that wrap errors are left out.
pub mod Order
pub mod Tests
use tilegroxy.Base.{
  ℕ, Bool, true, false, List, [], ◌∷◌, ◌++◌, Option, none, some, if◌then◌else◌, ltb,
}
use tilegroxy.Errors.{Error, join}

pub data Phase : Type 0 where
  drain server health generations otel logs : Phase

-- `context_error` is ctx.Err(); `wait` is the select on the delay and the deadline, and whether the
-- deadline has been chosen.
pub record Teardown (W : Type 0) : Type 0 where
  pub delay : ℕ
  pub run : Phase → W → Option Error × W
  pub context_error : W → Option Error
  pub wait : ℕ → W → Bool × W

abbrev pub steps : List Phase
steps = server ∷ (health ∷ (generations ∷ (otel ∷ [])))

pub errors_of : Option Error → List Error
errors_of none = []
errors_of (some e) = e ∷ []

-- errors.Join
unfoldable pub join_all : List Error → Option Error
join_all [] = none
join_all (e ∷ es) = join (some e) (join_all es)

module _ {W : Type 0} (t : Teardown W) where
  -- The loop over the steps: their errors.
  pub run_steps : List Phase → W → List Error × W
  unfolding errors_of
  run_steps [] w = ([], w)
  run_steps (p ∷ ps) w =
      let (e, w1) = t.run p w in
      let (es, w2) = run_steps ps w1 in
      elim (t.context_error w1) [
        | some x ↦ (errors_of e ++ (x ∷ []), w1)
        | none ↦ (errors_of e ++ es, w2)
      ]

  pub after_drain : W → Option Error × W
  unfolding run_steps join_all
  after_drain w = let (es, w2) = run_steps steps w in (join_all es, w2)

  pub before_logs : W → Option Error × W
  unfolding after_drain
  before_logs w =
      let (expired, w2) = t.wait t.delay w in
      if ltb 0 t.delay
      then (if expired then (t.context_error w2, w2) else after_drain w2)
      else after_drain w

  -- runShutdown: the logs are closed by the deferred call.
  unfoldable pub run_shutdown : W → Option Error × W
  unfolding before_logs
  run_shutdown w = let (e, w2) = before_logs (t.run drain w).1 in (e, (t.run logs w2).1)
