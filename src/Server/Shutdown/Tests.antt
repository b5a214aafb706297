-- ===== src/Server/Shutdown/Tests.antt =====
-- A clock of which each phase takes as many units as it has, with the phases that have run, and a
-- deadline.
use tilegroxy.Base.{
  ℕ, ◌+◌, true, List, [], ◌∷◌, ◌++◌, none, some, ◌≡◌, ◌≢◌, refl, if◌then◌else◌, leb, codes, take,
}
use tilegroxy.Errors.{plain}
use tilegroxy.Server.Shutdown.{Phase, drain, logs, Teardown, run_shutdown}
use tilegroxy.Server.Shutdown.Order.{Recorded, sequence, run_shutdown-steps}

abbrev Clock : Type 0
Clock = ℕ × List Phase

-- Every phase takes three units of ten, and the delay is two.
abbrev ten_units : Teardown Clock
ten_units = record {
  delay = 2;
  run = λ p w. (none, (w.0 + 3, w.1 ++ (p ∷ [])));
  context_error =
      λ w. if leb 10 w.0 then some (plain (codes "context deadline exceeded")) else none;
  wait = λ n w. (leb 10 (w.0 + n), (w.0 + n, w.1));
}

deadline_law :
    (n : ℕ) (w : Clock)
    → (ten_units.wait n w).0 ≡ true
    → ten_units.context_error (ten_units.wait n w).1 ≢ none
deadline_law n w h = rw h (λ e. cc)

ten_units-Recorded : Recorded ten_units (λ w. w.1)
ten_units-Recorded = record { runs = λ p w. refl; waits = λ n w. refl }

run_shutdown-steps_example :
    ((n : ℕ) × ((run_shutdown ten_units (0, [])).1.1 ≡ drain ∷ (take n sequence ++ (logs ∷ []))))
    × ((run_shutdown ten_units (0, [])).0 ≡ none
        → (run_shutdown ten_units (0, [])).1.1 ≡ drain ∷ (sequence ++ (logs ∷ [])))
run_shutdown-steps_example =
    run_shutdown-steps ten_units (λ w. w.1) ten_units-Recorded deadline_law (0, [])
