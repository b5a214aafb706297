-- ===== src/Server/Generation/Safety.antt =====
-- What the reference counts of the generations are for.
use tilegroxy.Base.{
  ℕ, zero, suc, ◌<◌, ◌≤◌, true, false, List, [], ◌∷◌, some, ◌≡◌, ◌≢◌, refl, get_elem?, arith,
}
use tilegroxy.Base.Int.{pos}
use tilegroxy.Server.Generation.System.{Server, Reach, first_server, is_live}
use tilegroxy.Server.Generation.Invariant.{Reach-GenInv, count}

count-get_elem? : (g : ℕ) (xs : List ℕ) (i : ℕ) → get_elem? xs i ≡ some g → 0 < count g xs
count-get_elem? g [] i h = cc
count-get_elem? g (x ∷ xs) zero h = ground arith
count-get_elem? g (x ∷ xs) (suc i) h = ground (arith, count-get_elem? g xs i h)

-- Until a shutdown runs out of time, no request in flight has its generation closed, or about to be
-- closed, whatever reloads and closes happen beside it.
pub in_flight_open :
    {s : Server}
    → Reach first_server s
    → s.deadline ≡ false
    → (i g : ℕ) → get_elem? s.holders i ≡ some g
    → ((s.gens g).closed ≡ false) × (count g s.closers ≡ 0)
in_flight_open {s} r d i g at =
    let v = Reach-GenInv r g in
    let held = count-get_elem? g s.holders i at in
    (ground (arith, v.closed_idle), ground (arith, v.closer_idle))

-- A new request is always served by entities that nobody has closed or is about to close.
pub serving_open :
    {s : Server}
    → Reach first_server s
    → s.stopped ≡ false
    → ((s.gens s.current).closed ≡ false) × (count s.current s.closers ≡ 0)
serving_open {s} r h = (Reach-GenInv r s.current).serving_open refl h

-- The entities of a generation are closed at most once, by one goroutine, and its reference count is
-- the number of its requests in flight, never negative.
pub closed_at_most_once :
    {s : Server} (g : ℕ)
    → Reach first_server s
    → ((s.gens g).closes ≤ 1)
      × (count g s.draining ≤ 1)
      × ((s.gens g).refs ≡ pos (count g s.holders))
closed_at_most_once {s} g r =
    let v = Reach-GenInv r g in
    (ground (arith, v.closes_once), ground (arith, v.drain_once), v.counted)

-- No goroutine stands anywhere in the code of the generations, and no request is in flight.
pub record IsQuiet (s : Server) : Type 0 where
  pub holders : s.holders ≡ []
  pub retired : s.retired ≡ []
  pub timers : s.timers ≡ []
  pub closers : s.closers ≡ []
  pub draining : s.draining ≡ []

-- No generation is leaked: when all is quiet, every generation but the current one has been closed,
-- its close has finished, and the registry has dropped it.
pub quiet_released :
    {s : Server} (g : ℕ)
    → Reach first_server s
    → IsQuiet s
    → g < s.fresh
    → g ≢ s.current
    → ((s.gens g).closed ≡ true) × ((s.gens g).done ≡ true) × (is_live g s.live ≡ false)
quiet_released {s} g r q born old =
    let v = Reach-GenInv r g in
    ground (arith, v.retiring born old, v.attended, v.drain_once, v.registered born)
