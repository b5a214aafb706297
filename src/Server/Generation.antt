-- ===== src/Server/Generation.antt =====
-- internal/server/generation.go, and the use of it in tile_handler.go: one generation, method by
-- method. A method that unlocks and goes on is cut at the unlock. The field closeCtx, which carries
-- a deadline and decides nothing here, is left out, and onClosed is the registry's removal.
pub mod System
pub mod Invariant
pub mod Safety
pub mod Tests
use tilegroxy.Base.{ℕ, zero, suc, Bool, true, false, not, ◌&&◌, Option, none, some, if◌then◌else◌}
use tilegroxy.Base.Int.{ℤ, pos, negsuc, increment, decrement}

pub record Generation : Type 0 where
  pub refs : ℤ
  pub closing : Bool
  pub closed : Bool
  pub closes : ℕ
  pub done : Bool

-- n <= 0
abbrev pub non_positive : ℤ → Bool
non_positive (pos zero) = true
non_positive (pos (suc n)) = false
non_positive (negsuc n) = true

abbrev pub new_generation : Generation
new_generation = record { refs = pos 0; closing = false; closed = false; closes = 0; done = false }

unfoldable pub acquire : Generation → Generation
acquire g = record g { refs = increment g.refs }

-- The generation, and whether the caller goes on to closeNow.
unfoldable pub release : Generation → Generation × Bool
release g =
    let g' = record g { refs = decrement g.refs } in
    (g', g'.closing && non_positive g'.refs && not g'.closed)

unfoldable pub mark_closing : Generation → Generation
mark_closing g = record g { closing = true }

-- What the goroutine of markClosing decides when the floor has passed.
unfoldable pub after_floor : Generation → Bool
after_floor g = non_positive g.refs && not g.closed

-- The first part of closeNow, up to all.Close, and whether the caller is the one that closes.
unfoldable pub begin_close : Generation → Generation × Bool
begin_close g =
    if g.closed then (g, false) else (record g { closed = true; closes = suc g.closes }, true)

-- close(done), when all.Close has returned.
unfoldable pub end_close : Generation → Generation
end_close g = record g { done = true }

unfoldable pub is_closed : Generation → Bool
is_closed g = g.done

unfoldable pub in_flight : Generation → ℤ
in_flight g = g.refs
