-- ===== src/Server/Generation/Tests.antt =====
-- A server that reloads once and closes its first generation.
use tilegroxy.Base.{true, false, ◌≡◌, refl, arith}
use tilegroxy.Server.Generation.{
  acquire, release, mark_closing, after_floor, begin_close, end_close,
}
use tilegroxy.Server.Generation.System.{
  Server, first_server, serve, finish, reload, retire, wake, start_close, stop_close, is_live,
  serves, finishes, reloads, retires, wakes, starts_close, stops_close, Reach, here, next,
}
use tilegroxy.Server.Generation.Invariant.{count}
use tilegroxy.Server.Generation.Safety.{IsQuiet, in_flight_open, quiet_released}

abbrev busy : Server
busy = reload (serve first_server)

to_busy : Reach first_server busy
unfolding first_server
to_busy = next (next here (serves refl)) reloads

abbrev retired_one : Server
retired_one = retire 0 0 (finish 0 0 busy)

abbrev over : Server
over = stop_close 0 0 (start_close 0 0 (wake 0 0 retired_one))

to_over : Reach first_server over
unfolding first_server serve reload finish retire wake start_close stop_close acquire release
    mark_closing after_floor begin_close end_close
to_over =
    next
      (next (next (next (next to_busy (finishes 0 0 refl)) (retires 0 0 refl)) (wakes 0 0 refl))
        (starts_close 0 0 refl))
      (stops_close 0 0 refl)

in_flight_open_example : ((busy.gens 0).closed ≡ false) × (count 0 busy.closers ≡ 0)
unfolding first_server serve reload
in_flight_open_example = in_flight_open to_busy refl 0 0 refl

over-IsQuiet : IsQuiet over
unfolding first_server serve reload finish retire wake start_close stop_close acquire release
    mark_closing after_floor begin_close end_close
over-IsQuiet = record {
  holders = refl;
  retired = refl;
  timers = refl;
  closers = refl;
  draining = refl;
}

quiet_released_example :
    ((over.gens 0).closed ≡ true) × ((over.gens 0).done ≡ true) × (is_live 0 over.live ≡ false)
unfolding first_server serve reload finish retire wake start_close stop_close acquire release
    mark_closing after_floor begin_close end_close
quiet_released_example = quiet_released 0 to_over over-IsQuiet (omega arith) (omega arith)
