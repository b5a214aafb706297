-- ===== src/Server/Generation/Invariant.antt =====
-- What holds of each generation at every moment.
use tilegroxy.Base.{
  ℕ, zero, suc, ◌+◌, ◌<◌, ◌≤◌, Bool, true, false, not, ◌&&◌, ◌||◌, List, [], ◌∷◌, some, ◌≡◌, ◌≢◌,
  ◌⊎◌, refl, if◌then◌else◌, ◌==◌, get_elem?, arith,
}
use tilegroxy.Base.Int.{pos}
use tilegroxy.Server.Generation.{
  new_generation, non_positive, acquire, release, mark_closing, after_floor, begin_close, end_close,
  in_flight,
}
use tilegroxy.Server.Generation.System.{
  Server, take_out, remove, push_if, is_live, first_server, serve, finish, reload, retire, wake,
  start_close, stop_close, Step, serves, finishes, reloads, retires, wakes, starts_close,
  stops_close, stops, expires, closes_all, Reach, here, next,
}

abbrev pub count : ℕ → List ℕ → ℕ
count g [] = 0
count g (x ∷ xs) = if x == g then suc (count g xs) else count g xs

count-take_out :
    (g k : ℕ) (xs : List ℕ) (i : ℕ)
    → get_elem? xs i ≡ some k
    → count g xs ≡ (if k == g then suc (count g (take_out xs i)) else count g (take_out xs i))
count-take_out g k [] i h = cc
count-take_out g k (x ∷ xs) zero h = ground arith
count-take_out g k (x ∷ xs) (suc i) h = ground (arith, count-take_out g k xs i h)

count-push_if :
    (g k : ℕ) (b : Bool) (xs : List ℕ)
    → count g (push_if b k xs) ≡ (if b && (k == g) then suc (count g xs) else count g xs)
count-push_if g k true xs = refl
count-push_if g k false xs = refl

is_live-remove : (g k : ℕ) (xs : List ℕ) → is_live g (remove k xs) ≡ (not (k == g) && is_live g xs)
is_live-remove g k [] = ground arith
is_live-remove g k (x ∷ xs) = ground (arith, is_live-remove g k xs)

-- A generation that was made, in the state of the server.
pub record GenInv (s : Server) (g : ℕ) : Type 0 where
  pub known : s.current < s.fresh
  -- no goroutine has the number of a generation still to come
  pub unborn :
      s.fresh ≤ g
      → (s.gens g ≡ new_generation)
        × (count g s.holders ≡ 0)
        × (count g s.retired ≡ 0)
        × (count g s.timers ≡ 0)
        × (count g s.closers ≡ 0)
        × (count g s.draining ≡ 0)
        × (is_live g s.live ≡ false)
  pub counted : (s.gens g).refs ≡ pos (count g s.holders)
  pub closed_idle : (s.gens g).closed ≡ true → s.deadline ≡ false → count g s.holders ≡ 0
  pub closer_idle : 0 < count g s.closers → s.deadline ≡ false → count g s.holders ≡ 0
  pub serving_open :
      g ≡ s.current → s.stopped ≡ false → ((s.gens g).closed ≡ false) × (count g s.closers ≡ 0)
  pub current_kept :
      g ≡ s.current
      → ((s.gens g).closing ≡ false) × (count g s.retired ≡ 0) × (count g s.timers ≡ 0)
  pub timer_closing : 0 < count g s.timers → (s.gens g).closing ≡ true
  pub dated : s.deadline ≡ true → s.stopped ≡ true
  pub closes_once : (s.gens g).closes ≡ (if (s.gens g).closed then 1 else 0)
  pub drain_once : count g s.draining ≡ (if (s.gens g).closed && not (s.gens g).done then 1 else 0)
  pub done_closed : (s.gens g).done ≡ true → (s.gens g).closed ≡ true
  pub registered : g < s.fresh → is_live g s.live ≡ not (s.gens g).done
  pub retiring : g < s.fresh → g ≢ s.current → ((s.gens g).closing ≡ true) ⊎ (0 < count g s.retired)
  -- a retired generation is closed, or somebody is left who will see to it
  pub attended :
      (s.gens g).closing ≡ true
      → (s.gens g).closed ≡ false
      → 0 < count g s.holders + count g s.timers + count g s.closers

serve-GenInv : (s : Server) (g : ℕ) → s.stopped ≡ false → GenInv s g → GenInv (serve s) g
unfolding serve acquire
serve-GenInv s g h v = ground arith

finish-GenInv :
    (s : Server) (g i k : ℕ) → get_elem? s.holders i ≡ some k → GenInv s g → GenInv (finish i k s) g
unfolding finish release
finish-GenInv s g i k at v =
    ground
      (arith, count-take_out g k s.holders i at, count-push_if g k (release (s.gens k)).1 s.closers)

reload-GenInv : (s : Server) (g : ℕ) → GenInv s g → GenInv (reload s) g
unfolding reload
reload-GenInv s g v = ground arith

retire-GenInv :
    (s : Server) (g i k : ℕ) → get_elem? s.retired i ≡ some k → GenInv s g → GenInv (retire i k s) g
unfolding retire mark_closing
retire-GenInv s g i k at v = ground (arith, count-take_out g k s.retired i at)

wake-GenInv :
    (s : Server) (g i k : ℕ) → get_elem? s.timers i ≡ some k → GenInv s g → GenInv (wake i k s) g
unfolding wake after_floor
wake-GenInv s g i k at v =
    ground (
      arith,
      count-take_out g k s.timers i at,
      count-push_if g k (after_floor (s.gens k)) s.closers,
    )

start_close-GenInv :
    (s : Server) (g i k : ℕ)
    → get_elem? s.closers i ≡ some k
    → GenInv s g
    → GenInv (start_close i k s) g
unfolding start_close begin_close
start_close-GenInv s g i k at v = ground (
  arith,
  count-take_out g k s.closers i at,
  count-push_if g k (begin_close (s.gens k)).1 s.draining,
)

stop_close-GenInv :
    (s : Server) (g i k : ℕ)
    → get_elem? s.draining i ≡ some k
    → GenInv s g
    → GenInv (stop_close i k s) g
unfolding stop_close end_close
stop_close-GenInv s g i k at v =
    ground (arith, count-take_out g k s.draining i at, is_live-remove g k s.live)

shutdown-GenInv : (s : Server) (g : ℕ) → GenInv s g → GenInv (record s { stopped = true }) g
shutdown-GenInv s g v = ground arith

expire-GenInv :
    (s : Server) (g : ℕ) → s.stopped ≡ true → GenInv s g → GenInv (record s { deadline = true }) g
expire-GenInv s g h v = ground arith

non_positive_pos : (n : ℕ) → non_positive (pos n) ≡ true → n ≡ 0
non_positive_pos zero h = refl
non_positive_pos (suc n) h = cc

close_all-GenInv :
    (s : Server) (g k : ℕ)
    → s.stopped ≡ true
    → is_live k s.live ≡ true
    → (non_positive (in_flight (s.gens k)) || s.deadline) ≡ true
    → GenInv s k
    → GenInv s g
    → GenInv (record s { closers = k ∷ s.closers }) g
unfolding in_flight
close_all-GenInv s g k h l w vk v =
    ground (arith, non_positive_pos (count k s.holders), v.registered, v.unborn)

pub Step-GenInv : {s t : Server} → Step s t → ((g : ℕ) → GenInv s g) → (g : ℕ) → GenInv t g
Step-GenInv {s} (serves h) v g = serve-GenInv s g h (v g)
Step-GenInv {s} (finishes i k at) v g = finish-GenInv s g i k at (v g)
Step-GenInv {s} reloads v g = reload-GenInv s g (v g)
Step-GenInv {s} (retires i k at) v g = retire-GenInv s g i k at (v g)
Step-GenInv {s} (wakes i k at) v g = wake-GenInv s g i k at (v g)
Step-GenInv {s} (starts_close i k at) v g = start_close-GenInv s g i k at (v g)
Step-GenInv {s} (stops_close i k at) v g = stop_close-GenInv s g i k at (v g)
Step-GenInv {s} stops v g = shutdown-GenInv s g (v g)
Step-GenInv {s} (expires h) v g = expire-GenInv s g h (v g)
Step-GenInv {s} (closes_all k h l w) v g = close_all-GenInv s g k h l w (v k) (v g)

first_server-GenInv : (g : ℕ) → GenInv first_server g
unfolding first_server
first_server-GenInv g = ground arith

pub Reach-GenInv : {s : Server} → Reach first_server s → (g : ℕ) → GenInv s g
Reach-GenInv here = first_server-GenInv
Reach-GenInv (next r st) = Step-GenInv st (Reach-GenInv r)
