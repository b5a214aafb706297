-- ===== src/Server/Generation/System.antt =====
-- The server's generations and the goroutines that hold, retire and close them, step by step. A
-- generation's number stands for its pointer. Each list has an entry for each goroutine that stands
-- at one place of the code. closeAll's own removal of a generation from the
-- registry is left out: closeNow removes what it has closed.
use tilegroxy.Base.{
  ℕ, zero, suc, Bool, true, false, ◌||◌, List, [], ◌∷◌, some, ◌≡◌, if◌then◌else◌, ◌==◌, get_elem?,
}
use tilegroxy.Server.Generation.{
  Generation, new_generation, non_positive, acquire, release, mark_closing, after_floor,
  begin_close, end_close, in_flight,
}

pub record Server : Type 0 where
  pub gens : ℕ → Generation
  -- the number of the next generation
  pub fresh : ℕ
  -- h.entities.gen
  pub current : ℕ
  -- the registry
  pub live : List ℕ
  -- requests in flight
  pub holders : List ℕ
  -- reloads between the swap of the pointer and markClosing
  pub retired : List ℕ
  -- goroutines of markClosing that sleep
  pub timers : List ℕ
  -- goroutines about to call closeNow
  pub closers : List ℕ
  -- goroutines inside all.Close
  pub draining : List ℕ
  -- shutdown has begun: the HTTP server takes no request
  pub stopped : Bool
  -- the shutdown's context is done
  pub deadline : Bool

abbrev pub put : (ℕ → Generation) → ℕ → Generation → ℕ → Generation
put gens g x k = if g == k then x else gens k

abbrev pub take_out : List ℕ → ℕ → List ℕ
take_out [] i = []
take_out (x ∷ xs) zero = xs
take_out (x ∷ xs) (suc i) = x ∷ take_out xs i

-- delete(r.live, g)
abbrev pub remove : ℕ → List ℕ → List ℕ
remove g [] = []
remove g (x ∷ xs) = if x == g then remove g xs else x ∷ remove g xs

-- The list with one entry more, if the test holds.
abbrev pub push_if : Bool → ℕ → List ℕ → List ℕ
push_if true g xs = g ∷ xs
push_if false g xs = xs

abbrev pub is_live : ℕ → List ℕ → Bool
is_live g [] = false
is_live g (x ∷ xs) = x == g || is_live g xs

-- setupHandlers makes and registers the first generation.
unfoldable pub first_server : Server
first_server = record {
  gens = λ _. new_generation;
  fresh = 1;
  current = 0;
  live = 0 ∷ [];
  holders = [];
  retired = [];
  timers = [];
  closers = [];
  draining = [];
  stopped = false;
  deadline = false;
}

-- ServeHTTP reads the pointer and acquires under one lock.
unfoldable pub serve : Server → Server
serve s = record s {
  gens = put s.gens s.current (acquire (s.gens s.current));
  holders = s.current ∷ s.holders;
}

-- The deferred release of a request, for the entry `i` of the holders.
unfoldable pub finish : ℕ → ℕ → Server → Server
finish i g s =
    let r = release (s.gens g) in
    record s {
      gens = put s.gens g r.0;
      holders = take_out s.holders i;
      closers = push_if r.1 g s.closers;
    }

-- The reload: a new generation, registered, takes the place of the current one.
unfoldable pub reload : Server → Server
reload s = record s {
  gens = put s.gens s.fresh new_generation;
  fresh = suc s.fresh;
  live = s.fresh ∷ s.live;
  current = s.fresh;
  retired = s.current ∷ s.retired;
}

-- markClosing, up to its sleep.
unfoldable pub retire : ℕ → ℕ → Server → Server
retire i g s = record s {
  gens = put s.gens g (mark_closing (s.gens g));
  retired = take_out s.retired i;
  timers = g ∷ s.timers;
}

-- markClosing, after its sleep.
unfoldable pub wake : ℕ → ℕ → Server → Server
wake i g s = record s {
  timers = take_out s.timers i;
  closers = push_if (after_floor (s.gens g)) g s.closers;
}

-- closeNow up to all.Close; a caller that finds it closed only waits and returns.
unfoldable pub start_close : ℕ → ℕ → Server → Server
start_close i g s =
    let r = begin_close (s.gens g) in
    record s {
      gens = put s.gens g r.0;
      closers = take_out s.closers i;
      draining = push_if r.1 g s.draining;
    }

-- closeNow from the return of all.Close: it signals done and calls onClosed.
unfoldable pub stop_close : ℕ → ℕ → Server → Server
stop_close i g s = record s {
  gens = put s.gens g (end_close (s.gens g));
  draining = take_out s.draining i;
  live = remove g s.live;
}

pub data Step (s : Server) : Server → Type 0 where
  serves : s.stopped ≡ false → Step s (serve s)
  finishes : (i g : ℕ) → get_elem? s.holders i ≡ some g → Step s (finish i g s)
  reloads : Step s (reload s)
  retires : (i g : ℕ) → get_elem? s.retired i ≡ some g → Step s (retire i g s)
  wakes : (i g : ℕ) → get_elem? s.timers i ≡ some g → Step s (wake i g s)
  starts_close : (i g : ℕ) → get_elem? s.closers i ≡ some g → Step s (start_close i g s)
  stops_close : (i g : ℕ) → get_elem? s.draining i ≡ some g → Step s (stop_close i g s)
  stops : Step s (record s { stopped = true })
  expires : s.stopped ≡ true → Step s (record s { deadline = true })
  -- closeAll, for a live generation that waitForIdle has waited for
  closes_all :
      (g : ℕ)
      → s.stopped ≡ true
      → is_live g s.live ≡ true
      → (non_positive (in_flight (s.gens g)) || s.deadline) ≡ true
      → Step s (record s { closers = g ∷ s.closers })

pub data Reach (s : Server) : Server → Type 0 where
  here : Reach s s
  next : {t u : Server} → Reach s t → Step t u → Reach s u
