-- ===== src/Analytics/Batch/Conserve.antt =====
-- No event that was put on the queue is lost, repeated or made up. Two lists hold the same events,
-- as often, if they have the same total under every weight.
use tilegroxy.Base.{
  ℕ, suc, zero, ◌+◌, Bool, false, List, [], ◌∷◌, ◌++◌, some, ◌≡◌, refl, length, get_elem?, set,
  arith, ltb,
}
use tilegroxy.Analytics.Batch.{
  BatchConfig, Worker, Log, Batcher, new_batcher, idle_workers, enqueue, add, do_flush, receive,
  tick, drain, finish, seal,
}
use tilegroxy.Analytics.Batch.Steps.{
  Step, adds, sends, cancels, stops, receives, ticks, is_done, drains, finishes, seals, Reach, here,
  next,
}

module _ {E : Type 0} where
  abbrev pub total : (E → ℕ) → List E → ℕ
  total w [] = 0
  total w (e ∷ es) = w e + total w es

  abbrev pub buffered : (E → ℕ) → List (Worker E) → ℕ
  buffered w [] = 0
  buffered w (v ∷ vs) = total w v.buf + buffered w vs

  abbrev pub flushed : (E → ℕ) → List (List E) → ℕ
  flushed w [] = 0
  flushed w (es ∷ bs) = total w es + flushed w bs

  pub total-append : (w : E → ℕ) (xs ys : List E) → total w (xs ++ ys) ≡ total w xs + total w ys
  total-append w [] ys = omega arith
  total-append w (x ∷ xs) ys = omega (arith, total-append w xs ys)

  pub flushed-append :
      (w : E → ℕ) (bs : List (List E)) (es : List E)
      → flushed w (bs ++ es ∷ []) ≡ flushed w bs + total w es
  flushed-append w [] es = omega arith
  flushed-append w (b ∷ bs) es = omega (arith, flushed-append w bs es)

  buffered-set :
      (w : E → ℕ) (vs : List (Worker E)) (i : ℕ) (v v' : Worker E)
      → get_elem? vs i ≡ some v
      → buffered w (set vs i v') + total w v.buf ≡ buffered w vs + total w v'.buf
  buffered-set w [] i v v' h = cc
  buffered-set w (u ∷ vs) zero v v' h = ground arith
  buffered-set w (u ∷ vs) (suc i) v v' h = omega (arith, buffered-set w vs i v v' h)

  pub do_flush-flushed :
      (w : E → ℕ) (ok : Bool) (es : List E) (log : Log E)
      → flushed w (do_flush ok es log).batches ≡ flushed w log.batches + total w es
  unfolding do_flush
  do_flush-flushed w ok [] log = omega arith
  do_flush-flushed w ok (e ∷ es) log = ground (arith, flushed-append w log.batches (e ∷ es))

  -- The events that a worker holds or has flushed, after one turn of its loop.
  abbrev held : (E → ℕ) → Worker E × Log E → ℕ
  held w r = total w r.0.buf + flushed w r.1.batches

  receive-held :
      (w : E → ℕ) (c : BatchConfig) (now : ℕ) (ok : Bool) (e : E) (v : Worker E) (log : Log E)
      → held w (receive c now ok e v log) ≡ held w (v, log) + w e
  unfolding receive
  receive-held w c now ok e v log =
      ground (arith, do_flush-flushed w ok (v.buf ++ e ∷ []) log, total-append w v.buf (e ∷ []))

  drain-held :
      (w : E → ℕ) (c : BatchConfig) (ok : Bool) (e : E) (v : Worker E) (log : Log E)
      → held w (drain c ok e v log) ≡ held w (v, log) + w e
  unfolding drain
  drain-held w c ok e v log =
      ground (arith, do_flush-flushed w ok (v.buf ++ e ∷ []) log, total-append w v.buf (e ∷ []))

  tick-held :
      (w : E → ℕ) (c : BatchConfig) (now : ℕ) (ok : Bool) (v : Worker E) (log : Log E)
      → held w (tick c now ok v log) ≡ held w (v, log)
  unfolding tick
  tick-held w c now ok v log = ground (arith, do_flush-flushed w ok v.buf log)

  total_of_short : (w : E → ℕ) (es : List E) → ltb 0 (length es) ≡ false → total w es ≡ 0
  total_of_short w [] h = refl
  total_of_short w (e ∷ es) h = ground arith

  finish-held :
      (w : E → ℕ) (ok : Bool) (v : Worker E) (log : Log E)
      → held w (finish ok v log) ≡ held w (v, log)
  unfolding finish
  finish-held w ok v log = ground (arith, do_flush-flushed w ok v.buf log, total_of_short w v.buf)

  -- Every accepted event is on the queue, in a worker's buffer or in a batch that was flushed.
  abbrev pub IsConserved : Batcher E → Type 0
  IsConserved b =
      (w : E → ℕ)
      → total w b.accepted ≡ total w b.queue + buffered w b.workers + flushed w b.log.batches

  Step-IsConserved : {b c : Batcher E} → Step b c → IsConserved b → IsConserved c
  unfolding add enqueue seal
  Step-IsConserved {b} (adds now e) h w =
      ground (arith, h w, total-append w b.queue (e ∷ []), total-append w b.accepted (e ∷ []))
  Step-IsConserved {b} (sends i e _ _) h w =
      omega (arith, h w, total-append w b.queue (e ∷ []), total-append w b.accepted (e ∷ []))
  Step-IsConserved (cancels i e _) h w = h w
  Step-IsConserved (stops i e _ _) h w = h w
  Step-IsConserved {b} (receives i now ok e q v at _ eq) h w =
      let r = receive b.cfg now ok e v b.log in
      ground
        (arith, h w, receive-held w b.cfg now ok e v b.log, buffered-set w b.workers i v r.0 at)
  Step-IsConserved {b} (ticks i now ok v at _) h w =
      let r = tick b.cfg now ok v b.log in
      omega (arith, h w, tick-held w b.cfg now ok v b.log, buffered-set w b.workers i v r.0 at)
  Step-IsConserved {b} (is_done i v at _ _) h w =
      omega (arith, h w, buffered-set w b.workers i v _ at)
  Step-IsConserved {b} (drains i ok e q v at _ eq) h w =
      let r = drain b.cfg ok e v b.log in
      ground (arith, h w, drain-held w b.cfg ok e v b.log, buffered-set w b.workers i v r.0 at)
  Step-IsConserved {b} (finishes i ok v at _ _) h w =
      let r = finish ok v b.log in
      omega (arith, h w, finish-held w ok v b.log, buffered-set w b.workers i v r.0 at)
  Step-IsConserved (seals _) h w = h w

  buffered-idle_workers : (w : E → ℕ) (n : ℕ) → buffered w (idle_workers n) ≡ 0
  unfolding idle_workers
  buffered-idle_workers w zero = refl
  buffered-idle_workers w (suc n) = omega (arith, buffered-idle_workers w n)

  -- At every moment, whatever the callers and the workers have done, each event that Add put on the
  -- queue stands exactly once on the queue, in a worker's buffer or in a flushed batch.
  pub Reach-IsConserved :
      (c : BatchConfig) {b : Batcher E} → Reach (new_batcher c) b → IsConserved b
  unfolding new_batcher
  Reach-IsConserved c here = λ w. omega (arith, buffered-idle_workers w c.workers)
  Reach-IsConserved c (next r s) = Step-IsConserved s (Reach-IsConserved c r)
