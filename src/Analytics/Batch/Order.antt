-- ===== src/Analytics/Batch/Order.antt =====
-- One worker, as by default, writes the events in the order in which they were queued.
use tilegroxy.Base.{
  ℕ, suc, zero, Bool, true, false, List, [], ◌∷◌, ◌++◌, some, ◌≡◌, refl, sym, length, get_elem?,
  set, arith, ltb, append_assoc, append-nil,
}
use tilegroxy.Analytics.Batch.{
  BatchConfig, Worker, Log, Batcher, new_batcher, idle_worker, idle_workers, draining, enqueue, add,
  do_flush, receive, tick, drain, finish, seal,
}
use tilegroxy.Analytics.Batch.Steps.{
  Step, adds, sends, cancels, stops, receives, ticks, is_done, drains, finishes, seals, Reach, here,
  next,
}

module _ {E : Type 0} where
  -- The events of the batches, one batch after the other.
  pub flatten : List (List E) → List E
  flatten [] = []
  flatten (es ∷ bs) = es ++ flatten bs

  flatten-append : (bs : List (List E)) (es : List E) → flatten (bs ++ es ∷ []) ≡ flatten bs ++ es
  unfolding flatten
  flatten-append [] es = append-nil es
  flatten-append (b ∷ bs) es = simp (flatten-append bs, append_assoc)

  do_flush-flatten :
      (ok : Bool) (es : List E) (log : Log E)
      → flatten (do_flush ok es log).batches ≡ flatten log.batches ++ es
  unfolding do_flush
  do_flush-flatten ok [] log = sym (append-nil (flatten log.batches))
  do_flush-flatten true (e ∷ es) log = flatten-append log.batches (e ∷ es)
  do_flush-flatten false (e ∷ es) log = flatten-append log.batches (e ∷ es)

  -- What a worker wrote and then holds.
  abbrev written : Worker E × Log E → List E
  written r = flatten r.1.batches ++ r.0.buf

  receive-written :
      (c : BatchConfig) (now : ℕ) (ok : Bool) (e : E) (v : Worker E) (log : Log E)
      → written (receive c now ok e v log) ≡ written (v, log) ++ e ∷ []
  unfolding receive
  receive-written c now ok e v log = ground (
    arith,
    do_flush-flatten ok (v.buf ++ e ∷ []) log,
    append-nil (flatten (do_flush ok (v.buf ++ e ∷ []) log).batches),
    append_assoc (flatten log.batches) v.buf (e ∷ []),
  )

  drain-written :
      (c : BatchConfig) (ok : Bool) (e : E) (v : Worker E) (log : Log E)
      → written (drain c ok e v log) ≡ written (v, log) ++ e ∷ []
  unfolding drain
  drain-written c ok e v log = ground (
    arith,
    do_flush-flatten ok (v.buf ++ e ∷ []) log,
    append-nil (flatten (do_flush ok (v.buf ++ e ∷ []) log).batches),
    append_assoc (flatten log.batches) v.buf (e ∷ []),
  )

  tick-written :
      (c : BatchConfig) (now : ℕ) (ok : Bool) (v : Worker E) (log : Log E)
      → written (tick c now ok v log) ≡ written (v, log)
  unfolding tick
  tick-written c now ok v log =
      ground
        (arith, do_flush-flatten ok v.buf log, append-nil (flatten (do_flush ok v.buf log).batches))

  nil_of_short : (es : List E) → ltb 0 (length es) ≡ false → es ≡ []
  nil_of_short [] h = refl
  nil_of_short (e ∷ es) h = ground arith

  finish-written :
      (ok : Bool) (v : Worker E) (log : Log E) → written (finish ok v log) ≡ written (v, log)
  unfolding finish
  finish-written ok v log = ground (
    arith,
    do_flush-flatten ok v.buf log,
    nil_of_short v.buf,
    append-nil (flatten (do_flush ok v.buf log).batches),
  )

  -- The one worker wrote and holds the first of the accepted events, and the queue has the others.
  abbrev pub IsOrdered : Batcher E → Type 0
  IsOrdered b = (v : Worker E) × (b.workers ≡ v ∷ []) × (b.accepted ≡ written (v, b.log) ++ b.queue)

  -- A turn of the one worker.
  put_worker-IsOrdered :
      (b : Batcher E) (i : ℕ) (v : Worker E) (r : Worker E × Log E) (q : List E)
      → get_elem? b.workers i ≡ some v
      → (written (v, b.log) ++ b.queue ≡ written r ++ q)
      → IsOrdered b
      → IsOrdered (record b { queue = q; workers = set b.workers i r.0; log = r.1 })
  put_worker-IsOrdered b zero v r q at e (u, one, h) = (r.0, ground arith, ground arith)
  put_worker-IsOrdered b (suc i) v r q at e (u, one, h) = absurd (ground arith)

  Step-IsOrdered : {b c : Batcher E} → Step b c → IsOrdered b → IsOrdered c
  unfolding add enqueue seal
  Step-IsOrdered {b} (adds now e) (v, one, h) =
      (v, ground arith, ground (arith, append_assoc (written (v, b.log)) b.queue (e ∷ [])))
  Step-IsOrdered {b} (sends i e _ _) (v, one, h) =
      (v, one, ground (arith, append_assoc (written (v, b.log)) b.queue (e ∷ [])))
  Step-IsOrdered (cancels i e _) h = h
  Step-IsOrdered (stops i e _ _) h = h
  Step-IsOrdered {b} (receives i now ok e q v at _ eq) h =
      put_worker-IsOrdered b i v (receive b.cfg now ok e v b.log) q at
        (ground (
          arith,
          receive-written b.cfg now ok e v b.log,
          append_assoc (written (v, b.log)) (e ∷ []) q,
        ))
        h
  Step-IsOrdered {b} (ticks i now ok v at _) h =
      put_worker-IsOrdered b i v (tick b.cfg now ok v b.log) b.queue at
        (cc (tick-written b.cfg now ok v b.log)) h
  Step-IsOrdered {b} (is_done i v at _ _) h =
      put_worker-IsOrdered b i v (record v { phase = draining }, b.log) b.queue at refl h
  Step-IsOrdered {b} (drains i ok e q v at _ eq) h =
      put_worker-IsOrdered b i v (drain b.cfg ok e v b.log) q at
        (ground
          (arith, drain-written b.cfg ok e v b.log, append_assoc (written (v, b.log)) (e ∷ []) q))
        h
  Step-IsOrdered {b} (finishes i ok v at _ _) h =
      put_worker-IsOrdered b i v (finish ok v b.log) b.queue at (cc (finish-written ok v b.log)) h
  Step-IsOrdered (seals _) h = h

  -- With one worker, the flushed batches, then the worker's buffer, then the queue are the accepted
  -- events in the order in which Add queued them.
  pub Reach-IsOrdered :
      (c : BatchConfig) {b : Batcher E} → c.workers ≡ 1 → Reach (new_batcher c) b → IsOrdered b
  unfolding new_batcher idle_workers flatten
  Reach-IsOrdered c one here = (idle_worker, rw one refl, refl)
  Reach-IsOrdered c one (next r s) = Step-IsOrdered s (Reach-IsOrdered c one r)
