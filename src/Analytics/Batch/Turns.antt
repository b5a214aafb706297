-- ===== src/Analytics/Batch/Turns.antt =====
-- The invariant of a Batcher, and that each turn of a worker keeps its part of it.
use tilegroxy.Base.{
  ℕ, ◌+◌, ◌<◌, ◌≤◌, Bool, true, false, List, [], ◌∷◌, ◌++◌, ◌≡◌, ◌≢◌, refl, length, arith, ltb, leb,
  ◌*◌, ◌&&◌, All, All-append, All-set, All-map, length-append, Bool-cases, inl, inr,
}
use tilegroxy.Analytics.Batch.{
  BatchConfig, Phase, serving, draining, exited, Worker, Log, Batcher, do_flush, receive, tick,
  drain, finish, second,
}
use tilegroxy.Analytics.Batch.Steps.{put_worker}
use tilegroxy.Analytics.Batch.Conserve.{total, flushed, flushed-append}

contrary : {done : Bool} → done ≡ true → done ≡ false → ⊥
contrary h h' = cc

pub serving-ne-exited : {p : Phase} → p ≡ serving → p ≢ exited
serving-ne-exited h x = cc

pub draining-ne-exited : {p : Phase} → p ≡ draining → p ≢ exited
draining-ne-exited h x = cc

module _ {E : Type 0} where
  nil_of_shorter : (q q' : List E) → length q ≤ length q' → q' ≡ [] → q ≡ []
  nil_of_shorter [] q' h e = refl
  nil_of_shorter (x ∷ q) [] h e = absurd (omega arith)
  nil_of_shorter (x ∷ q) (y ∷ q') h e = cc

  -- A batch is not empty and not longer than MaxSize.
  abbrev pub IsSized : ℕ → List (List E) → Type 0
  IsSized n = All (λ es. (0 < length es) × (length es ≤ n))

  do_flush-IsSized :
      (n : ℕ) (ok : Bool) (es : List E) (log : Log E)
      → length es ≤ n
      → IsSized n log.batches
      → IsSized n (do_flush ok es log).batches
  unfolding do_flush
  do_flush-IsSized n ok [] log h s = s
  do_flush-IsSized n true (e ∷ es) log h s = All-append _ log.batches _ s ((omega arith, h), tt)
  do_flush-IsSized n false (e ∷ es) log h s = All-append _ log.batches _ s ((omega arith, h), tt)

  -- Both counters of a log together count the events of its batches.
  abbrev pub IsCounted : Log E → Type 0
  IsCounted log = log.recorded + log.errors ≡ flushed (λ _. 1) log.batches

  pub total_one : (es : List E) → total (λ _. 1) es ≡ length es
  total_one [] = refl
  total_one (e ∷ es) = omega (arith, total_one es)

  do_flush-IsCounted :
      (ok : Bool) (es : List E) (log : Log E) → IsCounted log → IsCounted (do_flush ok es log)
  unfolding do_flush
  do_flush-IsCounted ok [] log h = h
  do_flush-IsCounted ok (e ∷ es) log h =
      ground (arith, flushed-append (λ _. 1) log.batches (e ∷ es), total_one (e ∷ es))

  -- A worker that has returned holds nothing and left nothing on the queue; only one that was told
  -- to stop drains; a buffer is shorter than a batch may be.
  abbrev pub WorkerInv : BatchConfig → List E → Bool → Worker E → Type 0
  WorkerInv c queue done v =
      (v.phase ≡ exited → (v.buf ≡ []) × (queue ≡ []))
      × (v.phase ≢ serving → done ≡ true)
      × (length v.buf < c.max_size)

  pub record Inv (b : Batcher E) : Type 0 where
    pub positive : 0 < b.cfg.max_size
    pub closed_done : b.closed ≡ b.done
    pub quiet : b.closed ≡ true → b.parked ≡ []
    pub bounded : length b.queue ≤ b.cfg.queue_size
    pub sized : IsSized b.cfg.max_size b.log.batches
    pub counted : IsCounted b.log
    pub all_workers : All (WorkerInv b.cfg b.queue b.done) b.workers

  -- Another queue under the same workers: if the old queue is empty, so is the new one.
  other_queue :
      (c : BatchConfig) (q q' : List E) (done : Bool) (ws : List (Worker E))
      → (q ≡ [] → q' ≡ [])
      → All (WorkerInv c q done) ws
      → All (WorkerInv c q' done) ws
  other_queue c q q' done ws f =
      All-map (WorkerInv c q done) ws (λ v h. ((λ e. ((h.0 e).0, f (h.0 e).1)), h.1, h.2))

  -- While the batcher is open every worker serves, so the queue may grow.
  pub open-All :
      (c : BatchConfig) (q q' : List E) (done : Bool) (ws : List (Worker E))
      → done ≡ false
      → All (WorkerInv c q done) ws
      → All (WorkerInv c q' done) ws
  open-All c q q' done ws d =
      All-map (WorkerInv c q done) ws
        (λ v h. ((λ e. absurd (contrary (h.1 (λ e'. cc)) d)), h.1, h.2))

  pub seal-All :
      (c : BatchConfig) (q : List E) (done : Bool) (ws : List (Worker E))
      → All (WorkerInv c q done) ws
      → All (WorkerInv c q true) ws
  seal-All c q done ws = All-map (WorkerInv c q done) ws (λ v h. (h.0, (λ _. refl), h.2))

  -- What a turn of a worker has to leave, to keep the invariant.
  pub record Turn (c : BatchConfig) (queue : List E) (done : Bool) (r : Worker E × Log E)
      : Type 0 where
    pub worker : WorkerInv c queue done r.0
    pub sized : IsSized c.max_size r.1.batches
    pub counted : IsCounted r.1

  pub put_worker-Inv :
      (b : Batcher E) (i : ℕ) (r : Worker E × Log E) (q : List E)
      → Inv b
      → length q ≤ length b.queue
      → Turn b.cfg q b.done r
      → Inv (put_worker i r (record b { queue = q }))
  put_worker-Inv b i r q h le t = record {
    positive = h.positive;
    closed_done = h.closed_done;
    quiet = h.quiet;
    bounded = omega arith;
    sized = t.sized;
    counted = t.counted;
    all_workers =
        All-set (WorkerInv b.cfg q b.done) b.workers i r.0
          (other_queue b.cfg b.queue q b.done b.workers (nil_of_shorter q b.queue le) h.all_workers)
          t.worker;
  }

  -- The buffer with one event more, flushed if it is full.
  module _ (c : BatchConfig) (ok : Bool) (e : E) (q : List E) (done : Bool) (v : Worker E)
      (log : Log E) (pos : 0 < c.max_size) (inv : WorkerInv c (e ∷ q) done v)
      (s : IsSized c.max_size log.batches) (k : IsCounted log) (ne : v.phase ≢ exited) where
    full_buf : length (v.buf ++ e ∷ []) ≤ c.max_size
    full_buf = omega (arith, length-append v.buf (e ∷ []), inv.2)

    pub receive-Turn : (now : ℕ) → Turn c q done (receive c now ok e v log)
    unfolding receive
    receive-Turn now = elim (Bool-cases (leb c.max_size (length (v.buf ++ e ∷ [])))) [
      | inl full ↦ rw full (record {
        worker = ((λ x. absurd (ne x)), inv.1, pos);
        sized = do_flush-IsSized c.max_size ok (v.buf ++ e ∷ []) log full_buf s;
        counted = do_flush-IsCounted ok (v.buf ++ e ∷ []) log k;
      })
      | inr more ↦
          rw more (record {
            worker = ((λ x. absurd (ne x)), inv.1, ground arith);
            sized = s;
            counted = k;
          })
    ]

    pub drain-Turn : Turn c q done (drain c ok e v log)
    unfolding drain
    drain-Turn = elim (Bool-cases (leb c.max_size (length (v.buf ++ e ∷ [])))) [
      | inl full ↦ rw full (record {
        worker = ((λ x. absurd (ne x)), inv.1, pos);
        sized = do_flush-IsSized c.max_size ok (v.buf ++ e ∷ []) log full_buf s;
        counted = do_flush-IsCounted ok (v.buf ++ e ∷ []) log k;
      })
      | inr more ↦
          rw more (record {
            worker = ((λ x. absurd (ne x)), inv.1, ground arith);
            sized = s;
            counted = k;
          })
    ]

  -- The buffer as it is, flushed for its age or because the worker returns.
  module _ (c : BatchConfig) (ok : Bool) (q : List E) (done : Bool) (v : Worker E) (log : Log E)
      (pos : 0 < c.max_size) (inv : WorkerInv c q done v) (s : IsSized c.max_size log.batches)
      (k : IsCounted log) (ne : v.phase ≢ exited) where
    flushed_buf : IsSized c.max_size (do_flush ok v.buf log).batches
    flushed_buf = do_flush-IsSized c.max_size ok v.buf log (omega (arith, inv.2)) s

    pub tick-Turn : (now : ℕ) → Turn c q done (tick c now ok v log)
    unfolding tick
    tick-Turn now =
        elim (Bool-cases (ltb 0 (length v.buf) && leb (v.oldest + c.max_age * second) now)) [
          | inl old ↦ rw old (record {
            worker = ((λ x. absurd (ne x)), inv.1, pos);
            sized = flushed_buf;
            counted = do_flush-IsCounted ok v.buf log k;
          })
          | inr young ↦ rw young (record { worker = inv; sized = s; counted = k })
        ]

    pub finish-Turn : q ≡ [] → done ≡ true → Turn c q done (finish ok v log)
    unfolding finish
    finish-Turn e d = elim (Bool-cases (ltb 0 (length v.buf))) [
      | inl some_left ↦ rw some_left (record {
        worker = ((λ _. (refl, e)), (λ _. d), pos);
        sized = flushed_buf;
        counted = do_flush-IsCounted ok v.buf log k;
      })
      | inr none_left ↦
          rw none_left
            (record { worker = ((λ _. (refl, e)), (λ _. d), pos); sized = s; counted = k })
    ]
