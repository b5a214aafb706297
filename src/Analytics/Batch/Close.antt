-- ===== src/Analytics/Batch/Close.antt =====
-- What the fields of a Batcher say at every moment, and what Close leaves when the workers are done.
use tilegroxy.Base.{
  ap, subst, ℕ, suc, zero, ◌+◌, ◌<◌, Bool, true, false, List, [], ◌∷◌, ◌++◌, some, ◌≡◌, refl, sym,
  ◌∙◌, length, get_elem?, arith, All, All-get_elem?, length-append, Bool-cases, inl, inr,
}
use tilegroxy.Analytics.Batch.{
  BatchConfig, exited, Worker, Batcher, new_batcher, idle_workers, enqueue, add, seal, has_room,
}
use tilegroxy.Analytics.Batch.Steps.{
  Step, erase_idx, adds, sends, cancels, stops, receives, ticks, is_done, drains, finishes, seals,
  Reach, here, next,
}
use tilegroxy.Analytics.Batch.Turns.{
  Inv, WorkerInv, put_worker-Inv, receive-Turn, drain-Turn, tick-Turn, finish-Turn, open-All,
  seal-All, serving-ne-exited, draining-ne-exited, total_one,
}
use tilegroxy.Analytics.Batch.Conserve.{total, buffered, flushed, Reach-IsConserved}

erase_idx-nil : {A : Type 0} (xs : List A) (i : ℕ) → xs ≡ [] → erase_idx xs i ≡ []
erase_idx-nil [] i e = refl
erase_idx-nil (x ∷ xs) i e = cc

idle_workers-All :
    (E : Type 0) (c : BatchConfig) (n : ℕ)
    → 0 < c.max_size
    → All (WorkerInv c [] false) (idle_workers {E = E} n)
unfolding idle_workers
idle_workers-All E c zero h = tt
idle_workers-All E c (suc n) h =
    (((λ x. cc), (λ ne. absurd (ne refl)), h), idle_workers-All E c n h)

module _ {E : Type 0} where
  worker_at :
      {b : Batcher E}
      → Inv b
      → (i : ℕ) (v : Worker E) → get_elem? b.workers i ≡ some v
      → WorkerInv b.cfg b.queue b.done v
  worker_at {b} h i v at =
      All-get_elem? (WorkerInv b.cfg b.queue b.done) b.workers i v h.all_workers at

  enqueue-Inv :
      {b : Batcher E} → (e : E) → Inv b → b.closed ≡ false → has_room b ≡ true → Inv (enqueue e b)
  unfolding enqueue has_room
  enqueue-Inv {b} e h not_closed room = record {
    positive = h.positive;
    closed_done = h.closed_done;
    quiet = h.quiet;
    bounded = ground (arith, length-append b.queue (e ∷ []));
    sized = h.sized;
    counted = h.counted;
    all_workers =
        open-All b.cfg b.queue (b.queue ++ e ∷ []) b.done b.workers (sym h.closed_done ∙ not_closed)
          h.all_workers;
  }

  unpark-Inv : {b : Batcher E} → (i : ℕ) → Inv b → Inv (record b { parked = erase_idx b.parked i })
  unpark-Inv {b} i h = record {
    positive = h.positive;
    closed_done = h.closed_done;
    quiet = λ c. erase_idx-nil b.parked i (h.quiet c);
    bounded = h.bounded;
    sized = h.sized;
    counted = h.counted;
    all_workers = h.all_workers;
  }

  -- A call of Add that waits keeps the batcher open.
  waiting_open :
      {b : Batcher E} → Inv b → (i : ℕ) (e : E) → get_elem? b.parked i ≡ some e → b.closed ≡ false
  waiting_open {b} h i e at = elim (Bool-cases b.closed) [
    | inl c ↦ absurd (nothing_at b.parked i e (h.quiet c) at)
    | inr o ↦ o
  ]
    where
      nothing_at : (xs : List E) (i : ℕ) (e : E) → xs ≡ [] → get_elem? xs i ≡ some e → ⊥
      nothing_at [] i e n at = cc
      nothing_at (x ∷ xs) i e n at = cc

  add-Inv : {b : Batcher E} (now : ℕ) (e : E) → Inv b → Inv (add now e b).0
  unfolding add
  add-Inv {b} now e h =
      let grown = open-All b.cfg b.queue (b.queue ++ e ∷ []) b.done b.workers in
      let longer = length-append b.queue (e ∷ []) in
      record {
        positive = ground arith;
        closed_done = ground arith;
        quiet = ground arith;
        bounded = ground arith;
        sized = ground arith;
        counted = ground arith;
        all_workers = ground arith;
      }

  Step-Inv : {b c : Batcher E} → Step b c → Inv b → Inv c
  unfolding seal
  Step-Inv {b} (adds now e) h = add-Inv now e h
  Step-Inv {b} (sends i e at room) h =
      enqueue-Inv e (unpark-Inv i h) (waiting_open h i e at) (unfold has_room in room)
  Step-Inv (cancels i e at) h = unpark-Inv i h
  Step-Inv (stops i e at d) h = unpark-Inv i h
  Step-Inv {b} (receives i now ok e q v at p eq) h =
      put_worker-Inv b i _ q h (omega (arith, ap length eq)) (
        receive-Turn b.cfg ok e q b.done v b.log h.positive
          (subst (λ q'. WorkerInv b.cfg q' b.done v) eq (worker_at h i v at)) h.sized h.counted
          (serving-ne-exited p) now)
  Step-Inv {b} (ticks i now ok v at p) h = put_worker-Inv b i _ b.queue h (omega arith) (
      tick-Turn b.cfg ok b.queue b.done v b.log h.positive (worker_at h i v at) h.sized h.counted
        (serving-ne-exited p) now)
  Step-Inv {b} (is_done i v at p d) h = put_worker-Inv b i _ b.queue h (omega arith) (record {
    worker = ((λ x. cc), (λ _. d), (worker_at h i v at).2);
    sized = h.sized;
    counted = h.counted;
  })
  Step-Inv {b} (drains i ok e q v at p eq) h =
      put_worker-Inv b i _ q h (omega (arith, ap length eq)) (
        drain-Turn b.cfg ok e q b.done v b.log h.positive
          (subst (λ q'. WorkerInv b.cfg q' b.done v) eq (worker_at h i v at)) h.sized h.counted
          (draining-ne-exited p))
  Step-Inv {b} (finishes i ok v at p eq) h = put_worker-Inv b i _ b.queue h (omega arith) (
      finish-Turn b.cfg ok b.queue b.done v b.log h.positive (worker_at h i v at) h.sized h.counted
        (draining-ne-exited p) eq ((worker_at h i v at).1 (λ x. cc)))
  Step-Inv {b} (seals p) h = record {
    positive = h.positive;
    closed_done = refl;
    quiet = λ _. p;
    bounded = h.bounded;
    sized = h.sized;
    counted = h.counted;
    all_workers = seal-All b.cfg b.queue b.done b.workers h.all_workers;
  }

  -- Whatever has happened since NewBatcher, if MaxSize is not zero: the queue is within QueueSize, no
  -- batch is empty or longer than MaxSize, the two counters together count every event of a flushed
  -- batch, and a worker that has returned holds nothing and left an empty queue.
  pub Reach-Inv :
      (c : BatchConfig) {b : Batcher E} → 0 < c.max_size → Reach (new_batcher c) b → Inv b
  unfolding new_batcher
  Reach-Inv c h here = record {
    positive = h;
    closed_done = refl;
    quiet = λ _. refl;
    bounded = omega arith;
    sized = tt;
    counted = refl;
    all_workers = idle_workers-All E c c.workers h;
  }
  Reach-Inv c h (next r s) = Step-Inv s (Reach-Inv c h r)

  -- If MaxSize is not zero, a call of Add that waits under OnFullBlock never finds the batcher closed: the case of its
  -- select for b.done is not taken.
  waiting_never_stopped :
      (c : BatchConfig) {b : Batcher E}
      → 0 < c.max_size
      → Reach (new_batcher c) b
      → (i : ℕ) (e : E) → get_elem? b.parked i ≡ some e
      → b.done ≡ false
  waiting_never_stopped c h r i e at =
      let inv = Reach-Inv c h r in sym inv.closed_done ∙ waiting_open inv i e at

  -- Every worker has returned, and there is one.
  abbrev pub IsFinished : List (Worker E) → Type 0
  IsFinished ws = (0 < length ws) × All (λ v. v.phase ≡ exited) ws

  finished_queue :
      (c : BatchConfig) (q : List E) (done : Bool) (ws : List (Worker E))
      → IsFinished ws
      → All (WorkerInv c q done) ws
      → q ≡ []
  finished_queue c q done [] f h = absurd (omega arith)
  finished_queue c q done (v ∷ ws) f h = (h.0.0 f.1.0).1

  finished_buffers :
      (c : BatchConfig) (q : List E) (done : Bool) (ws : List (Worker E)) (w : E → ℕ)
      → All (λ v. v.phase ≡ exited) ws
      → All (WorkerInv c q done) ws
      → buffered w ws ≡ 0
  finished_buffers c q done [] w f h = refl
  finished_buffers c q done (v ∷ ws) w f h =
      omega (arith, ap (total w) (h.0.0 f.0).0, finished_buffers c q done ws w f.1 h.1)

  -- If MaxSize is not zero: when every worker has returned, as Close waits for, the flushed batches hold exactly the events
  -- that Add put on the queue, each as often, and the counters add up to their number.
  pub closed_flushed_all :
      (c : BatchConfig) {b : Batcher E}
      → 0 < c.max_size
      → Reach (new_batcher c) b
      → IsFinished b.workers
      → ((w : E → ℕ) → total w b.accepted ≡ flushed w b.log.batches)
        × (b.log.recorded + b.log.errors ≡ length b.accepted)
  closed_flushed_all c {b} h r f =
      (all, omega (arith, inv.counted, all (λ _. 1), total_one b.accepted))
    where
      inv : Inv b
      inv = Reach-Inv c h r

      all : (w : E → ℕ) → total w b.accepted ≡ flushed w b.log.batches
      all w = omega (
        arith,
        Reach-IsConserved c r w,
        ap (total w) (finished_queue b.cfg b.queue b.done b.workers f inv.all_workers),
        finished_buffers b.cfg b.queue b.done b.workers w f.1 inv.all_workers,
      )
