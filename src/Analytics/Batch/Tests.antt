-- ===== src/Analytics/Batch/Tests.antt =====
-- Runs of a Batcher of pkg/entities/analytics with one worker.
use tilegroxy.Base.{ℕ, ◌+◌, true, false, [], ◌∷◌, ◌≡◌, refl, text_eq, arith, length}
use tilegroxy.Analytics.Batch.{
  BatchConfig, Batcher, new_batcher, enqueue, add, add_block, has_room, do_flush, drain, finish,
  seal, on_full_block, draining, idle_workers, idle_worker,
}
use tilegroxy.Analytics.Batch.Steps.{
  put_worker, adds, sends, is_done, drains, finishes, seals, Reach, here, next,
}
use tilegroxy.Analytics.Batch.Conserve.{IsConserved, Reach-IsConserved, total, flushed}
use tilegroxy.Analytics.Batch.Close.{closed_flushed_all}
use tilegroxy.Analytics.Batch.Order.{IsOrdered, Reach-IsOrdered}

abbrev blocking : BatchConfig
blocking = record {
  max_size = 2;
  max_age = 10;
  queue_size = 1;
  workers = 1;
  on_full = on_full_block;
}

abbrev idle : Batcher ℕ
idle = new_batcher blocking

abbrev one_waits : Batcher ℕ
one_waits = (add 0 7 idle).0

abbrev one_queued : Batcher ℕ
one_queued = enqueue 7 (record one_waits { parked = [] })

abbrev sealed : Batcher ℕ
sealed = seal one_queued

abbrev draining_one : Batcher ℕ
draining_one = put_worker 0 (record { buf = []; oldest = 0; phase = draining }, sealed.log) sealed

abbrev drained : Batcher ℕ
drained =
    put_worker 0
      (drain blocking true 7 (record { buf = []; oldest = 0; phase = draining }) draining_one.log)
      (record draining_one { queue = [] })

abbrev finished : Batcher ℕ
finished =
    put_worker 0 (finish false (record { buf = 7 ∷ []; oldest = 0; phase = draining }) drained.log)
      drained

to_one_waits : Reach idle one_waits
to_one_waits = next here (adds 0 7)

to_finished : Reach idle finished
unfolding text_eq new_batcher add add_block enqueue has_room seal drain do_flush finish idle_workers
    idle_worker
to_finished =
    next
      (next
        (next (next (next to_one_waits (sends 0 7 refl refl)) (seals refl))
          (is_done 0 _ refl refl refl))
        (drains 0 true 7 [] _ refl refl refl))
      (finishes 0 false _ refl refl refl)

Reach-IsConserved_example : IsConserved finished
Reach-IsConserved_example = Reach-IsConserved blocking to_finished

closed_flushed_all_example :
    ((w : ℕ → ℕ) → total w finished.accepted ≡ flushed w finished.log.batches)
    × (finished.log.recorded + finished.log.errors ≡ length finished.accepted)
unfolding text_eq new_batcher add add_block enqueue has_room seal drain do_flush finish idle_workers
    idle_worker
closed_flushed_all_example =
    closed_flushed_all blocking (omega arith) to_finished (omega arith, (refl, tt))

Reach-IsOrdered_example : IsOrdered finished
Reach-IsOrdered_example = Reach-IsOrdered blocking refl to_finished
