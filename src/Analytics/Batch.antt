-- ===== src/Analytics/Batch.antt =====
-- pkg/entities/analytics/batch.go. The queue is a channel, `parked` holds the events of the calls of
-- Add that wait under OnFullBlock and so hold the read lock, and each worker is at one of three
-- places of its loop. `accepted` is a history variable: the events that were put on the queue, in
-- order. Times are nanoseconds of one clock; a flush succeeds or fails as the step says.
pub mod Config
pub mod Steps
pub mod Conserve
pub mod Turns
pub mod Close
pub mod Order
pub mod Tests
use tilegroxy.Base.{
  ℕ, zero, suc, ◌+◌, ◌*◌, Bool, true, false, ◌&&◌, List, [], ◌∷◌, ◌++◌, ltb, leb, if◌then◌else◌,
  length, Text, codes, text_eq,
}

pub record BatchConfig : Type 0 where
  pub max_size : ℕ
  pub max_age : ℕ
  pub queue_size : ℕ
  pub workers : ℕ
  pub on_full : Text

pub data Phase : Type 0 where
  serving draining exited : Phase

pub record Worker (E : Type 0) : Type 0 where
  pub buf : List E
  pub oldest : ℕ
  pub phase : Phase

-- The calls of flush so far, in order, and the two counters of doFlush.
pub record Log (E : Type 0) : Type 0 where
  pub batches : List (List E)
  pub recorded : ℕ
  pub errors : ℕ

pub record Batcher (E : Type 0) : Type 0 where
  pub cfg : BatchConfig
  pub queue : List E
  pub done : Bool
  pub closed : Bool
  pub parked : List E
  pub workers : List (Worker E)
  pub log : Log E
  pub dropped : ℕ
  pub last_drop_log : ℕ
  pub drop_logs : List ℕ
  pub accepted : List E

pub data AddResult : Type 0 where
  added closed_error waits : AddResult

-- The values of OnFull.
abbrev pub on_full_drop : Text
on_full_drop = codes "drop"

abbrev pub on_full_block : Text
on_full_block = codes "block"

abbrev pub second : ℕ
second = 1000000000

abbrev pub drop_log_interval : ℕ
drop_log_interval = 30 * second

module _ {E : Type 0} where
  idle_worker : Worker E
  idle_worker = record { buf = []; oldest = 0; phase = serving }

  pub idle_workers : ℕ → List (Worker E)
  unfolding idle_worker
  idle_workers zero = []
  idle_workers (suc n) = idle_worker ∷ idle_workers n

  -- NewBatcher
  unfoldable pub new_batcher : BatchConfig → Batcher E
  new_batcher c = record {
    cfg = c;
    queue = [];
    done = false;
    closed = false;
    parked = [];
    workers = idle_workers c.workers;
    log = record { batches = []; recorded = 0; errors = 0 };
    dropped = 0;
    last_drop_log = 0;
    drop_logs = [];
    accepted = [];
  }

  pub enqueue : E → Batcher E → Batcher E
  enqueue e b = record b { queue = b.queue ++ e ∷ []; accepted = b.accepted ++ e ∷ [] }

  pub note_dropped : ℕ → Batcher E → Batcher E
  note_dropped now b =
      if leb (b.last_drop_log + drop_log_interval) now
      then record b { dropped = suc b.dropped; last_drop_log = now; drop_logs = now ∷ b.drop_logs }
      else record b { dropped = suc b.dropped }

  pub has_room : Batcher E → Bool
  has_room b = ltb (length b.queue) b.cfg.queue_size

  -- Add under OnFullDrop: it never waits.
  unfoldable pub add_drop : ℕ → E → Batcher E → Batcher E × AddResult
  unfolding enqueue note_dropped has_room
  add_drop now e b =
      if b.closed
      then (b, closed_error)
      else if has_room b
      then (enqueue e b, added)
      else (note_dropped now b, added)

  -- Add under OnFullBlock, up to its select: the call holds the read lock from here on.
  unfoldable pub add_block : E → Batcher E → Batcher E × AddResult
  add_block e b =
      if b.closed then (b, closed_error) else (record b { parked = e ∷ b.parked }, waits)

  -- Add
  unfoldable pub add : ℕ → E → Batcher E → Batcher E × AddResult
  unfolding add_drop add_block
  add now e b = if text_eq b.cfg.on_full on_full_block then add_block e b else add_drop now e b

  pub do_flush : Bool → List E → Log E → Log E
  do_flush ok [] log = log
  do_flush ok (e ∷ es) log =
      if ok
      then record log {
        batches = log.batches ++ (e ∷ es) ∷ [];
        recorded = log.recorded + length (e ∷ es);
      }
      else record log {
        batches = log.batches ++ (e ∷ es) ∷ [];
        errors = log.errors + length (e ∷ es);
      }

  -- The case `event := <-b.queue` of the loop of work.
  pub receive : BatchConfig → ℕ → Bool → E → Worker E → Log E → Worker E × Log E
  unfolding do_flush
  receive c now ok e w log =
      let oldest = if leb (length w.buf) 0 then now else w.oldest in
      let buf = w.buf ++ e ∷ [] in
      if leb c.max_size (length buf)
      then (record w { buf = []; oldest = now }, do_flush ok buf log)
      else (record w { buf = buf; oldest = oldest }, log)

  -- The case `<-ticker.C`.
  pub tick : BatchConfig → ℕ → Bool → Worker E → Log E → Worker E × Log E
  unfolding do_flush
  tick c now ok w log =
      if ltb 0 (length w.buf) && leb (w.oldest + c.max_age * second) now
      then (record w { buf = []; oldest = now }, do_flush ok w.buf log)
      else (w, log)

  -- The case `event := <-b.queue` of the loop that drains the queue.
  pub drain : BatchConfig → Bool → E → Worker E → Log E → Worker E × Log E
  unfolding do_flush
  drain c ok e w log =
      let buf = w.buf ++ e ∷ [] in
      if leb c.max_size (length buf)
      then (record w { buf = [] }, do_flush ok buf log)
      else (record w { buf = buf }, log)

  -- The default case of that loop: the last flush, and the worker returns.
  pub finish : Bool → Worker E → Log E → Worker E × Log E
  unfolding do_flush
  finish ok w log =
      if ltb 0 (length w.buf)
      then (record w { buf = []; phase = exited }, do_flush ok w.buf log)
      else (record w { buf = []; phase = exited }, log)

  -- What closeOnce runs under the write lock.
  pub seal : Batcher E → Batcher E
  seal b = record b { closed = true; done = true }
