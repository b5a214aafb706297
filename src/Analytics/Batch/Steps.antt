-- ===== src/Analytics/Batch/Steps.antt =====
-- The steps of a Batcher: what the calls of Add and Close and the workers may do next, in any order.
use tilegroxy.Base.{ℕ, suc, zero, Bool, true, List, [], ◌∷◌, some, ◌≡◌, get_elem?, set}
use tilegroxy.Analytics.Batch.{
  serving, draining, Worker, Log, Batcher, enqueue, add, has_room, receive, tick, drain, finish,
  seal,
}

-- The list without its entry at an index.
abbrev pub erase_idx {ℓ} : {A : Type ℓ} → List A → ℕ → List A
erase_idx [] i = []
erase_idx (x ∷ xs) zero = xs
erase_idx (x ∷ xs) (suc i) = x ∷ erase_idx xs i

module _ {E : Type 0} where
  -- Worker `i` becomes the one given, with the log that it leaves.
  abbrev pub put_worker : ℕ → Worker E × Log E → Batcher E → Batcher E
  put_worker i r b = record b { workers = set b.workers i r.0; log = r.1 }

  pub data Step (b : Batcher E) : Batcher E → Type 0 where
    -- a call of Add, up to its select if it may wait
    adds : (now : ℕ) (e : E) → Step b (add now e b).0
    -- the three cases of the select of a waiting Add
    sends :
        (i : ℕ) (e : E)
        → get_elem? b.parked i ≡ some e
        → has_room b ≡ true
        → Step b (enqueue e (record b { parked = erase_idx b.parked i }))
    cancels :
        (i : ℕ) (e : E)
        → get_elem? b.parked i ≡ some e
        → Step b (record b { parked = erase_idx b.parked i })
    stops :
        (i : ℕ) (e : E)
        → get_elem? b.parked i ≡ some e
        → b.done ≡ true
        → Step b (record b { parked = erase_idx b.parked i })
    -- the cases of the loop of work
    receives :
        (i now : ℕ) (ok : Bool) (e : E) (q : List E) (w : Worker E)
        → get_elem? b.workers i ≡ some w
        → w.phase ≡ serving
        → b.queue ≡ e ∷ q
        → Step b (put_worker i (receive b.cfg now ok e w b.log) (record b { queue = q }))
    ticks :
        (i now : ℕ) (ok : Bool) (w : Worker E)
        → get_elem? b.workers i ≡ some w
        → w.phase ≡ serving
        → Step b (put_worker i (tick b.cfg now ok w b.log) b)
    is_done :
        (i : ℕ) (w : Worker E)
        → get_elem? b.workers i ≡ some w
        → w.phase ≡ serving
        → b.done ≡ true
        → Step b (put_worker i (record w { phase = draining }, b.log) b)
    -- the cases of the loop that drains
    drains :
        (i : ℕ) (ok : Bool) (e : E) (q : List E) (w : Worker E)
        → get_elem? b.workers i ≡ some w
        → w.phase ≡ draining
        → b.queue ≡ e ∷ q
        → Step b (put_worker i (drain b.cfg ok e w b.log) (record b { queue = q }))
    finishes :
        (i : ℕ) (ok : Bool) (w : Worker E)
        → get_elem? b.workers i ≡ some w
        → w.phase ≡ draining
        → b.queue ≡ []
        → Step b (put_worker i (finish ok w b.log) b)
    -- Close has the write lock, which no waiting Add shares
    seals : b.parked ≡ [] → Step b (seal b)

  pub data Reach (b : Batcher E) : Batcher E → Type 0 where
    here : Reach b b
    next : {c d : Batcher E} → Reach b c → Step c d → Reach b d
