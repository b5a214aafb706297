-- ===== src/Analytics/Batch/Config.antt =====
-- ApplyBatchDefaults.
use tilegroxy.Base.{
  ℕ, ◌<◌, [], Option, none, some, ◌≡◌, ◌≢◌, ◌⊎◌, ◌↔◌, if◌then◌else◌, ◌==◌, ◌||◌, text_eq,
  text_eq_iff, arith,
}
use tilegroxy.Analytics.Batch.{BatchConfig, on_full_drop, on_full_block}

-- if v == 0 { v = d }
unfoldable pub default_to : ℕ → ℕ → ℕ
default_to d v = if v == 0 then d else v

unfoldable pub fill_defaults : BatchConfig → BatchConfig
unfolding default_to
fill_defaults c = record {
  max_size = default_to 1000 c.max_size;
  max_age = default_to 10 c.max_age;
  queue_size = default_to 10000 c.queue_size;
  workers = default_to 1 c.workers;
  on_full = if text_eq c.on_full [] then on_full_drop else c.on_full;
}

-- The error is the one for a value of OnFull that is not known.
unfoldable pub apply_batch_defaults : BatchConfig → Option BatchConfig
unfolding fill_defaults
apply_batch_defaults c =
    let d = fill_defaults c in
    if text_eq d.on_full on_full_drop || text_eq d.on_full on_full_block then some d else none

-- The result of ApplyBatchDefaults: every size is positive, OnFull is one of its two values, and what
-- was set is kept.
pub record IsFilledFrom (c d : BatchConfig) : Type 0 where
  pub max_size : 0 < d.max_size
  pub max_age : 0 < d.max_age
  pub queue_size : 0 < d.queue_size
  pub workers : 0 < d.workers
  pub on_full : (d.on_full ≡ on_full_drop) ⊎ (d.on_full ≡ on_full_block)
  pub max_size_kept : 0 < c.max_size → d.max_size ≡ c.max_size
  pub max_age_kept : 0 < c.max_age → d.max_age ≡ c.max_age
  pub queue_size_kept : 0 < c.queue_size → d.queue_size ≡ c.queue_size
  pub workers_kept : 0 < c.workers → d.workers ≡ c.workers
  pub on_full_kept : c.on_full ≢ [] → d.on_full ≡ c.on_full

-- A config that ApplyBatchDefaults accepts has a positive size in each place, so that every theorem
-- about a Batcher applies to it, and keeps the values that were set.
apply_batch_defaults_filled :
    (c d : BatchConfig) → apply_batch_defaults c ≡ some d → IsFilledFrom c d
unfolding apply_batch_defaults
apply_batch_defaults_filled c d h = record {
  max_size = ground arith;
  max_age = ground arith;
  queue_size = ground arith;
  workers = ground arith;
  on_full = ground (arith, text_eq_iff d.on_full on_full_drop, text_eq_iff d.on_full on_full_block);
  max_size_kept = ground arith;
  max_age_kept = ground arith;
  queue_size_kept = ground arith;
  workers_kept = ground arith;
  on_full_kept = ground (arith, text_eq_iff c.on_full []);
}

-- It fails exactly on a value of OnFull other than the empty one, "drop" and "block".
apply_batch_defaults_fails_iff :
    (c : BatchConfig)
    → (apply_batch_defaults c ≡ none)
      ↔ ((c.on_full ≢ []) × (c.on_full ≢ on_full_drop) × (c.on_full ≢ on_full_block))
unfolding apply_batch_defaults
apply_batch_defaults_fails_iff c = ground (
  arith,
  text_eq_iff c.on_full [],
  text_eq_iff on_full_drop on_full_drop,
  text_eq_iff c.on_full on_full_drop,
  text_eq_iff c.on_full on_full_block,
)
