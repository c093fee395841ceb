-- ===== src/Timekeeping.antt =====
-- The wall clock and the sampling schedule of the main loop, firmware/golfer/src/main.rs: what the
-- loop does with the UTC of a GPS state, and the deadlines of LOCAL.LOG. `Instant::now()` is an
-- argument, in milliseconds.
pub mod Synced
pub mod Deadline
mod Tests
use golfer.Prelude.{
  ℕ, zero, suc, ◌+◌, ◌-◌, Bool, true, false, Option, none, some, List, [], ◌∷◌, ◌++◌, ltb, leb,
  ◌==◌, min, max, if◌then◌else◌, saturating_add, u64_mod,
}
use golfer.Link.{gps_utc_progression_is_sane}
use golfer.Storage.Diagnostics.{UtcAnchor, update_time_anchor}

-- The local variables of `main` for the UTC, pairs of the monotonic time and the UTC, and the anchor
-- of the storage, if there is a storage.
pub record TimeSync : Type 0 where
  pub last_gps_utc_seen : Option ℕ
  pub pending_gps_utc : Option (ℕ × ℕ)
  pub accepted_gps_utc : Option (ℕ × ℕ)
  pub storage : Option (Option UtcAnchor)

-- What is logged: records of EVENT.LOG, and diagnostics.
pub data TimeLog : Type 0 where
  gps_utc_rejected : (candidate_utc_ms prev_utc_ms prev_mono_ms : ℕ) → TimeLog
  gps_utc_rejected_diag : (candidate_utc_ms prev_utc_ms prev_mono_ms : ℕ) → TimeLog
  time_sync : (utc_anchor_ms mono_anchor_ms : ℕ) → TimeLog
  gps_utc_sync_diag : (utc_ms mono_ms : ℕ) → TimeLog

-- `if let Some(storage) = storage.as_mut() { storage.update_time_anchor(..) }`, and what it returns.
abbrev pub anchored : ℕ → ℕ → Option (Option UtcAnchor) → Option (Option UtcAnchor) × Bool
anchored mono_ms utc_ms none = (none, false)
anchored mono_ms utc_ms (some anchor) =
    let updated = update_time_anchor mono_ms utc_ms anchor in (some updated.0, updated.1)

abbrev pub if_storage : Option (Option UtcAnchor) → List TimeLog → List TimeLog
if_storage none logs = []
if_storage (some anchor) logs = logs

abbrev pub accept : ℕ → ℕ → TimeSync → TimeSync
accept mono_ms utc_ms k = record k {
  accepted_gps_utc = some (mono_ms, utc_ms);
  storage = (anchored mono_ms utc_ms k.storage).0;
}

-- A sample after synchronization is checked against the accepted one.
abbrev continued : ℕ → ℕ → ℕ × ℕ → TimeSync → TimeSync × List TimeLog
continued mono_ms utc_ms previous k =
    if gps_utc_progression_is_sane previous.0 previous.1 mono_ms utc_ms
    then (accept mono_ms utc_ms k, [])
    else (
      k,
      if_storage k.storage (
          gps_utc_rejected utc_ms previous.1 previous.0
          ∷ gps_utc_rejected_diag utc_ms previous.1 previous.0
          ∷ []),
    )

abbrev pub sync_logs : Bool → ℕ → ℕ → List TimeLog
sync_logs first_sync mono_ms utc_ms =
    if first_sync then time_sync utc_ms mono_ms ∷ gps_utc_sync_diag utc_ms mono_ms ∷ [] else []

-- Before that, a candidate is confirmed by the next sample or replaced by it.
abbrev pub confirmed : ℕ → ℕ → Option (ℕ × ℕ) → TimeSync → TimeSync × List TimeLog
confirmed mono_ms utc_ms none k = (record k { pending_gps_utc = some (mono_ms, utc_ms) }, [])
confirmed mono_ms utc_ms (some candidate) k =
    if gps_utc_progression_is_sane candidate.0 candidate.1 mono_ms utc_ms
    then (
      accept mono_ms utc_ms (record k { pending_gps_utc = none }),
      sync_logs (anchored mono_ms utc_ms k.storage).1 mono_ms utc_ms,
    )
    else (record k { pending_gps_utc = some (mono_ms, utc_ms) }, [])

abbrev pub new_utc : ℕ → ℕ → Option (ℕ × ℕ) → TimeSync → TimeSync × List TimeLog
new_utc mono_ms utc_ms (some accepted) k = continued mono_ms utc_ms accepted k
new_utc mono_ms utc_ms none k = confirmed mono_ms utc_ms k.pending_gps_utc k

-- `last_gps_utc_seen != Some(utc_ms)`
abbrev pub seen : ℕ → Option ℕ → Bool
seen utc_ms none = false
seen utc_ms (some last) = last == utc_ms

-- What the loop does with the UTC of a GPS state that it takes at a time.
unfoldable pub on_gps_utc : ℕ → Option ℕ → TimeSync → TimeSync × List TimeLog
on_gps_utc mono_ms none k = (k, [])
on_gps_utc mono_ms (some utc_ms) k =
    if seen utc_ms k.last_gps_utc_seen
    then (k, [])
    else new_utc mono_ms utc_ms k.accepted_gps_utc (record k { last_gps_utc_seen = some utc_ms })

abbrev logging : List TimeLog → TimeSync × List TimeLog → TimeSync × List TimeLog
logging before (k, logs) = (k, before ++ logs)

-- A run over the GPS states that the loop takes, with their times.
unfoldable pub run : List (ℕ × Option ℕ) → TimeSync → TimeSync × List TimeLog
run [] k = (k, [])
run (sample ∷ samples) k =
    let first = on_gps_utc sample.0 sample.1 k in logging first.1 (run samples first.0)

abbrev pub unsynchronized : Option (Option UtcAnchor) → TimeSync
unsynchronized storage = record {
  last_gps_utc_seen = none;
  pending_gps_utc = none;
  accepted_gps_utc = none;
  storage = storage;
}

abbrev local_sample_interval_ms : ℕ
local_sample_interval_ms = 1000

-- The loop that moves the deadline of LOCAL.LOG behind the time after the sample.
unfoldable pub advance : ℕ → ℕ → ℕ → ℕ
advance zero next_local_sample_ms after_sample_ms = next_local_sample_ms
advance (suc fuel) next_local_sample_ms after_sample_ms =
    let next = saturating_add u64_mod next_local_sample_ms local_sample_interval_ms in
    let rest = advance fuel next after_sample_ms in if ltb after_sample_ms next then next else rest
