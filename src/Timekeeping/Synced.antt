-- ===== src/Timekeeping/Synced.antt =====
-- The wall clock of firmware/golfer/src/main.rs: the anchor of the storage and the record TIME_SYNC.
use golfer.Prelude.{
  ℕ, ◌+◌, ◌≡◌, refl, ap, sym, ◌∙◌, arith, Option, none, some, List, [], ◌∷◌, ◌++◌, if-cases,
}
use golfer.Link.{gps_utc_progression_is_sane}
use golfer.Storage.Diagnostics.{UtcAnchor, update_time_anchor}
use golfer.Timekeeping.{
  TimeSync, TimeLog, gps_utc_rejected, gps_utc_rejected_diag, time_sync, gps_utc_sync_diag,
  anchored, if_storage, sync_logs, confirmed, new_utc, seen, on_gps_utc, run, unsynchronized,
}

-- How many records TIME_SYNC are among the logs.
abbrev pub syncs : List TimeLog → ℕ
syncs [] = 0
syncs (time_sync utc mono ∷ logs) = 1 + syncs logs
syncs (gps_utc_rejected utc prev mono ∷ logs) = syncs logs
syncs (gps_utc_rejected_diag utc prev mono ∷ logs) = syncs logs
syncs (gps_utc_sync_diag utc mono ∷ logs) = syncs logs

-- The anchor that belongs to the accepted sample.
abbrev pub anchor_of : Option (ℕ × ℕ) → Option UtcAnchor
anchor_of none = none
anchor_of (some sample) = some (record { mono_ms = sample.0; unix_ms = sample.1 })

abbrev pub synced : Option (ℕ × ℕ) → ℕ
synced none = 0
synced (some sample) = 1

abbrev Good : TimeSync → Type 0
Good k = k.storage ≡ some (anchor_of k.accepted_gps_utc)

-- A step keeps the anchor in line and logs TIME_SYNC when the clock becomes known.
abbrev Step : Option (ℕ × ℕ) → TimeSync × List TimeLog → Type 0
Step accepted r = Good r.0 × (syncs r.1 + synced accepted ≡ synced r.0.accepted_gps_utc)

syncs-append : (before after : List TimeLog) → syncs (before ++ after) ≡ syncs before + syncs after
syncs-append [] after = omega arith
syncs-append (time_sync utc mono ∷ logs) after = omega (arith, syncs-append logs after)
syncs-append (gps_utc_rejected utc prev mono ∷ logs) after = syncs-append logs after
syncs-append (gps_utc_rejected_diag utc prev mono ∷ logs) after = syncs-append logs after
syncs-append (gps_utc_sync_diag utc mono ∷ logs) after = syncs-append logs after

anchored-some :
    (mono_ms utc_ms : ℕ) (accepted : Option (ℕ × ℕ)) (storage : Option (Option UtcAnchor))
    → storage ≡ some (anchor_of accepted)
    → ((anchored mono_ms utc_ms storage).0
        ≡ some (some (record { mono_ms = mono_ms; unix_ms = utc_ms })))
      × (syncs (sync_logs (anchored mono_ms utc_ms storage).1 mono_ms utc_ms) + synced accepted ≡ 1)
unfolding update_time_anchor
anchored-some mono_ms utc_ms none storage e = rw e (refl, refl)
anchored-some mono_ms utc_ms (some sample) storage e = rw e (refl, refl)

rejected-syncs :
    (storage : Option (Option UtcAnchor)) (candidate utc mono : ℕ)
    → syncs (
        if_storage storage
          (gps_utc_rejected candidate utc mono ∷ gps_utc_rejected_diag candidate utc mono ∷ []))
      ≡ 0
rejected-syncs none candidate utc mono = refl
rejected-syncs (some anchor) candidate utc mono = refl

new_utc-Step :
    (mono_ms utc_ms : ℕ) (accepted : Option (ℕ × ℕ)) (k : TimeSync)
    → k.accepted_gps_utc ≡ accepted
    → Good k
    → Step accepted (new_utc mono_ms utc_ms accepted k)
new_utc-Step mono_ms utc_ms (some sample) k e good =
    let line = good ∙ ap (λ a. some (anchor_of a)) e in
    if-cases (Step (some sample)) (gps_utc_progression_is_sane sample.0 sample.1 mono_ms utc_ms)
      (λ sane. ((anchored-some mono_ms utc_ms (some sample) k.storage line).0, refl))
      (λ jump. (
        good,
        ap (λ n. n + 1) (rejected-syncs k.storage utc_ms sample.1 sample.0) ∙ sym (ap synced e),
      ))
new_utc-Step mono_ms utc_ms none k e good = waiting k.pending_gps_utc
  where
    line : k.storage ≡ some none
    line = good ∙ ap (λ a. some (anchor_of a)) e

    waiting : (pending : Option (ℕ × ℕ)) → Step none (confirmed mono_ms utc_ms pending k)
    waiting none = (good, sym (ap synced e))
    waiting (some candidate) =
        if-cases (Step none) (gps_utc_progression_is_sane candidate.0 candidate.1 mono_ms utc_ms)
          (λ sane. anchored-some mono_ms utc_ms none k.storage line)
          (λ jump. (good, sym (ap synced e)))

on_gps_utc-Step :
    (mono_ms : ℕ) (utc : Option ℕ) (k : TimeSync)
    → Good k
    → Step k.accepted_gps_utc (on_gps_utc mono_ms utc k)
unfolding on_gps_utc
on_gps_utc-Step mono_ms none k good = (good, omega arith)
on_gps_utc-Step mono_ms (some utc_ms) k good =
    if-cases (Step k.accepted_gps_utc) (seen utc_ms k.last_gps_utc_seen)
      (λ again. (good, omega arith))
      (λ new.
        new_utc-Step mono_ms utc_ms k.accepted_gps_utc
          (record k { last_gps_utc_seen = some utc_ms }) refl good)

run-Step :
    (samples : List (ℕ × Option ℕ)) (k : TimeSync)
    → Good k
    → Step k.accepted_gps_utc (run samples k)
unfolding run
run-Step [] k good = (good, omega arith)
run-Step (sample ∷ samples) k good =
    let first = on_gps_utc sample.0 sample.1 k in
    let (kept, logged) = on_gps_utc-Step sample.0 sample.1 k good in
    let (last, counted) = run-Step samples first.0 kept in
    (last, omega (arith, syncs-append first.1 (run samples first.0).1))

-- From power on, with a storage, after any row of GPS states at any times: the anchor of the storage
-- is the accepted sample, there is none before the first acceptance, and exactly one TIME_SYNC was
-- recorded if a sample was accepted, none otherwise.
pub run-synced :
    (samples : List (ℕ × Option ℕ))
    → ((run samples (unsynchronized (some none))).0.storage
        ≡ some (anchor_of (run samples (unsynchronized (some none))).0.accepted_gps_utc))
      × (syncs (run samples (unsynchronized (some none))).1
          ≡ synced (run samples (unsynchronized (some none))).0.accepted_gps_utc)
run-synced samples =
    let (good, counted) = run-Step samples (unsynchronized (some none)) refl in (good, omega arith)
