-- ===== src/Timekeeping/Tests.antt =====
-- The wall clock and the deadlines of firmware/golfer/src/main.rs at concrete inputs.
use golfer.Prelude.{ℕ, ◌+◌, ◌*◌, ◌≡◌, ◌≤◌, ◌<◌, refl, arith, Option, none, some, List, [], ◌∷◌}
use golfer.Link.{gps_utc_progression_is_sane}
use golfer.Storage.Diagnostics.{update_time_anchor}
use golfer.Timekeeping.{
  run, on_gps_utc, unsynchronized, time_sync, gps_utc_sync_diag, gps_utc_rejected,
  gps_utc_rejected_diag, advance,
}
use golfer.Timekeeping.Synced.{anchor_of, syncs, synced, run-synced}
use golfer.Timekeeping.Deadline.{advance-next}

-- A candidate, its confirmation, the same UTC again, and a jump of an hour.
abbrev samples : List (ℕ × Option ℕ)
samples =
    (1000, none)
    ∷ (2000, some 1_700_000_000_000)
    ∷ (3010, some 1_700_000_001_000)
    ∷ (3500, some 1_700_000_001_000)
    ∷ (4000, some 1_700_003_602_000)
    ∷ []

logged :
    (run samples (unsynchronized (some none))).1
    ≡ time_sync 1_700_000_001_000 3010
      ∷ gps_utc_sync_diag 1_700_000_001_000 3010
      ∷ gps_utc_rejected 1_700_003_602_000 1_700_000_001_000 3010
      ∷ gps_utc_rejected_diag 1_700_003_602_000 1_700_000_001_000 3010
      ∷ []
unfolding run on_gps_utc gps_utc_progression_is_sane update_time_anchor
logged = refl

run-synced_example :
    ((run samples (unsynchronized (some none))).0.storage
      ≡ some (anchor_of (run samples (unsynchronized (some none))).0.accepted_gps_utc))
    × (syncs (run samples (unsynchronized (some none))).1
        ≡ synced (run samples (unsynchronized (some none))).0.accepted_gps_utc)
run-synced_example = run-synced samples

advance-next_example :
    (steps : ℕ) × (advance 4 1000 3500 ≡ 1000 + 1000 * (1 + steps))
    × (3500 < advance 4 1000 3500)
    × (advance 4 1000 3500 ≤ 3500 + 1000)
advance-next_example = advance-next 4 1000 3500 (omega arith) (omega arith) (omega arith)
