-- ===== src/Link/Time.antt =====
-- The plausibility of two GPS times (firmware/golfer/src/main.rs, `gps_utc_progression_is_sane`).
use golfer.Link.{abs_diff, gps_utc_progression_is_sane}
use golfer.Prelude.{ℕ, arith, leb, true, ◌+◌, ◌-◌, ◌<◌, ◌↔◌, ◌≡◌, ◌≤◌}

close_iff : (a b : ℕ) → (leb (abs_diff a b) 2000 ≡ true) ↔ ((a ≤ b + 2000) × (b ≤ a + 2000))
close_iff a b = ground arith

-- Two samples are accepted exactly when both clocks moved forward, by amounts that differ by at most
-- two seconds.
gps_utc_progression_iff :
    (previous_mono_ms previous_utc_ms current_mono_ms current_utc_ms : ℕ)
    → (gps_utc_progression_is_sane previous_mono_ms previous_utc_ms current_mono_ms current_utc_ms
        ≡ true)
      ↔ ((previous_mono_ms < current_mono_ms)
          × (previous_utc_ms < current_utc_ms)
          × (current_mono_ms + previous_utc_ms ≤ current_utc_ms + previous_mono_ms + 2000)
          × (current_utc_ms + previous_mono_ms ≤ current_mono_ms + previous_utc_ms + 2000))
unfolding gps_utc_progression_is_sane
gps_utc_progression_iff m u m' u' = ground (arith, close_iff (m' - m) (u' - u))
