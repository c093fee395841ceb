-- ===== src/Storage/Diagnostics/Anchor.antt =====
-- The UTC that firmware/golfer/src/storage.rs infers from the anchor.
use golfer.Prelude.{ℕ, ◌+◌, ◌-◌, ◌≤◌, ◌<◌, ◌≡◌, ◌^◌, arith, some}
use golfer.Storage.Diagnostics.{UtcAnchor, utc_for_mono_ms}

-- Between two monotonic times under one anchor the inferred UTC advances by as much as the monotonic
-- time, before, after and across the anchor, where the first time has a UTC and the second one's fits
-- 64 bits.
utc_for_mono_ms-advances :
    (anchor : UtcAnchor) (earlier later utc : ℕ)
    → earlier ≤ later
    → utc_for_mono_ms (some anchor) earlier ≡ some utc
    → anchor.unix_ms + (later - anchor.mono_ms) < 2 ^ 64
    → utc_for_mono_ms (some anchor) later ≡ some (utc + (later - earlier))
unfolding utc_for_mono_ms
utc_for_mono_ms-advances anchor earlier later utc order h fits = ground arith
