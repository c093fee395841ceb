-- ===== src/Audio/Wave.antt =====
-- The square wave that `tone_config` of firmware/golfer/src/audio.rs sets up.
use golfer.Prelude.{
  ℕ, zero, suc, ◌+◌, ◌-◌, ◌*◌, ◌/◌, ◌%◌, ◌^◌, ◌≤◌, ◌<◌, max, ◌≡◌, ◌⊎◌, inr, refl, arith, true,
  false, ◌&&◌, ltb, if-cases, dec_lt, subst,
}
use native.Mathlib.Nat.{mul-le-mul_left}
use golfer.Audio.{Config, divider_loop, clamp, tone_config}

-- The first divider from `start` on that serves the quotient, or 255.
abbrev pub Least : ℕ → ℕ → ℕ → Type 0
Least start quotient divider =
    (start ≤ divider)
    × (divider ≤ 255)
    × ((quotient / divider ≤ 65_536) ⊎ (divider ≡ 255))
    × ((d : ℕ) → start ≤ d → d < divider → 65_536 < quotient / d)

divider_loop-Least :
    (fuel divider quotient : ℕ)
    → divider + fuel ≡ 255
    → Least divider quotient (divider_loop fuel divider quotient)
unfolding divider_loop
divider_loop-Least zero divider quotient e =
    (omega arith, omega arith, inr (omega arith), λ d from to. absurd (omega arith))
divider_loop-Least (suc fuel) divider quotient e =
    let (start, last, exit, least) = divider_loop-Least fuel (divider + 1) quotient (omega arith) in
    let rest = divider_loop fuel (divider + 1) quotient in
    if-cases (Least divider quotient) (ltb 65_536 (quotient / divider) && ltb divider 255)
      (λ going. (
        omega arith,
        last,
        exit,
        λ d from to. elim (dec_lt divider d) [
          | yes further ↦ least d (omega arith) to
          | no same ↦
              let e' : divider ≡ d = omega arith in
              subst (λ n. 65_536 < quotient / n) e' (too_long (quotient / divider) divider going)
        ],
      ))
      (λ stops. (
        omega arith,
        omega arith,
        served (quotient / divider) divider stops (omega arith),
        λ d from to. absurd (omega arith),
      ))
  where
    too_long : (p d : ℕ) → (ltb 65_536 p && ltb d 255) ≡ true → 65_536 < p
    too_long p d h = ground arith

    served : (p d : ℕ) → (ltb 65_536 p && ltb d 255) ≡ false → d ≤ 255 → (p ≤ 65_536) ⊎ (d ≡ 255)
    served p d h le = ground arith

period_fields :
    (value drive_percent : ℕ)
    → drive_percent ≤ 50
    → let period = clamp value 2 65_536 in
      ((period - 1) % 2 ^ 16 + 1 ≡ period)
      × (period * drive_percent % 2 ^ 32 / 100 % 2 ^ 16 ≡ period * drive_percent / 100)
      × (2 * (period * drive_percent / 100) ≤ period)
      × (2 ≤ period)
      × (period ≤ 65_536)
period_fields value drive_percent h =
    let period = clamp value 2 65_536 in
    let bound : period * drive_percent ≤ period * 50 = mul-le-mul_left period h in
    (omega arith, omega arith, omega arith, omega arith, omega arith)

-- The configuration of a tone with at most half drive: the divider is the least from 1 to 255 with
-- which the period fits the counter, or 255; the counter's period is the clock divided by the
-- frequency and the divider, held between 2 and 65536; the pulse is the given share of the period,
-- at most half of it, and no field wraps.
pub tone_config-Wave :
    (default_config : Config) (system_clock_hz frequency_hz drive_percent : ℕ)
    → drive_percent ≤ 50
    → let c = tone_config default_config system_clock_hz frequency_hz drive_percent in
      let quotient = system_clock_hz / max frequency_hz 1 in
      Least 1 quotient c.divider
      × (c.top + 1 ≡ clamp (quotient / c.divider) 2 65_536)
      × (c.compare_a ≡ (c.top + 1) * drive_percent / 100)
      × (2 * c.compare_a ≤ c.top + 1)
unfolding tone_config
tone_config-Wave default_config system_clock_hz frequency_hz drive_percent h =
    let quotient = system_clock_hz / max frequency_hz 1 in
    let divider = divider_loop 254 1 quotient in
    let least = divider_loop-Least 254 1 quotient refl in
    let small : divider % 2 ^ 8 ≡ divider = omega arith in
    let (top, compare, half, _, _) = period_fields (quotient / divider) drive_percent h in
    rw (small, top, compare) (least, refl, refl, half)
