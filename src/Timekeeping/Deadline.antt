-- ===== src/Timekeeping/Deadline.antt =====
-- The deadlines of LOCAL.LOG (firmware/golfer/src/main.rs) keep their cadence.
use golfer.Prelude.{
  ℕ, zero, suc, ◌+◌, ◌*◌, ◌^◌, ◌≤◌, ◌<◌, ◌≡◌, arith, ltb, saturating_add, u64_mod, if-cases, ltb→lt,
}
use golfer.Timekeeping.{advance}

-- When a deadline is due, the loop that follows the sample, run as often as it needs, gives the first
-- later deadline that lies in the future: a whole number of seconds, one or more, behind the one that
-- was due, and at most a second ahead; the clock is a second and more below the limit of 64 bits.
pub advance-next :
    (fuel next after : ℕ)
    → next ≤ after
    → after < next + 1000 * fuel
    → after + 1000 < 2 ^ 64
    → (steps : ℕ) × (advance fuel next after ≡ next + 1000 * (1 + steps))
      × (after < advance fuel next after)
      × (advance fuel next after ≤ after + 1000)
unfolding advance
advance-next zero next after due enough fits = absurd (omega arith)
advance-next (suc fuel) next after due enough fits =
    let sum : saturating_add u64_mod next 1000 ≡ next + 1000 = ground arith in
    let P : ℕ → Type 0 =
      λ r. (steps : ℕ) × (r ≡ next + 1000 * (1 + steps)) × (after < r) × (r ≤ after + 1000) in
    rw sum (
      if-cases P (ltb after (next + 1000))
        (λ future. (0, omega arith, ltb→lt after (next + 1000) future, omega arith))
        (λ still_due.
          let late : next + 1000 ≤ after = ground arith in
          let (steps, e, ahead, near) =
            advance-next fuel (next + 1000) after late (omega arith) fits in
          (suc steps, omega arith, ahead, near)))
