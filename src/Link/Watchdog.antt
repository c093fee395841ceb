-- ===== src/Link/Watchdog.antt =====
-- The loss of the link (firmware/golfer/src/main.rs, the watchdog arm of the main loop).
use golfer.Link.{Link, on_tick, tick_since, loss_requests}
use golfer.Link.Requests.{Request}
use golfer.Prelude.{
  ℕ, List, [], false, if◌then◌else◌, some, true, ◌+◌, ◌↔◌, ◌∷◌, ◌≡◌, ◌≢◌, ◌≤◌, Bool, Option, arith,
  inl, inr, ltb, none, none-some, refl, some-eq, ◌-◌, ◌/◌, ◌⊎◌, ◌++◌, append_nil, Option-cases,
  subst, sym,
}

-- Ticks with no packet between them: all that they ask for.
unfoldable pub ticks : List ℕ → Link → List Request
unfolding on_tick
ticks [] k = []
ticks (now ∷ rest) k = (on_tick now k).1 ++ ticks rest (on_tick now k).0

old_enough : (now last : ℕ) → (ltb ((now - last) / 1000) 5 ≡ false) ↔ (last + 5000 ≤ now)
old_enough now last = ground arith

-- The two tests of a tick, over what a report asks for.
abbrev report : List Request → Bool → Bool → Link → Link × List Request
report requests early displayed k =
    if early
    then (k, [])
    else if displayed
    then (k, [])
    else (record k { link_lost_displayed = true }, requests)

tick_test :
    (requests : List Request) (early displayed : Bool) (k : Link)
    → requests ≢ []
    → ((report requests early displayed k).1 ≢ []) ↔ ((early ≡ false) × (displayed ≡ false))
tick_test requests true displayed k ne = (λ h. absurd (h refl), λ h. cc (h.0))
tick_test requests false true k ne = (λ h. absurd (h refl), λ h. cc (h.1))
tick_test requests false false k ne = (λ h. (refl, refl), λ h. ne)

tick_since_iff :
    (now : ℕ) (o : Option ℕ) (k : Link)
    → ((tick_since now o k).1 ≢ [])
      ↔ ((last : ℕ) × (o ≡ some last) × (last + 5000 ≤ now) × (k.link_lost_displayed ≡ false))
tick_since_iff now none k = (λ h. absurd (h refl), λ h. absurd (none-some h.1))
tick_since_iff now (some last) k =
    let test =
      tick_test (loss_requests now last k) (ltb ((now - last) / 1000) 5) k.link_lost_displayed k
        (λ e. cc) in
    (
      λ h. (last, refl, (old_enough now last).0 (test.0 h).0, (test.0 h).1),
      λ h. test.1 ((old_enough now last).1 (omega (arith, some-eq h.1, h.2)), h.3),
    )

-- A tick asks for anything, which is to report the loss of the link, exactly when a packet was
-- accepted before, at least five seconds ago, and the loss was not reported yet.
pub on_tick_iff :
    (now : ℕ) (k : Link)
    → ((on_tick now k).1 ≢ []) ↔ (
        (last : ℕ) × (k.last_valid_rx_time ≡ some last)
        × (last + 5000 ≤ now)
        × (k.link_lost_displayed ≡ false))
unfolding on_tick
on_tick_iff now k = tick_since_iff now k.last_valid_rx_time k

abbrev pub lost : Link → Link
lost k = record k { link_lost_displayed = true }

-- The report of the loss, made at a time for a last packet.
abbrev pub IsReport : Link → ℕ → List Request → Type 0
IsReport k now requests =
    (last : ℕ) × (k.last_valid_rx_time ≡ some last)
    × (last + 5000 ≤ now)
    × (requests ≡ loss_requests now last k)

-- A tick that reports the loss marks it as reported; any other tick changes nothing.
abbrev Reports : ℕ → Link → Link × List Request → Type 0
Reports now k r = (r ≡ (k, [])) ⊎ ((r.0 ≡ lost k) × IsReport k now r.1)

report-cases :
    (now last : ℕ) (k : Link) (early displayed : Bool)
    → k.last_valid_rx_time ≡ some last
    → (early ≡ false → last + 5000 ≤ now)
    → Reports now k (report (loss_requests now last k) early displayed k)
report-cases now last k true displayed e old = inl refl
report-cases now last k false true e old = inl refl
report-cases now last k false false e old = inr (refl, (last, e, old refl, refl))

pub on_tick-cases : (now : ℕ) (k : Link) → Reports now k (on_tick now k)
unfolding on_tick
on_tick-cases now k = elim (Option-cases k.last_valid_rx_time) [
  | inl never ↦ rw never (inl refl)
  | inr (last, e) ↦
      subst (λ o. Reports now k (tick_since now o k)) (sym e)
        (report-cases now last k (ltb ((now - last) / 1000) 5) k.link_lost_displayed e
          (old_enough now last).0)
]

report-lost :
    (requests : List Request) (early : Bool) (k : Link) → report requests early true k ≡ (k, [])
report-lost requests true k = refl
report-lost requests false k = refl

lost-silent : (now : ℕ) (o : Option ℕ) (k : Link) → tick_since now o (lost k) ≡ (lost k, [])
lost-silent now none k = refl
lost-silent now (some last) k =
    report-lost (loss_requests now last (lost k)) (ltb ((now - last) / 1000) 5) (lost k)

ticks-lost : (times : List ℕ) (k : Link) → ticks times (lost k) ≡ []
unfolding ticks on_tick
ticks-lost [] k = refl
ticks-lost (now ∷ rest) k = rw (lost-silent now k.last_valid_rx_time k) (ticks-lost rest k)

-- However many ticks pass with no packet, and at whatever times, all that they ask for is at most one
-- report of the loss, made for the last packet that was accepted, five seconds after it or later.
pub ticks-IsReport_once :
    (times : List ℕ) (k : Link)
    → (ticks times k ≡ []) ⊎ ((now : ℕ) × IsReport k now (ticks times k))
unfolding ticks
ticks-IsReport_once [] k = inl refl
ticks-IsReport_once (now ∷ rest) k = elim (on_tick-cases now k) [
  | inl quiet ↦ rw quiet (ticks-IsReport_once rest k)
  | inr (marked, (last, e, old, asked)) ↦ inr (
    now,
    (last, e, old, rw (marked, asked, ticks-lost rest k) (append_nil (loss_requests now last k))),
  )
]
