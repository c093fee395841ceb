-- ===== src/Buttons.antt =====
-- The debouncing of the four buttons, firmware/golfer/src/buttons.rs. A poll of a button is a
-- function of its state and its sample; what the task sends is the list of events of a poll.
pub mod Debounce
pub mod Rounds
pub mod AudioTest
mod Tests
use golfer.Prelude.{
  ℕ, List, Bool, Option, [], false, if◌then◌else◌, ltb, none, not, some, true, ◌%◌, ◌++◌, ◌+◌, ◌∷◌,
}

pub data Button : Type 0 where
  one : Button
  two : Button
  three : Button
  four : Button

abbrev pub index : Button → ℕ
index one = 0
index two = 1
index three = 2
index four = 3

abbrev pub number : Button → ℕ
number button = index button % 256 + 1

pub record ButtonEvent : Type 0 where
  pub button : Button
  pub pressed : Bool

abbrev debounce_samples : ℕ
debounce_samples = 4

-- One entry of `stable_pressed` and of `differing_samples`.
pub record Debounced : Type 0 where
  pub stable_pressed : Bool
  pub differing_samples : ℕ

abbrev pub released : Debounced
released = record { stable_pressed = false; differing_samples = 0 }

abbrev pub same : Bool → Bool → Bool
same true b = b
same false b = not b

abbrev saturating_suc : ℕ → ℕ
saturating_suc n = if ltb n 255 then n + 1 else 255

-- The body of the loop over the inputs; an event carries the sample.
unfoldable pub poll : Bool → Debounced → Debounced × Option Bool
poll sampled d =
    if same sampled d.stable_pressed
    then (record d { differing_samples = 0 }, none)
    else if ltb (saturating_suc d.differing_samples) debounce_samples
    then (record d { differing_samples = saturating_suc d.differing_samples }, none)
    else (record { stable_pressed = sampled; differing_samples = 0 }, some sampled)

-- The states of the four buttons.
pub record Task : Type 0 where
  pub b1 : Debounced
  pub b2 : Debounced
  pub b3 : Debounced
  pub b4 : Debounced

abbrev pub started : Task
started = record { b1 = released; b2 = released; b3 = released; b4 = released }

abbrev pub event : Button → Option Bool → List ButtonEvent
event button none = []
event button (some pressed) = record { button = button; pressed = pressed } ∷ []

-- A round of the task: the four inputs in the order of `Button::ALL`.
unfoldable pub round : (Button → Bool) → Task → Task × List ButtonEvent
unfolding poll
round sampled t =
    let (b1, e1) = poll (sampled one) t.b1 in
    let (b2, e2) = poll (sampled two) t.b2 in
    let (b3, e3) = poll (sampled three) t.b3 in
    let (b4, e4) = poll (sampled four) t.b4 in
    (
      record { b1 = b1; b2 = b2; b3 = b3; b4 = b4 },
      event one e1 ++ event two e2 ++ event three e3 ++ event four e4,
    )

-- Round after round, with the events in the order in which they are sent.
unfoldable pub run : List (Button → Bool) → Task → Task × List ButtonEvent
run [] t = (t, [])
run (sampled ∷ rest) t =
    let (t1, events) = round sampled t in let (t2, later) = run rest t1 in (t2, events ++ later)

-- One button on its own.
abbrev pub sent : Option Bool → List Bool → List Bool
sent none later = later
sent (some pressed) later = pressed ∷ later

unfoldable pub poll_all : List Bool → Debounced → Debounced × List Bool
poll_all [] d = (d, [])
poll_all (sampled ∷ rest) d =
    let (d1, event) = poll sampled d in let (d2, later) = poll_all rest d1 in (d2, sent event later)
