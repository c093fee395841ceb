-- ===== src/Buttons/Rounds.antt =====
-- The four buttons of the task in firmware/golfer/src/buttons.rs, one at a time.
use mathlib.Core.List.{append_assoc}
use golfer.Prelude.{
  List, [], ◌∷◌, ◌++◌, Bool, Option, true, false, none, some, if◌then◌else◌, ◌==◌, ◌≡◌, ◌<◌, ◌↔◌,
  refl, ap, ◌∙◌,
}
use golfer.Buttons.{
  Button, one, two, three, four, ButtonEvent, index, Debounced, Task, event, poll, poll_all, round,
  run, sent, started, released,
}
use golfer.Buttons.Debounce.{Alternate, longest, poll_all-Alternate, poll_all-nil_iff}

abbrev state_of : Button → Task → Debounced
state_of one t = t.b1
state_of two t = t.b2
state_of three t = t.b3
state_of four t = t.b4

-- The events of one button.
abbrev pub events_of : Button → List ButtonEvent → List Bool
events_of b [] = []
events_of b (e ∷ rest) =
    if index e.button == index b then e.pressed ∷ events_of b rest else events_of b rest

-- What one button was sampled as, round after round.
abbrev pub samples_of : Button → List (Button → Bool) → List Bool
samples_of b [] = []
samples_of b (sampled ∷ rest) = sampled b ∷ samples_of b rest

events_of-event_self :
    (b : Button) (e : Option Bool) (rest : List ButtonEvent)
    → events_of b (event b e ++ rest) ≡ sent e (events_of b rest)
events_of-event_self b none rest = refl
events_of-event_self one (some p) rest = refl
events_of-event_self two (some p) rest = refl
events_of-event_self three (some p) rest = refl
events_of-event_self four (some p) rest = refl

events_of-event_other :
    (b c : Button) (e : Option Bool) (rest : List ButtonEvent)
    → (index c == index b) ≡ false
    → events_of b (event c e ++ rest) ≡ events_of b rest
events_of-event_other b c none rest h = refl
events_of-event_other b c (some p) rest h = rw h

-- The events of a round, followed by later ones.
abbrev in_order : (e1 e2 e3 e4 : Option Bool) (later : List ButtonEvent) → List ButtonEvent
in_order e1 e2 e3 e4 later =
    event one e1 ++ (event two e2 ++ (event three e3 ++ (event four e4 ++ later)))

abbrev pick : Button → (e1 e2 e3 e4 : Option Bool) → Option Bool
pick one e1 e2 e3 e4 = e1
pick two e1 e2 e3 e4 = e2
pick three e1 e2 e3 e4 = e3
pick four e1 e2 e3 e4 = e4

events_of-in_order :
    (b : Button) (e1 e2 e3 e4 : Option Bool) (later : List ButtonEvent)
    → events_of b (in_order e1 e2 e3 e4 later) ≡ sent (pick b e1 e2 e3 e4) (events_of b later)
events_of-in_order one e1 e2 e3 e4 later = simp (
  events_of-event_self one,
  events_of-event_other one two e2 _ refl,
  events_of-event_other one three e3 _ refl,
  events_of-event_other one four e4 _ refl,
)
events_of-in_order two e1 e2 e3 e4 later = simp (
  events_of-event_self two,
  events_of-event_other two one e1 _ refl,
  events_of-event_other two three e3 _ refl,
  events_of-event_other two four e4 _ refl,
)
events_of-in_order three e1 e2 e3 e4 later = simp (
  events_of-event_self three,
  events_of-event_other three one e1 _ refl,
  events_of-event_other three two e2 _ refl,
  events_of-event_other three four e4 _ refl,
)
events_of-in_order four e1 e2 e3 e4 later = simp (
  events_of-event_self four,
  events_of-event_other four one e1 _ refl,
  events_of-event_other four two e2 _ refl,
  events_of-event_other four three e3 _ refl,
)

events_of-round :
    (b : Button) (sampled : Button → Bool) (t : Task) (later : List ButtonEvent)
    → events_of b ((round sampled t).1 ++ later)
      ≡ sent (poll (sampled b) (state_of b t)).1 (events_of b later)
unfolding round
events_of-round b sampled t later =
    ap (events_of b) regrouped
    ∙ events_of-in_order b (poll (sampled one) t.b1).1 (poll (sampled two) t.b2).1
        (poll (sampled three) t.b3).1 (poll (sampled four) t.b4).1 later
    ∙ picked b
  where
    regrouped :
        (round sampled t).1 ++ later
        ≡ in_order
            (poll (sampled one) t.b1).1
            (poll (sampled two) t.b2).1
            (poll (sampled three) t.b3).1
            (poll (sampled four) t.b4).1
            later
    regrouped = simp append_assoc

    picked :
        (c : Button)
        → sent
            (pick c
              (poll (sampled one) t.b1).1
              (poll (sampled two) t.b2).1
              (poll (sampled three) t.b3).1
              (poll (sampled four) t.b4).1)
            (events_of b later)
          ≡ sent (poll (sampled c) (state_of c t)).1 (events_of b later)
    picked one = refl
    picked two = refl
    picked three = refl
    picked four = refl

state_of-round :
    (b : Button) (sampled : Button → Bool) (t : Task)
    → state_of b (round sampled t).0 ≡ (poll (sampled b) (state_of b t)).0
unfolding round
state_of-round one sampled t = refl
state_of-round two sampled t = refl
state_of-round three sampled t = refl
state_of-round four sampled t = refl

-- The task gives each button its own debouncing: the events of a button depend on its own samples.
events_of-run :
    (b : Button) (rounds : List (Button → Bool)) (t : Task)
    → events_of b (run rounds t).1 ≡ (poll_all (samples_of b rounds) (state_of b t)).1
unfolding run poll_all
events_of-run b [] t = refl
events_of-run b (sampled ∷ rest) t =
    events_of-round b sampled t (run rest (round sampled t).0).1
    ∙ ap (sent (poll (sampled b) (state_of b t)).1) (
        events_of-run b rest (round sampled t).0
        ∙ ap (λ (d : Debounced). (poll_all (samples_of b rest) d).1) (state_of-round b sampled t))

started-released : (b : Button) → state_of b started ≡ released
started-released one = refl
started-released two = refl
started-released three = refl
started-released four = refl

from_start :
    (b : Button) (rounds : List (Button → Bool))
    → events_of b (run rounds started).1 ≡ (poll_all (samples_of b rounds) released).1
from_start b rounds =
    events_of-run b rounds started
    ∙ ap (λ (d : Debounced). (poll_all (samples_of b rounds) d).1) (started-released b)

-- Whatever the four inputs are sampled as, the events that the task sends for a button are a press, a
-- release, a press, and so on.
pub run-Alternate :
    (b : Button) (rounds : List (Button → Bool))
    → Alternate false (events_of b (run rounds started).1)
run-Alternate b rounds = rw (from_start b rounds) (poll_all-Alternate (samples_of b rounds))

-- After power on the task sends nothing for a button exactly when that input was never sampled low,
-- which is pressed, four rounds in a row, whatever the other inputs do.
pub run-nil_iff :
    (b : Button) (rounds : List (Button → Bool))
    → (events_of b (run rounds started).1 ≡ []) ↔ (longest true (samples_of b rounds) < 4)
run-nil_iff b rounds = rw (from_start b rounds) (poll_all-nil_iff (samples_of b rounds) false)
