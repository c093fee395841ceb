-- ===== src/Buttons/Tests.antt =====
-- The buttons and the tone of a held button at concrete inputs.
use golfer.Prelude.{List, [], ◌∷◌, Bool, true, false, none, some, ◌≡◌, ◌<◌, ◌↔◌, refl, inl}
use golfer.Buttons.{Button, one, two, ButtonEvent, poll, round, run, started}
use golfer.Buttons.Debounce.{Alternate, longest}
use golfer.Buttons.Rounds.{events_of, samples_of, run-Alternate, run-nil_iff}
use golfer.Buttons.AudioTest.{on_events, on_event, silent, tone_of}
use golfer.Buttons.AudioTest.Invariant.{AudioInv, on_events-Inv, silent-Owned}

abbrev only_two : Button → Bool
only_two two = true
only_two b = false

abbrev none_pressed : Button → Bool
none_pressed b = false

-- Five rounds with the second button down, and five with no button down.
abbrev press_and_release : List (Button → Bool)
press_and_release =
    only_two ∷ only_two ∷ only_two ∷ only_two ∷ only_two ∷ none_pressed ∷ none_pressed
    ∷ none_pressed ∷ none_pressed ∷ none_pressed ∷ []

events_sent : events_of two (run press_and_release started).1 ≡ true ∷ false ∷ []
unfolding run round poll
events_sent = refl

run-Alternate_example : Alternate false (events_of two (run press_and_release started).1)
run-Alternate_example = run-Alternate two press_and_release

run-nil_iff_example :
    (events_of one (run press_and_release started).1 ≡ [])
    ↔ (longest true (samples_of one press_and_release) < 4)
run-nil_iff_example = run-nil_iff one press_and_release

-- The first button, then the second; the second is released.
abbrev two_keys : List ButtonEvent
two_keys =
    record { button = one; pressed = true }
    ∷ record { button = two; pressed = true }
    ∷ record { button = two; pressed = false }
    ∷ []

first_resumes : (on_events two_keys silent none).1 ≡ some (tone_of one)
unfolding on_events on_event
first_resumes = refl

on_events-Inv_example :
    AudioInv (on_events two_keys silent none).0 (on_events two_keys silent none).1
on_events-Inv_example =
    on_events-Inv two_keys silent none (record { owned = silent-Owned; heard = inl refl })
