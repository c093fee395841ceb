-- ===== src/Buttons/AudioTest.antt =====
-- The task of firmware/golfer/src/main.rs that plays a tone while a button is held,
-- `button_audio_test_task`: its state, and what it sends to the audio task for an event.
pub mod Invariant
use golfer.Prelude.{ℕ, Bool, List, Option, [], false, if◌then◌else◌, none, some, true, ◌==◌, ◌∷◌}
use golfer.Buttons.{Button, one, two, three, four, ButtonEvent, index}

abbrev button_test_drive_percent : ℕ
button_test_drive_percent = 10

abbrev button_test_frequency_hz : Button → ℕ
button_test_frequency_hz one = 330
button_test_frequency_hz two = 440
button_test_frequency_hz three = 550
button_test_frequency_hz four = 660

-- `held` is the array by its four entries.
pub record AudioTest : Type 0 where
  pub held_1 : Bool
  pub held_2 : Bool
  pub held_3 : Bool
  pub held_4 : Bool
  pub active : Option Button

abbrev pub silent : AudioTest
silent = record { held_1 = false; held_2 = false; held_3 = false; held_4 = false; active = none }

abbrev pub held : Button → AudioTest → Bool
held one s = s.held_1
held two s = s.held_2
held three s = s.held_3
held four s = s.held_4

abbrev pub set_held : Button → Bool → AudioTest → AudioTest
set_held one b s = record s { held_1 = b }
set_held two b s = record s { held_2 = b }
set_held three b s = record s { held_3 = b }
set_held four b s = record s { held_4 = b }

-- What is asked of the audio task.
pub data AudioCommand : Type 0 where
  play_tone : ℕ → ℕ → AudioCommand
  stop : AudioCommand

abbrev pub tone_of : Button → AudioCommand
tone_of button = play_tone (button_test_frequency_hz button) button_test_drive_percent

abbrev pub is_active : Option Button → Button → Bool
is_active none button = false
is_active (some other) button = index other == index button

-- `Button::ALL.iter().rev().copied().find(..)`
abbrev pub fallback : AudioTest → Option Button
fallback s =
    if s.held_4
    then some four
    else if s.held_3
    then some three
    else if s.held_2
    then some two
    else if s.held_1
    then some one
    else none

abbrev pub resume : Option Button → AudioCommand
resume none = stop
resume (some button) = tone_of button

-- A round of the loop.
unfoldable pub on_event : ButtonEvent → AudioTest → AudioTest × Option AudioCommand
on_event e s =
    if e.pressed
    then (record (set_held e.button true s) { active = some e.button }, some (tone_of e.button))
    else if is_active s.active e.button
    then (
      record (set_held e.button false s) { active = fallback (set_held e.button false s) },
      some (resume (fallback (set_held e.button false s))),
    )
    else (set_held e.button false s, none)

abbrev pub latest : Option AudioCommand → Option AudioCommand → Option AudioCommand
latest none playing = playing
latest (some command) playing = some command

-- Event after event, with the last command.
unfoldable pub on_events :
    List ButtonEvent → AudioTest → Option AudioCommand → AudioTest × Option AudioCommand
unfolding on_event
on_events [] s playing = (s, playing)
on_events (e ∷ rest) s playing = on_events rest (on_event e s).0 (latest (on_event e s).1 playing)
