-- ===== src/Audio.antt =====
-- The audio subsystem, firmware/golfer/src/audio.rs. Frequencies are in Hz and times in milliseconds.
-- The system clock and the default configuration of embassy-rp's PWM are arguments.
pub mod Wave
pub mod Latest
mod Tests
use golfer.Prelude.{
  ℕ, zero, suc, ◌+◌, ◌-◌, ◌*◌, ◌/◌, ◌%◌, ◌^◌, min, max, Bool, true, false, ◌&&◌, ◌||◌, Option, none,
  some, List, [], ◌∷◌, ◌++◌, length, ltb, ◌==◌, if◌then◌else◌,
}

pub data UiSound : Type 0 where
  startup link_lost link_reacquired : UiSound

abbrev ui_sound_queue_depth : ℕ
ui_sound_queue_depth = 4

abbrev ui_drive_percent : ℕ
ui_drive_percent = 10

abbrev max_drive_percent : ℕ
max_drive_percent = 50

pub record Tone : Type 0 where
  pub frequency_hz : ℕ
  pub drive_percent : ℕ

-- The fields of the PWM's configuration that the code sets.
pub record Config : Type 0 where
  pub divider : ℕ
  pub top : ℕ
  pub compare_a : ℕ
  pub compare_b : ℕ
  pub phase_correct : Bool
  pub enable : Bool

-- The `while` loop: the divider that it ends with, for the quotient `system_clock_hz / frequency_hz`.
unfoldable pub divider_loop : ℕ → ℕ → ℕ → ℕ
divider_loop zero divider quotient = divider
divider_loop (suc fuel) divider quotient =
    let rest = divider_loop fuel (divider + 1) quotient in
    if ltb 65_536 (quotient / divider) && ltb divider 255 then rest else divider

abbrev pub clamp : ℕ → ℕ → ℕ → ℕ
clamp value low high = min (max value low) high

-- A divider below 255 is raised at most 254 times.
unfoldable pub tone_config : Config → ℕ → ℕ → ℕ → Config
tone_config default_config system_clock_hz frequency_hz drive_percent =
    let quotient = system_clock_hz / max frequency_hz 1 in
    let divider = divider_loop 254 1 quotient in
    let period_counts = clamp (quotient / divider) 2 65_536 in
    record default_config {
      divider = divider % 2 ^ 8;
      top = (period_counts - 1) % 2 ^ 16;
      compare_a = period_counts * drive_percent % 2 ^ 32 / 100 % 2 ^ 16;
      compare_b = 0;
      phase_correct = false;
      enable = true;
    }

abbrev silent_config : Config → Config
silent_config default_config = record default_config { compare_a = 0; compare_b = 0; enable = true }

-- The configuration that `apply_optional_tone` sets.
abbrev pub apply_optional_tone : Config → ℕ → Option Tone → Config
apply_optional_tone default_config system_clock_hz none = silent_config default_config
apply_optional_tone default_config system_clock_hz (some tone) =
    tone_config default_config system_clock_hz tone.frequency_hz tone.drive_percent

-- The request that `play_tone` signals; a tone of no frequency or no drive stops the routine audio.
abbrev pub play_tone : ℕ → ℕ → Option Tone
play_tone frequency_hz drive_percent =
    if frequency_hz == 0 || drive_percent == 0
    then none
    else some (record {
      frequency_hz = frequency_hz;
      drive_percent = min drive_percent max_drive_percent;
    })

abbrev note : ℕ → Option Tone
note frequency_hz = some (record { frequency_hz = frequency_hz; drive_percent = ui_drive_percent })

-- What is applied in a UI sound, each for a time; the last is the silence that ends it.
abbrev pub ui_sequence : UiSound → List (Option Tone × ℕ)
ui_sequence startup =
    (note 523, 90)
    ∷ (none, 25)
    ∷ (note 659, 90)
    ∷ (none, 25)
    ∷ (note 784, 100)
    ∷ (none, 30)
    ∷ (note 1047, 170)
    ∷ (none, 0)
    ∷ []
ui_sequence link_lost =
    (note 659, 130) ∷ (none, 35) ∷ (note 440, 180) ∷ (none, 40) ∷ (note 294, 280) ∷ (none, 0) ∷ []
ui_sequence link_reacquired =
    (note 440, 85)
    ∷ (none, 20)
    ∷ (note 659, 85)
    ∷ (none, 20)
    ∷ (note 880, 100)
    ∷ (none, 20)
    ∷ (note 1175, 220)
    ∷ (none, 0)
    ∷ []

-- The task with its two channels: the queue of UI sounds, and the signal with the newest routine
-- request that it has not taken; `applied` is the tone that it gave to `apply_optional_tone` last.
pub record AudioTask : Type 0 where
  pub ui_sounds : List UiSound
  pub routine_request : Option (Option Tone)
  pub routine_tone : Option Tone
  pub applied : Option Tone

abbrev pub started : AudioTask
started = record { ui_sounds = []; routine_request = none; routine_tone = none; applied = none }

-- `ROUTINE_TONE.signal`, which replaces a request that was not taken.
abbrev pub signal : Option Tone → AudioTask → AudioTask
signal tone k = record k { routine_request = some tone }

abbrev pub signal_all : List (Option Tone) → AudioTask → AudioTask
signal_all [] k = k
signal_all (tone ∷ tones) k = signal_all tones (signal tone k)

-- `UI_SOUNDS.send`; the sender waits while the queue is full.
abbrev pub send : UiSound → AudioTask → AudioTask
send sound k =
    if ltb (length k.ui_sounds) ui_sound_queue_depth
    then record k { ui_sounds = k.ui_sounds ++ (sound ∷ []) }
    else k

-- `if let Some(latest) = ROUTINE_TONE.try_take() { routine_tone = latest; }`
abbrev pub take_request : Option (Option Tone) → AudioTask → AudioTask
take_request none k = k
take_request (some latest) k = record k { routine_request = none; routine_tone = latest }

abbrev pub apply_routine : AudioTask → AudioTask
apply_routine k = record k { applied = k.routine_tone }

abbrev pub take_and_apply : Option (Option Tone) → AudioTask → AudioTask
take_and_apply none k = k
take_and_apply (some latest) k = apply_routine (take_request (some latest) k)

-- What the sequence leaves applied.
abbrev pub last_applied : Option Tone → List (Option Tone × ℕ) → Option Tone
last_applied before [] = before
last_applied before (next ∷ steps) = last_applied next.0 steps

-- One turn of the loop of `task`, with the requests that arrive while it waits: for a UI sound to play,
-- or else for the service interval.
abbrev pub turn : List (Option Tone) → List UiSound → AudioTask → AudioTask
turn meanwhile [] k = signal_all meanwhile (take_and_apply k.routine_request k)
turn meanwhile (sound ∷ sounds) k =
    let played =
      signal_all meanwhile
        (record k { ui_sounds = sounds; applied = last_applied k.applied (ui_sequence sound) }) in
    apply_routine (take_request played.routine_request played)

-- What happens to the task: a routine request, a UI sound, or a turn of its loop.
pub data Event : Type 0 where
  routine : Option Tone → Event
  queued : UiSound → Event
  turned : List (Option Tone) → Event

abbrev pub step : Event → AudioTask → AudioTask
step (routine tone) k = signal tone k
step (queued sound) k = send sound k
step (turned meanwhile) k = turn meanwhile k.ui_sounds k

unfoldable pub run : List Event → AudioTask → AudioTask
run [] k = k
run (event ∷ events) k = run events (step event k)
