-- ===== src/Audio/Tests.antt =====
-- The audio subsystem of firmware/golfer/src/audio.rs at concrete inputs.
use golfer.Prelude.{
  ◌+◌, ◌*◌, ◌/◌, ◌≤◌, ◌≡◌, refl, arith, false, true, none, some, List, [], ◌∷◌, ◌++◌,
}
use golfer.Audio.{
  Config, apply_optional_tone, note, tone_config, divider_loop, clamp, play_tone, link_lost, Event,
  routine, queued, turned, run, started,
}
use golfer.Audio.Wave.{Least, tone_config-Wave}
use golfer.Audio.Latest.{run-newest}

abbrev default_config : Config
default_config = record {
  divider = 1;
  top = 0xFFFF;
  compare_a = 0;
  compare_b = 0;
  phase_correct = false;
  enable = false;
}

-- 440 Hz at 150 MHz, and silence.
concert_pitch :
    apply_optional_tone default_config 150_000_000 (note 440)
    ≡ record default_config { divider = 6; top = 56_817; compare_a = 5_681; enable = true }
unfolding tone_config divider_loop
concert_pitch = refl

silence :
    apply_optional_tone default_config 150_000_000 none ≡ record default_config { enable = true }
silence = refl

tone_config-Wave_example :
    let c = tone_config default_config 150_000_000 440 10 in
    Least 1 (150_000_000 / 440) c.divider
    × (c.top + 1 ≡ clamp (150_000_000 / 440 / c.divider) 2 65_536)
    × (c.compare_a ≡ (c.top + 1) * 10 / 100)
    × (2 * c.compare_a ≤ c.top + 1)
tone_config-Wave_example = tone_config-Wave default_config 150_000_000 440 10 (omega arith)

-- The button changes while the sound for a lost link plays.
abbrev changed_meanwhile : List Event
changed_meanwhile =
    routine (play_tone 523 20)
    ∷ turned []
    ∷ queued link_lost
    ∷ turned (none ∷ play_tone 659 80 ∷ [])
    ∷ []

run-newest_example :
    (run (changed_meanwhile ++ (turned [] ∷ [])) started).applied
    ≡ some (record { frequency_hz = 659; drive_percent = 50 })
run-newest_example = run-newest changed_meanwhile
