-- ===== src/Display/Statuses.antt =====
-- The boxes of the boot page: five rows that do not overlap.
use golfer.Prelude.{
  ℕ, ◌+◌, ◌%◌, ◌≤◌, ◌<◌, ◌≡◌, refl, List, [], ◌∷◌, All, arith, ◌==◌, if◌then◌else◌,
}
use golfer.Display.{InitSubsystem, system, display, sd_card, gps, lora}
use golfer.Display.Rows.{Layout}
use golfer.Display.BootScreen.{status_x, row_h, status_w, row_y}

abbrev pub subsystems : List InitSubsystem
subsystems = system ∷ display ∷ sd_card ∷ gps ∷ lora ∷ []

pub every_subsystem : (P : InitSubsystem → Type 0) → All P subsystems → (s : InitSubsystem) → P s
every_subsystem P h system = h.0
every_subsystem P h display = h.1.0
every_subsystem P h sd_card = h.1.1.0
every_subsystem P h gps = h.1.1.1.0
every_subsystem P h lora = h.1.1.1.1.0

abbrev subsystem_of : ℕ → InitSubsystem
subsystem_of y =
    if y == 72
    then system
    else if y == 94
    then display
    else if y == 116
    then sd_card
    else if y == 138
    then gps
    else lora

pub subsystem_of-row_y : (s : InitSubsystem) → subsystem_of (row_y s) ≡ s
subsystem_of-row_y system = refl
subsystem_of-row_y display = refl
subsystem_of-row_y sd_card = refl
subsystem_of-row_y gps = refl
subsystem_of-row_y lora = refl

-- The rows stand 22 apart.
row_y-mod : (s : InitSubsystem) → row_y s % 22 ≡ 6
row_y-mod system = refl
row_y-mod display = refl
row_y-mod sd_card = refl
row_y-mod gps = refl
row_y-mod lora = refl

pub row_y-apart :
    (s s' : InitSubsystem) (py : ℕ)
    → row_y s ≤ py
    → py < row_y s + row_h
    → row_y s' ≤ py
    → py < row_y s' + row_h
    → row_y s ≡ row_y s'
row_y-apart s s' py h1 h2 h3 h4 = omega (arith, row_y-mod s, row_y-mod s')

abbrev pub status_boxes : Layout InitSubsystem
status_boxes = record {
  row = row_y;
  left = status_x;
  width = status_w;
  height = row_h;
  boxes = subsystems;
  complete = every_subsystem;
  of_row = subsystem_of;
  of_row_lem = subsystem_of-row_y;
  apart = row_y-apart;
  high = omega arith;
}
