-- ===== src/Display/Tests.antt =====
-- Tests of the display, and the theorems about it at concrete calls.
use golfer.Prelude.{
  ℕ, ◌*◌, ◌≡◌, refl, true, ◌&&◌, some, List, [], ◌∷◌, All, length, ltb, if◌then◌else◌, arith,
}
use golfer.Prelude.Text.{codes}
use golfer.Prelude.Format.{digits_within}
use golfer.Prelude.Int.{pos, negsuc}
use golfer.System.{SystemInfo, SystemConfig, read_only, read_write}
use golfer.Display.{general, lora, nok, radio_connected, GpsDisplayState}
use golfer.Display.Target.{
  Color, black, white, draw_text, DrawTarget, Ink, inked, inside, Bounded, Faithful,
}
use golfer.Display.Ui.{coordinate_value, draw_boot, draw_value}
use golfer.Prelude.{◌*◌, length}
use golfer.Display.Facade.{
  redraw_page, Call, to_page, init_status, radio_state, gps_state, radio_changes,
}
use golfer.Display.Calm.{CallInType}
use golfer.Display.Refinement.{run-redraw, drawn, after, SamePanels}
use golfer.Display.Contents.{run-Contents, Legibly}
use golfer.Display.Coordinate.{parse-coordinate_value}
use golfer.Gps.Decimal.{parse_decimal_fixed_i32}

-- A font of solid blocks, and a panel that is the function of its pixels.
abbrev block_ink : Ink
block_ink text dx dy = ltb dx (6 * length text) && ltb dy 10

abbrev Panel : Type 0
Panel = ℕ → ℕ → Color

abbrev panel : DrawTarget Panel
panel = record {
  clear_to = λ t color. some (λ px py. color);
  fill = λ t x y w h color. some (λ px py. if inside x y w h px py then color else t px py);
  write_text =
      λ t text x y color. some (λ px py. if inked block_ink text x y px py then color else t px py);
  pixel = λ t. t;
}

block_ink-Bounded : Bounded block_ink
block_ink-Bounded text dx dy h = ground arith

panel-Faithful : Faithful panel block_ink
panel-Faithful = record {
  bounded = block_ink-Bounded;
  clears = λ color t. (λ px py. color, refl, λ px py hx hy. refl);
  fills = λ x y w h color t. (_, refl, λ px py hx hy. refl);
  writes = λ text x y color t. (_, refl, λ px py hx hy. refl);
}

abbrev info : SystemInfo
info = record {
  system_id = record { value = 0x12; access = read_only };
  firmware_version = record { value = codes "0.1.0"; access = read_only };
  protocol_version = record { value = 1; access = read_only };
  config_version = record { value = 1; access = read_only };
}

abbrev config : SystemConfig
config = record { name = record { value = codes "ALPHA"; access = read_write } }

abbrev fixed : GpsDisplayState
fixed = record {
  online = true;
  fix = true;
  latitude_e7 = some (pos 407_128_000);
  longitude_e7 = some (negsuc 740_059_999);
  satellites = some 9;
}

-- The radio connects, the page turns, a packet is missed, and the GPS gets a fix.
abbrev calls : List Call
calls =
    init_status lora nok
    ∷ radio_state (radio_connected 7 (negsuc 96) (pos 8) 1 0)
    ∷ to_page general
    ∷ radio_state (radio_connected 9 (negsuc 96) (pos 8) 2 1)
    ∷ gps_state fixed
    ∷ []

calls-InType : All CallInType calls
calls-InType = (
  tt,
  (
    (omega arith, omega arith, omega arith, omega arith, omega arith),
    (
      tt,
      (
        (omega arith, omega arith, omega arith, omega arith, omega arith),
        ((omega arith, omega arith, omega arith), tt),
      ),
    ),
  ),
)

abbrev dark : Panel
dark px py = black

run-redraw_example :
    SamePanels panel block_ink panel-Faithful
      (drawn info config calls)
      dark
      (redraw_page (after info config calls))
      (λ px py. white)
run-redraw_example =
    run-redraw panel block_ink panel-Faithful info config calls dark (λ px py. white) calls-InType

run-Contents_example :
    Legibly panel block_ink panel-Faithful (drawn info config calls) dark (after info config calls)
run-Contents_example =
    run-Contents panel block_ink panel-Faithful info config calls dark calls-InType

parse-coordinate_value_example :
    parse_decimal_fixed_i32 (coordinate_value (negsuc 740_059_999)) 7 ≡ some (negsuc 740_059_999)
parse-coordinate_value_example = parse-coordinate_value (negsuc 740_059_999) (omega arith)

-- The digits, the sign and the zeros of the fraction.
longitude : coordinate_value (negsuc 740_059_999) ≡ codes "-74.0060000"
unfolding coordinate_value digits_within
longitude = refl

small_latitude : coordinate_value (pos 12) ≡ codes "0.0000012"
unfolding coordinate_value digits_within
small_latitude = refl

-- Only what changed is drawn.
sequence_only :
    radio_changes
      (radio_connected 7 (negsuc 96) (pos 8) 1 0)
      (radio_connected 8 (negsuc 96) (pos 8) 1 0)
    ≡ draw_value 58 (codes "8")
unfolding radio_changes digits_within
sequence_only = refl

-- What the former boot page writes of the system's identity.
boot_draws : draw_boot info config ≡ (
    draw_text (codes "GOLFER") 4 12 white
    ∷ draw_text (codes "SYSTEM INITIALIZATION") 4 28 white
    ∷ draw_text (codes "NAME [RW]") 4 60 white
    ∷ draw_text (codes "ALPHA") 4 76 white
    ∷ draw_text (codes "SYSTEM ID [RO]") 4 108 white
    ∷ draw_text (codes "0000000000000012") 4 124 white
    ∷ draw_text (codes "FIRMWARE  0.1.0 [RO]") 4 172 white
    ∷ draw_text (codes "PROTOCOL  1 [RO]") 4 188 white
    ∷ draw_text (codes "CONFIG    1 [RO]") 4 204 white
    ∷ [])
unfolding draw_boot digits_within
boot_draws = refl
