-- ===== src/Display/BootScreen.antt =====
-- The boot page, firmware/golfer/src/display/boot_status.rs.
use golfer.Prelude.{ℕ, List, [], ◌∷◌, ◌++◌}
use golfer.Prelude.Text.{codes}
use golfer.Display.{
  InitStatus, initializing, okay, nok, InitSubsystem, system, display, sd_card, gps, lora,
  BootStatus,
}
use golfer.Display.Target.{
  Color, black, white, yellow, green, blue, Draw, clear, fill_solid, draw_text,
}

abbrev pub label_x : ℕ
label_x = 12

abbrev pub status_x : ℕ
status_x = 104

abbrev pub row_h : ℕ
row_h = 18

abbrev pub status_w : ℕ
status_w = 124

abbrev pub row_y : InitSubsystem → ℕ
row_y system = 72
row_y display = 94
row_y sd_card = 116
row_y gps = 138
row_y lora = 160

abbrev pub label : InitSubsystem → List ℕ
label system = codes "SYSTEM"
label display = codes "DISPLAY"
label sd_card = codes "SD CARD"
label gps = codes "GPS"
label lora = codes "LORA"

abbrev pub status_text : InitStatus → List ℕ
status_text initializing = codes "initializing..."
status_text okay = codes "OK"
status_text nok = codes "NOK"

abbrev pub status_style : InitStatus → Color
status_style initializing = yellow
status_style okay = green
status_style nok = blue

abbrev pub draw_row : InitSubsystem → InitStatus → List Draw
draw_row subsystem status =
    draw_text (label subsystem) label_x (row_y subsystem) white
    ∷ fill_solid status_x (row_y subsystem) status_w row_h black
    ∷ draw_text (status_text status) status_x (row_y subsystem) (status_style status)
    ∷ []

abbrev pub update_row : InitSubsystem → InitStatus → List Draw
update_row = draw_row

unfoldable pub draw_boot_status : BootStatus → List Draw
draw_boot_status status =
    clear black
    ∷ draw_text (codes "GOLFER") 12 16 white
    ∷ draw_text (codes "SYSTEM INITIALIZATION") 12 34 white
    ∷ (draw_row system status.system_status
        ++ (draw_row display status.display_status
            ++ (draw_row sd_card status.sd_card_status
                ++ (draw_row gps status.gps_status ++ draw_row lora status.lora_status))))
