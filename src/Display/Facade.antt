-- ===== src/Display/Facade.antt =====
-- `Display`, the façade of firmware/golfer/src/display/mod.rs: each operation gives the state that it
-- leaves and, in order, what it draws.
use golfer.Prelude.{
  Bool, true, false, not, ◌||◌, Option, none, some, List, [], ◌∷◌, ◌++◌, ◌==◌, if◌then◌else◌,
}
use golfer.Prelude.Int.{equal_ints}
use golfer.System.{SystemInfo, SystemConfig}
use golfer.Display.{
  DisplayPage, boot, general, InitStatus, InitSubsystem, BootStatus, starting, set_status,
  RadioLinkState, waiting, connected, lost, RadioDisplayState, radio_waiting, GpsDisplayState,
  gps_offline,
}
use golfer.Display.Target.{Draw}
use golfer.Display.BootScreen.{draw_boot_status, update_row}
use golfer.Display.Ui.{
  clear_screen, draw_general_static, draw_all_radio, draw_all_gps, draw_link, draw_sequence,
  draw_rssi, draw_snr, draw_received, draw_missed, draw_gps_status, draw_satellites, draw_latitude,
  draw_longitude,
}

-- All but the driver.
pub record Display : Type 0 where
  pub page : DisplayPage
  pub system_info : SystemInfo
  pub system_config : SystemConfig
  pub radio : RadioDisplayState
  pub gps : GpsDisplayState
  pub boot_status : BootStatus

abbrev pub page_draws : DisplayPage → Display → List Draw
page_draws boot d = draw_boot_status d.boot_status
page_draws general d =
    clear_screen ++ (draw_general_static ++ (draw_all_radio d.radio ++ draw_all_gps d.gps))

abbrev pub redraw_page : Display → List Draw
redraw_page d = page_draws d.page d

abbrev initial : SystemInfo → SystemConfig → Display
initial info config = record {
  page = boot;
  system_info = info;
  system_config = config;
  radio = radio_waiting;
  gps = gps_offline;
  boot_status = starting;
}

abbrev pub new : SystemInfo → SystemConfig → Display × List Draw
new info config = (initial info config, redraw_page (initial info config))

abbrev pub same_page : DisplayPage → DisplayPage → Bool
same_page boot boot = true
same_page boot general = false
same_page general boot = false
same_page general general = true

abbrev pub turn_page : DisplayPage → Display → Display
turn_page page d = record d { page = page }

unfoldable pub set_page : DisplayPage → Display → Display × List Draw
set_page page d =
    if same_page d.page page then (d, []) else (turn_page page d, redraw_page (turn_page page d))

-- What an update draws on the page that it is for.
abbrev pub on_boot : DisplayPage → List Draw → List Draw
on_boot boot draws = draws
on_boot general draws = []

abbrev pub on_general : DisplayPage → List Draw → List Draw
on_general boot draws = []
on_general general draws = draws

unfoldable pub set_init_status : InitSubsystem → InitStatus → Display → Display × List Draw
set_init_status subsystem status d = (
  record d { boot_status = set_status subsystem status d.boot_status },
  on_boot d.page (update_row subsystem status),
)

abbrev pub same_link : RadioLinkState → RadioLinkState → Bool
same_link waiting waiting = true
same_link connected connected = true
same_link lost lost = true
same_link _ _ = false

abbrev pub same_bool : Bool → Bool → Bool
same_bool true b = b
same_bool false b = not b

abbrev pub same_option : {A : Type 0} → (A → A → Bool) → Option A → Option A → Bool
same_option same none none = true
same_option same (some a) (some b) = same a b
same_option same none (some b) = false
same_option same (some a) none = false

-- `if old != new { draw }`
abbrev pub unless_same : Bool → List Draw → List Draw
unless_same true draws = []
unless_same false draws = draws

unfoldable pub radio_changes : RadioDisplayState → RadioDisplayState → List Draw
radio_changes old new =
    unless_same (same_link old.link new.link) (draw_link new)
    ++ (unless_same (same_option ◌==◌ old.sequence new.sequence) (draw_sequence new)
        ++ (unless_same (same_option equal_ints old.rssi new.rssi) (draw_rssi new)
            ++ (unless_same (same_option equal_ints old.snr new.snr) (draw_snr new)
                ++ (unless_same (old.received == new.received) (draw_received new)
                    ++ unless_same (old.missed == new.missed) (draw_missed new)))))

unfoldable pub update_radio : RadioDisplayState → Display → Display × List Draw
update_radio state d = (record d { radio = state }, on_general d.page (radio_changes d.radio state))

unfoldable pub gps_changes : GpsDisplayState → GpsDisplayState → List Draw
gps_changes old new =
    (if not (same_bool old.online new.online) || not (same_bool old.fix new.fix)
      then draw_gps_status new
      else [])
    ++ (unless_same (same_option ◌==◌ old.satellites new.satellites) (draw_satellites new)
        ++ (unless_same (same_option equal_ints old.latitude_e7 new.latitude_e7) (draw_latitude new)
            ++ unless_same (same_option equal_ints old.longitude_e7 new.longitude_e7)
                (draw_longitude new)))

unfoldable pub update_gps : GpsDisplayState → Display → Display × List Draw
update_gps state d = (record d { gps = state }, on_general d.page (gps_changes d.gps state))

-- The calls that the rest of the firmware makes.
pub data Call : Type 0 where
  to_page : DisplayPage → Call
  init_status : InitSubsystem → InitStatus → Call
  radio_state : RadioDisplayState → Call
  gps_state : GpsDisplayState → Call

abbrev pub call : Call → Display → Display × List Draw
call (to_page page) d = set_page page d
call (init_status subsystem status) d = set_init_status subsystem status d
call (radio_state state) d = update_radio state d
call (gps_state state) d = update_gps state d

-- The calls in order, with all that they draw.
unfoldable pub run : List Call → Display → Display × List Draw
run [] d = (d, [])
run (c ∷ calls) d =
    let (next, draws) = call c d in let (last, more) = run calls next in (last, draws ++ more)
