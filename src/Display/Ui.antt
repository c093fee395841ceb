-- ===== src/Display/Ui.antt =====
-- The general page, and the former boot page, firmware/golfer/src/display/ui.rs.
use golfer.Prelude.{ℕ, ◌/◌, ◌%◌, suc, Bool, true, false, Option, none, some, List, [], ◌∷◌, ◌++◌}
use golfer.Prelude.Int.{ℤ, pos, negsuc}
use golfer.Prelude.Text.{codes}
use golfer.Prelude.Format.{decimal_text, signed_text, padded, hex_upper}
use golfer.System.{SystemInfo, SystemConfig, FieldAccess, read_only, read_write}
use golfer.Display.{RadioLinkState, waiting, connected, lost, RadioDisplayState, GpsDisplayState}
use golfer.Display.Target.{black, white, Draw, clear, fill_solid, draw_text, with_line}

abbrev pub value_x : ℕ
value_x = 74

abbrev pub value_w : ℕ
value_w = 162

abbrev pub value_h : ℕ
value_h = 12

-- The fields of the page, with their rows.
pub data Field : Type 0 where
  link_field seq_field rssi_field snr_field rx_field missed_field : Field
  gps_field sat_field lat_field lon_field : Field

abbrev pub field_y : Field → ℕ
field_y link_field = 42
field_y seq_field = 58
field_y rssi_field = 74
field_y snr_field = 90
field_y rx_field = 106
field_y missed_field = 122
field_y gps_field = 166
field_y sat_field = 182
field_y lat_field = 198
field_y lon_field = 214

abbrev pub draw_value : ℕ → List ℕ → List Draw
draw_value y text = fill_solid value_x y value_w value_h black ∷ draw_text text value_x y white ∷ []

-- A value that is written to a `String<32>` first.
abbrev pub draw_line : ℕ → List ℕ → List Draw
draw_line y line = with_line 32 line (draw_value y line)

abbrev pub link_text : RadioLinkState → List ℕ
link_text waiting = codes "WAITING FOR RX"
link_text connected = codes "CONNECTED"
link_text lost = codes "*** LOST ***"

abbrev pub number_text : Option ℕ → List ℕ
number_text (some n) = decimal_text n
number_text none = codes "---"

abbrev pub level_text : Option ℤ → List ℕ → List ℕ
level_text (some level) unit = signed_text level ++ unit
level_text none unit = codes "---" ++ unit

abbrev pub gps_text : Bool → Bool → List ℕ
gps_text false fix = codes "OFFLINE"
gps_text true true = codes "FIX"
gps_text true false = codes "NO FIX"

abbrev pub absolute_text : ℕ → List ℕ
absolute_text absolute =
    decimal_text (absolute / 10_000_000) ++ (b'.' ∷ padded 7 (absolute % 10_000_000))

-- `write_coordinate_value`.
unfoldable pub coordinate_value : ℤ → List ℕ
coordinate_value (pos n) = absolute_text n
coordinate_value (negsuc n) = b'-' ∷ absolute_text (suc n)

abbrev pub coordinate_text : Option ℤ → List ℕ
coordinate_text (some value_e7) = coordinate_value value_e7
coordinate_text none = codes "---"

abbrev pub draw_link : RadioDisplayState → List Draw
draw_link r = draw_value (field_y link_field) (link_text r.link)

abbrev pub draw_sequence : RadioDisplayState → List Draw
draw_sequence r = draw_line (field_y seq_field) (number_text r.sequence)

abbrev pub draw_rssi : RadioDisplayState → List Draw
draw_rssi r = draw_line (field_y rssi_field) (level_text r.rssi (codes " dBm"))

abbrev pub draw_snr : RadioDisplayState → List Draw
draw_snr r = draw_line (field_y snr_field) (level_text r.snr (codes " dB"))

abbrev pub draw_received : RadioDisplayState → List Draw
draw_received r = draw_line (field_y rx_field) (decimal_text r.received)

abbrev pub draw_missed : RadioDisplayState → List Draw
draw_missed r = draw_line (field_y missed_field) (decimal_text r.missed)

abbrev pub draw_gps_status : GpsDisplayState → List Draw
draw_gps_status g = draw_value (field_y gps_field) (gps_text g.online g.fix)

abbrev pub draw_satellites : GpsDisplayState → List Draw
draw_satellites g = draw_line (field_y sat_field) (number_text g.satellites)

abbrev pub draw_latitude : GpsDisplayState → List Draw
draw_latitude g = draw_line (field_y lat_field) (coordinate_text g.latitude_e7)

abbrev pub draw_longitude : GpsDisplayState → List Draw
draw_longitude g = draw_line (field_y lon_field) (coordinate_text g.longitude_e7)

unfoldable pub draw_all_radio : RadioDisplayState → List Draw
draw_all_radio r =
    draw_link r
    ++ (draw_sequence r ++ (draw_rssi r ++ (draw_snr r ++ (draw_received r ++ draw_missed r))))

unfoldable pub draw_all_gps : GpsDisplayState → List Draw
draw_all_gps g = draw_gps_status g ++ (draw_satellites g ++ (draw_latitude g ++ draw_longitude g))

abbrev pub clear_screen : List Draw
clear_screen = clear black ∷ []

unfoldable pub draw_general_static : List Draw
draw_general_static =
    draw_text (codes "GOLFER GENERAL") 4 4 white
    ∷ draw_text (codes "MODE: RECEIVER") 4 18 white
    ∷ draw_text (codes "LINK") 4 (field_y link_field) white
    ∷ draw_text (codes "SEQ") 4 (field_y seq_field) white
    ∷ draw_text (codes "RSSI") 4 (field_y rssi_field) white
    ∷ draw_text (codes "SNR") 4 (field_y snr_field) white
    ∷ draw_text (codes "RX") 4 (field_y rx_field) white
    ∷ draw_text (codes "MISSED") 4 (field_y missed_field) white
    ∷ draw_text (codes "GPS") 4 (field_y gps_field) white
    ∷ draw_text (codes "SAT") 4 (field_y sat_field) white
    ∷ draw_text (codes "LAT") 4 (field_y lat_field) white
    ∷ draw_text (codes "LON") 4 (field_y lon_field) white
    ∷ draw_text (codes "TIME  --:--:--") 4 270 white
    ∷ draw_text (codes "BAT   ---- V") 4 284 white
    ∷ draw_text (codes "ENV/HDG: future") 4 298 white
    ∷ []

abbrev tag : FieldAccess → List ℕ
tag read_only = codes "RO"
tag read_write = codes "RW"

-- " [RO]" after what it is the access of.
abbrev tagged : List ℕ → FieldAccess → List ℕ
tagged text access = text ++ (codes " [" ++ (tag access ++ codes "]"))

-- A line of the former boot page, by way of a `String` of a capacity.
abbrev boot_line : ℕ → List ℕ → ℕ → List Draw
boot_line capacity line y = with_line capacity line (draw_text line 4 y white ∷ [])

-- `draw_boot`, which `Display` does not call; the first panic ends it.
unfoldable pub draw_boot : SystemInfo → SystemConfig → List Draw
draw_boot info config =
    (draw_text (codes "GOLFER") 4 12 white
      ∷ draw_text (codes "SYSTEM INITIALIZATION") 4 28 white
      ∷ [])
    ++ (boot_line 32 (tagged (codes "NAME") config.name.access) 60
        ++ ((draw_text config.name.value 4 76 white ∷ [])
            ++ (boot_line 32 (tagged (codes "SYSTEM ID") info.system_id.access) 108
                ++ (boot_line 16 (hex_upper 16 info.system_id.value) 124
                    ++ (boot_line 40
                          (tagged (codes "FIRMWARE  " ++ info.firmware_version.value)
                            info.firmware_version.access)
                          172
                        ++ (boot_line 40
                              (tagged
                                (codes "PROTOCOL  " ++ decimal_text info.protocol_version.value)
                                info.protocol_version.access)
                              188
                            ++ boot_line 40
                                (tagged
                                  (codes "CONFIG    " ++ decimal_text info.config_version.value)
                                  info.config_version.access)
                                204))))))
