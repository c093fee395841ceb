-- ===== src/Display/Fits.antt =====
-- The texts of the general page, and that they fit in their boxes and their `String<32>`, for values
-- of the types that the source gives them.
use golfer.Gps.Digits.Printed.{length-padded}
use golfer.Prelude.{
  ℕ, zero, suc, ◌+◌, ◌*◌, ◌/◌, ◌%◌, ◌^◌, ◌≤◌, ◌<◌, ◌≡◌, Bool, true, false, Option, some, none, List,
  [], ◌∷◌, length, length-append, arith, u32_mod, Each, if-cases, ltb, length-append,
}
use native.Mathlib.Nat.{pow-suc}
use golfer.Prelude.Int.{ℤ, pos, negsuc, Fits, i16_half, i32_half}
use golfer.Prelude.Format.{digits_within, decimal_text, signed_text, padded}
use golfer.Prelude.Text.{codes}
use golfer.Display.{RadioLinkState, waiting, connected, lost, RadioDisplayState, GpsDisplayState}
use golfer.Display.Target.{glyph_width}
use golfer.Display.Ui.{
  Field, link_field, seq_field, rssi_field, snr_field, rx_field, missed_field, gps_field, sat_field,
  lat_field, lon_field, draw_value, draw_line, link_text, number_text, level_text, gps_text,
  absolute_text, coordinate_value, coordinate_text, value_w,
}

length-digits_within : (fuel k n : ℕ) → n < 10 ^ suc k → length (digits_within fuel n) ≤ suc k
unfolding digits_within
length-digits_within zero k n h = omega arith
length-digits_within (suc fuel) zero n h = ground (arith, h)
length-digits_within (suc fuel) (suc k) n h =
    let rest = digits_within fuel (n / 10) in
    if-cases (λ (t : List ℕ). length t ≤ suc (suc k)) (ltb n 10) (λ e. omega arith)
      (λ e. omega (
        arith,
        length-append rest ((48 + n % 10) ∷ []),
        length-digits_within fuel k (n / 10) (omega (arith, pow-suc 10 (suc k), h)),
      ))

length-decimal_text : (n : ℕ) → n < u32_mod → length (decimal_text n) ≤ 10
length-decimal_text n h = length-digits_within 19 9 n (omega arith)

length-signed_text : (z : ℤ) → Fits i16_half z → length (signed_text z) ≤ 11
length-signed_text (pos n) h = omega (arith, length-decimal_text n (omega arith))
length-signed_text (negsuc n) h = omega (arith, length-decimal_text (suc n) (omega arith))

length-absolute_text : (n : ℕ) → n ≤ i32_half → length (absolute_text n) ≤ 18
length-absolute_text n h = omega (
  arith,
  length-append (decimal_text (n / 10_000_000)) (b'.' ∷ padded 7 (n % 10_000_000)),
  length-decimal_text (n / 10_000_000) (omega arith),
  length-padded 7 (n % 10_000_000),
)

length-coordinate_value : (z : ℤ) → Fits i32_half z → length (coordinate_value z) ≤ 19
unfolding coordinate_value
length-coordinate_value (pos n) h = omega (arith, length-absolute_text n (omega arith))
length-coordinate_value (negsuc n) h = omega (arith, length-absolute_text (suc n) (omega arith))

-- The fields hold values of their types in the source.
abbrev pub RadioInType : RadioDisplayState → Type 0
RadioInType r =
    Each (λ n. n < u32_mod) r.sequence
    × Each (Fits i16_half) r.rssi
    × Each (Fits i16_half) r.snr
    × (r.received < u32_mod)
    × (r.missed < u32_mod)

abbrev pub GpsInType : GpsDisplayState → Type 0
GpsInType g =
    Each (Fits i32_half) g.latitude_e7
    × Each (Fits i32_half) g.longitude_e7
    × Each (λ n. n < 256) g.satellites

-- What each field shows.
abbrev pub field_text : RadioDisplayState → GpsDisplayState → Field → List ℕ
field_text r g link_field = link_text r.link
field_text r g seq_field = number_text r.sequence
field_text r g rssi_field = level_text r.rssi (codes " dBm")
field_text r g snr_field = level_text r.snr (codes " dB")
field_text r g rx_field = decimal_text r.received
field_text r g missed_field = decimal_text r.missed
field_text r g gps_field = gps_text g.online g.fix
field_text r g sat_field = number_text g.satellites
field_text r g lat_field = coordinate_text g.latitude_e7
field_text r g lon_field = coordinate_text g.longitude_e7

link_text_in_box : (link : RadioLinkState) → length (link_text link) ≤ 27
link_text_in_box waiting = omega arith
link_text_in_box connected = omega arith
link_text_in_box lost = omega arith

number_text_in_box : (o : Option ℕ) → Each (λ n. n < u32_mod) o → length (number_text o) ≤ 27
number_text_in_box (some n) h = omega (arith, length-decimal_text n h)
number_text_in_box none h = omega arith

level_text_in_box :
    (o : Option ℤ) (unit : List ℕ)
    → Each (Fits i16_half) o
    → length unit ≤ 4
    → length (level_text o unit) ≤ 27
level_text_in_box (some z) unit h small =
    omega (arith, length-append (signed_text z) unit, length-signed_text z h)
level_text_in_box none unit h small = omega (arith, length-append (codes "---") unit)

gps_text_in_box : (online fix : Bool) → length (gps_text online fix) ≤ 27
gps_text_in_box false fix = omega arith
gps_text_in_box true true = omega arith
gps_text_in_box true false = omega arith

coordinate_text_in_box : (o : Option ℤ) → Each (Fits i32_half) o → length (coordinate_text o) ≤ 27
coordinate_text_in_box (some z) h = omega (arith, length-coordinate_value z h)
coordinate_text_in_box none h = omega arith

satellites_in_box : (o : Option ℕ) → Each (λ n. n < 256) o → length (number_text o) ≤ 27
satellites_in_box (some n) h = omega (arith, length-decimal_text n (omega arith))
satellites_in_box none h = omega arith

-- Every text of the general page fits in the width of its box, 27 characters, whatever values of
-- their types the state holds.
pub field_text_in_box :
    (r : RadioDisplayState) (g : GpsDisplayState) (f : Field)
    → RadioInType r
    → GpsInType g
    → glyph_width * length (field_text r g f) ≤ value_w
field_text_in_box r g link_field hr hg = omega (arith, link_text_in_box r.link)
field_text_in_box r g seq_field hr hg = omega (arith, number_text_in_box r.sequence hr.0)
field_text_in_box r g rssi_field hr hg =
    omega (arith, level_text_in_box r.rssi (codes " dBm") hr.1 (omega arith))
field_text_in_box r g snr_field hr hg =
    omega (arith, level_text_in_box r.snr (codes " dB") hr.2 (omega arith))
field_text_in_box r g rx_field hr hg = omega (arith, length-decimal_text r.received hr.3)
field_text_in_box r g missed_field hr hg = omega (arith, length-decimal_text r.missed hr.4)
field_text_in_box r g gps_field hr hg = omega (arith, gps_text_in_box g.online g.fix)
field_text_in_box r g sat_field hr hg = omega (arith, satellites_in_box g.satellites hg.2)
field_text_in_box r g lat_field hr hg = omega (arith, coordinate_text_in_box g.latitude_e7 hg.0)
field_text_in_box r g lon_field hr hg = omega (arith, coordinate_text_in_box g.longitude_e7 hg.1)

-- So a line is drawn, and not the panic of a full `String`.
pub draw_line_in_box :
    (y : ℕ) (line : List ℕ)
    → glyph_width * length line ≤ value_w
    → draw_line y line ≡ draw_value y line
draw_line_in_box y line h = ground arith
