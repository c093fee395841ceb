-- ===== src/Display/Values.antt =====
-- The boxes of the general page: ten rows that do not overlap.
use golfer.Prelude.{
  ℕ, ◌+◌, ◌≤◌, ◌<◌, ◌≡◌, refl, List, [], ◌∷◌, All, arith, ◌==◌, ◌%◌, ◌⊎◌, inl, inr, if◌then◌else◌,
}
use golfer.Display.Rows.{Layout}
use golfer.Display.Ui.{
  Field, link_field, seq_field, rssi_field, snr_field, rx_field, missed_field, gps_field, sat_field,
  lat_field, lon_field, field_y, value_x, value_w, value_h,
}

abbrev pub fields : List Field
fields =
    link_field ∷ seq_field ∷ rssi_field ∷ snr_field ∷ rx_field ∷ missed_field ∷ gps_field
    ∷ sat_field ∷ lat_field ∷ lon_field ∷ []

pub every_field : (P : Field → Type 0) → All P fields → (f : Field) → P f
every_field P h link_field = h.0
every_field P h seq_field = h.1.0
every_field P h rssi_field = h.1.1.0
every_field P h snr_field = h.1.1.1.0
every_field P h rx_field = h.1.1.1.1.0
every_field P h missed_field = h.1.1.1.1.1.0
every_field P h gps_field = h.1.1.1.1.1.1.0
every_field P h sat_field = h.1.1.1.1.1.1.1.0
every_field P h lat_field = h.1.1.1.1.1.1.1.1.0
every_field P h lon_field = h.1.1.1.1.1.1.1.1.1.0

abbrev pub field_of : ℕ → Field
field_of y =
    if y == 42
    then link_field
    else if y == 58
    then seq_field
    else if y == 74
    then rssi_field
    else if y == 90
    then snr_field
    else if y == 106
    then rx_field
    else if y == 122
    then missed_field
    else if y == 166
    then gps_field
    else if y == 182
    then sat_field
    else if y == 198
    then lat_field
    else lon_field

pub field_of-field_y : (f : Field) → field_of (field_y f) ≡ f
field_of-field_y link_field = refl
field_of-field_y seq_field = refl
field_of-field_y rssi_field = refl
field_of-field_y snr_field = refl
field_of-field_y rx_field = refl
field_of-field_y missed_field = refl
field_of-field_y gps_field = refl
field_of-field_y sat_field = refl
field_of-field_y lat_field = refl
field_of-field_y lon_field = refl

-- The rows stand 16 apart, in two groups.
abbrev Spaced : ℕ → Type 0
Spaced y = ((y % 16 ≡ 10) × (y ≤ 122)) ⊎ ((y % 16 ≡ 6) × (166 ≤ y))

pub field_y-Spaced : (f : Field) → Spaced (field_y f)
field_y-Spaced link_field = inl (omega arith, omega arith)
field_y-Spaced seq_field = inl (omega arith, omega arith)
field_y-Spaced rssi_field = inl (omega arith, omega arith)
field_y-Spaced snr_field = inl (omega arith, omega arith)
field_y-Spaced rx_field = inl (omega arith, omega arith)
field_y-Spaced missed_field = inl (omega arith, omega arith)
field_y-Spaced gps_field = inr (omega arith, omega arith)
field_y-Spaced sat_field = inr (omega arith, omega arith)
field_y-Spaced lat_field = inr (omega arith, omega arith)
field_y-Spaced lon_field = inr (omega arith, omega arith)

pub Spaced-apart :
    (a b py : ℕ)
    → Spaced a
    → Spaced b
    → a ≤ py
    → py < a + value_h
    → b ≤ py
    → py < b + value_h
    → a ≡ b
Spaced-apart a b py (inl ha) (inl hb) h1 h2 h3 h4 = omega arith
Spaced-apart a b py (inl ha) (inr hb) h1 h2 h3 h4 = absurd (omega arith)
Spaced-apart a b py (inr ha) (inl hb) h1 h2 h3 h4 = absurd (omega arith)
Spaced-apart a b py (inr ha) (inr hb) h1 h2 h3 h4 = omega arith

abbrev pub value_boxes : Layout Field
value_boxes = record {
  row = field_y;
  left = value_x;
  width = value_w;
  height = value_h;
  boxes = fields;
  complete = every_field;
  of_row = field_of;
  of_row_lem = field_of-field_y;
  apart = λ f g py. Spaced-apart (field_y f) (field_y g) py (field_y-Spaced f) (field_y-Spaced g);
  high = omega arith;
}
