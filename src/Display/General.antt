-- ===== src/Display/General.antt =====
-- The general page at one pixel: what the whole page draws there, and what the updates do.
use golfer.Prelude.{
  ℕ, ◌*◌, ◌≤◌, ◌≡◌, refl, sym, ap, ◌∙◌, Bool, true, false, List, [], ◌++◌, length, ◌==◌, ==_iff,
  ◌&&◌, append_nil, All,
}
use golfer.Prelude.Text.{codes}
use golfer.Prelude.Int.{equal_ints}
use golfer.Display.{RadioDisplayState, GpsDisplayState}
use golfer.Display.Target.{Color, white, Draw, Ink, paint, Bounded, glyph_width}
use golfer.Display.Pixels.{paint-append}
use golfer.Display.Rows.{place, shown, put, boxed, box-then, shown-put, shown_cong, shown_const}
use golfer.Display.Ui.{
  Field, link_field, seq_field, rssi_field, snr_field, rx_field, missed_field, gps_field, sat_field,
  lat_field, lon_field, field_y, value_w, draw_all_radio, draw_value, draw_line, draw_all_gps,
  link_text, number_text, level_text, gps_text, coordinate_text, draw_link, draw_sequence,
  draw_rssi, draw_snr, draw_received, draw_missed, draw_gps_status, draw_satellites, draw_latitude,
  draw_longitude,
}
use golfer.Display.Facade.{unless_same, same_bool, radio_changes, gps_changes}
use golfer.Display.Fits.{RadioInType, GpsInType, field_text, field_text_in_box, draw_line_in_box}
use golfer.Display.Values.{value_boxes, fields, every_field}
use golfer.Prelude.Format.{decimal_text}
use golfer.Display.Changes.{
  same_link-eq, same_bool-eq, equal_ints-eq, same_option-eq, fix-change, both,
}

module _ (ink : Ink) (bounded : Bounded ink) (px py : ℕ) (base : Color) where
  abbrev pub value_color : RadioDisplayState → GpsDisplayState → Field → Color
  value_color r g f = boxed value_boxes ink bounded px py f (field_text r g f) white

  -- The color of the pixel, from the colors of the boxes there.
  abbrev pub at_pixel : (Field → Color) → Color
  at_pixel colors =
      shown value_boxes ink bounded px py (place value_boxes ink bounded px py) colors base

  abbrev put_value : Field → List ℕ → (Field → Color) → Field → Color
  put_value f text =
      put value_boxes ink bounded px py f (boxed value_boxes ink bounded px py f text white)

  value-then :
      (f : Field) (text : List ℕ) (draws rest : List Draw) (colors : Field → Color)
      → draws ≡ draw_value (field_y f) text
      → glyph_width * length text ≤ value_w
      → paint ink px py (draws ++ rest) (at_pixel colors)
        ≡ paint ink px py rest (at_pixel (put_value f text colors))
  value-then f text draws rest colors e fits = rw e (
      box-then value_boxes ink bounded px py (place value_boxes ink bounded px py) f text white rest
        colors base fits)

  change-then :
      (f : Field) (same : Bool) (text : List ℕ) (draws rest : List Draw) (colors : Field → Color)
      → draws ≡ draw_value (field_y f) text
      → glyph_width * length text ≤ value_w
      → (same ≡ true → colors f ≡ boxed value_boxes ink bounded px py f text white)
      → paint ink px py (unless_same same draws ++ rest) (at_pixel colors)
        ≡ paint ink px py rest (at_pixel (put_value f text colors))
  change-then f true text draws rest colors e fits h = ap (paint ink px py rest) (
      shown-put value_boxes ink bounded px py (place value_boxes ink bounded px py) f
        (boxed value_boxes ink bounded px py f text white) colors base (h refl))
  change-then f false text draws rest colors e fits h = value-then f text draws rest colors e fits

  -- The steps to a state whose values are of their types.
  module _ (r : RadioDisplayState) (g : GpsDisplayState) (hr : RadioInType r)
      (hg : GpsInType g) where
    abbrev put_field : Field → (Field → Color) → Field → Color
    put_field f = put_value f (field_text r g f)

    line_of :
        (f : Field)
        → draw_line (field_y f) (field_text r g f) ≡ draw_value (field_y f) (field_text r g f)
    line_of f = draw_line_in_box (field_y f) (field_text r g f) (field_text_in_box r g f hr hg)

    change :
        (f : Field) (same : Bool) (draws rest : List Draw) (colors : Field → Color)
        → draws ≡ draw_value (field_y f) (field_text r g f)
        → (same ≡ true → colors f ≡ value_color r g f)
        → paint ink px py (unless_same same draws ++ rest) (at_pixel colors)
          ≡ paint ink px py rest (at_pixel (put_field f colors))
    change f same draws rest colors e h =
        change-then f same (field_text r g f) draws rest colors e (field_text_in_box r g f hr hg) h

    change_last :
        (f : Field) (same : Bool) (draws : List Draw) (colors : Field → Color)
        → draws ≡ draw_value (field_y f) (field_text r g f)
        → (same ≡ true → colors f ≡ value_color r g f)
        → paint ink px py (unless_same same draws) (at_pixel colors) ≡ at_pixel (put_field f colors)
    unfolding paint
    change_last f same draws colors e h =
        ap (λ ds. paint ink px py ds (at_pixel colors)) (sym (append_nil (unless_same same draws)))
        ∙ change f same draws [] colors e h

    at_pixel-cong :
        (colors colors' : Field → Color)
        → ((f : Field) → colors f ≡ colors' f)
        → at_pixel colors ≡ at_pixel colors'
    at_pixel-cong colors colors' h =
        shown_cong value_boxes ink bounded px py (place value_boxes ink bounded px py) colors
          colors' base h

    -- A box's color from its text.
    abbrev white_box : Field → List ℕ → Color
    white_box f text = boxed value_boxes ink bounded px py f text white

    abbrev put_radio : (Field → Color) → Field → Color
    put_radio colors = put_field missed_field (
        put_field rx_field (
          put_field snr_field
            (put_field rssi_field (put_field seq_field (put_field link_field colors)))))

    abbrev put_gps : (Field → Color) → Field → Color
    put_gps colors =
        put_field lon_field (put_field lat_field (put_field sat_field (put_field gps_field colors)))

    -- The draws of a radio state, each unless a test says that its box is right already.
    radio_steps :
        (s1 s2 s3 s4 s5 s6 : Bool) (colors : Field → Color)
        → (s1 ≡ true → colors link_field ≡ value_color r g link_field)
        → (s2 ≡ true → colors seq_field ≡ value_color r g seq_field)
        → (s3 ≡ true → colors rssi_field ≡ value_color r g rssi_field)
        → (s4 ≡ true → colors snr_field ≡ value_color r g snr_field)
        → (s5 ≡ true → colors rx_field ≡ value_color r g rx_field)
        → (s6 ≡ true → colors missed_field ≡ value_color r g missed_field)
        → paint ink px py
            (unless_same s1 (draw_link r)
              ++ (unless_same s2 (draw_sequence r)
                  ++ (unless_same s3 (draw_rssi r)
                      ++ (unless_same s4 (draw_snr r)
                          ++ (unless_same s5 (draw_received r)
                              ++ unless_same s6 (draw_missed r))))))
            (at_pixel colors)
          ≡ at_pixel (put_radio colors)
    radio_steps s1 s2 s3 s4 s5 s6 colors h1 h2 h3 h4 h5 h6 =
        let k1 = put_field link_field colors in
        let k2 = put_field seq_field k1 in
        let k3 = put_field rssi_field k2 in
        let k4 = put_field snr_field k3 in
        let k5 = put_field rx_field k4 in
        change link_field s1 (draw_link r) _ colors refl h1
        ∙ change seq_field s2 (draw_sequence r) _ k1 (line_of seq_field) h2
        ∙ change rssi_field s3 (draw_rssi r) _ k2 (line_of rssi_field) h3
        ∙ change snr_field s4 (draw_snr r) _ k3 (line_of snr_field) h4
        ∙ change rx_field s5 (draw_received r) _ k4 (line_of rx_field) h5
        ∙ change_last missed_field s6 (draw_missed r) k5 (line_of missed_field) h6

    gps_steps :
        (s1 s2 s3 s4 : Bool) (colors : Field → Color)
        → (s1 ≡ true → colors gps_field ≡ value_color r g gps_field)
        → (s2 ≡ true → colors sat_field ≡ value_color r g sat_field)
        → (s3 ≡ true → colors lat_field ≡ value_color r g lat_field)
        → (s4 ≡ true → colors lon_field ≡ value_color r g lon_field)
        → paint ink px py
            (unless_same s1 (draw_gps_status g)
              ++ (unless_same s2 (draw_satellites g)
                  ++ (unless_same s3 (draw_latitude g) ++ unless_same s4 (draw_longitude g))))
            (at_pixel colors)
          ≡ at_pixel (put_gps colors)
    gps_steps s1 s2 s3 s4 colors h1 h2 h3 h4 =
        let k1 = put_field gps_field colors in
        let k2 = put_field sat_field k1 in
        let k3 = put_field lat_field k2 in
        change gps_field s1 (draw_gps_status g) _ colors refl h1
        ∙ change sat_field s2 (draw_satellites g) _ k1 (line_of sat_field) h2
        ∙ change lat_field s3 (draw_latitude g) _ k2 (line_of lat_field) h3
        ∙ change_last lon_field s4 (draw_longitude g) k3 (line_of lon_field) h4

    -- Two colorings that agree at each field.
    abbrev Agree : (Field → Color) → (Field → Color) → Type 0
    Agree colors colors' = All (λ f. colors f ≡ colors' f) fields

    settled :
        (colors colors' : Field → Color) → Agree colors colors' → at_pixel colors ≡ at_pixel colors'
    settled colors colors' h =
        at_pixel-cong colors colors' (every_field (λ f. colors f ≡ colors' f) h)

    pub radio_changes-at :
        (old : RadioDisplayState)
        → paint ink px py (radio_changes old r) (at_pixel (value_color old g))
          ≡ at_pixel (value_color r g)
    unfolding radio_changes
    radio_changes-at old =
        radio_steps _ _ _ _ _ _ (value_color old g)
          (λ h. ap (λ l. white_box link_field (link_text l)) (same_link-eq old.link r.link h))
          (λ h.
            ap (λ o. white_box seq_field (number_text o))
              (same_option-eq ◌==◌ (λ a b. (==_iff a b).0) old.sequence r.sequence h))
          (λ h.
            ap (λ o. white_box rssi_field (level_text o (codes " dBm")))
              (same_option-eq equal_ints equal_ints-eq old.rssi r.rssi h))
          (λ h.
            ap (λ o. white_box snr_field (level_text o (codes " dB")))
              (same_option-eq equal_ints equal_ints-eq old.snr r.snr h))
          (λ h.
            ap (λ n. white_box rx_field (decimal_text n)) ((==_iff old.received r.received).0 h))
          (λ h.
            ap (λ n. white_box missed_field (decimal_text n)) ((==_iff old.missed r.missed).0 h))
        ∙ settled (put_radio (value_color old g)) (value_color r g)
            (refl, (refl, (refl, (refl, (refl, (refl, (refl, (refl, (refl, (refl, tt))))))))))

    gps_text-same :
        (old : GpsDisplayState)
        → (same_bool old.online g.online && same_bool old.fix g.fix) ≡ true
        → gps_text old.online old.fix ≡ gps_text g.online g.fix
    gps_text-same old h =
        let (a, b) = both (same_bool old.online g.online) (same_bool old.fix g.fix) h in
        cc (same_bool-eq old.online g.online a, same_bool-eq old.fix g.fix b)

    pub gps_changes-at :
        (old : GpsDisplayState)
        → paint ink px py (gps_changes old g) (at_pixel (value_color r old))
          ≡ at_pixel (value_color r g)
    unfolding gps_changes
    gps_changes-at old =
        rw
          (fix-change (same_bool old.online g.online) (same_bool old.fix g.fix) (draw_gps_status g))
          (gps_steps _ _ _ _ (value_color r old)
              (λ h. ap (white_box gps_field) (gps_text-same old h))
              (λ h.
                ap (λ o. white_box sat_field (number_text o))
                  (same_option-eq ◌==◌ (λ a b. (==_iff a b).0) old.satellites g.satellites h))
              (λ h.
                ap (λ o. white_box lat_field (coordinate_text o))
                  (same_option-eq equal_ints equal_ints-eq old.latitude_e7 g.latitude_e7 h))
              (λ h.
                ap (λ o. white_box lon_field (coordinate_text o))
                  (same_option-eq equal_ints equal_ints-eq old.longitude_e7 g.longitude_e7 h))
            ∙ settled (put_gps (value_color r old)) (value_color r g)
                (refl, (refl, (refl, (refl, (refl, (refl, (refl, (refl, (refl, (refl, tt)))))))))))

    pub draw_all-at :
        paint ink px py (draw_all_radio r ++ draw_all_gps g) base ≡ at_pixel (value_color r g)
    unfolding draw_all_radio draw_all_gps
    draw_all-at =
        paint-append ink px py (draw_all_radio r) (draw_all_gps g) base
        ∙ ap (λ c. paint ink px py (draw_all_gps g) (paint ink px py (draw_all_radio r) c))
            (sym (
              shown_const value_boxes ink bounded px py (place value_boxes ink bounded px py) base))
        ∙ ap (paint ink px py (draw_all_gps g)) (
            radio_steps false false false false false false (λ f. base) (λ h. cc) (λ h. cc)
              (λ h. cc) (λ h. cc) (λ h. cc) (λ h. cc))
        ∙ gps_steps false false false false (put_radio (λ f. base)) (λ h. cc) (λ h. cc) (λ h. cc)
            (λ h. cc)
        ∙ settled (put_gps (put_radio (λ f. base))) (value_color r g)
            (refl, (refl, (refl, (refl, (refl, (refl, (refl, (refl, (refl, (refl, tt))))))))))
