-- ===== src/Display/Contents.antt =====
-- What the boxes of a page show after the calls of `Display`.
use golfer.Prelude.{ℕ, ◌+◌, ◌≤◌, ◌<◌, ◌≡◌, ◌∙◌, true, some, List, All, if◌then◌else◌, arith}
use golfer.System.{SystemInfo, SystemConfig}
use golfer.Display.{DisplayPage, boot, general, InitSubsystem, system, display, sd_card, gps, lora}
use golfer.Display.Target.{
  Color, black, white, DrawTarget, draw_all, Ink, inked, inside, Draw, Bounded, Faithful,
  panel_width, panel_height,
}
use golfer.Display.Rows.{place, shown-hit}
use golfer.Display.Ui.{
  Field, link_field, seq_field, rssi_field, snr_field, rx_field, missed_field, gps_field, sat_field,
  lat_field, lon_field, field_y, value_x, value_w, value_h,
}
use golfer.Display.BootScreen.{status_x, status_w, row_h, row_y, status_text, status_style}
use golfer.Display.Facade.{Display, Call}
use golfer.Display.Fits.{field_text}
use golfer.Display.Calm.{CallInType}
use golfer.Display.Values.{value_boxes}
use golfer.Display.Statuses.{status_boxes}
use golfer.Display.General.{value_color}
use golfer.Display.Boot.{boot_color, status_of, status_color, labelled}
use golfer.Display.Refinement.{page_color, static, after, drawn, drawn-Panel}

-- In its box a text shows in its color on black.
abbrev Legible : Ink → ℕ → ℕ → ℕ → ℕ → List ℕ → Color → (ℕ → ℕ → Color) → Type 0
Legible ink x y w h text color pixel =
    (px py : ℕ)
    → inside x y w h px py ≡ true
    → pixel px py ≡ (if inked ink text x y px py then color else black)

-- The page shows the values of the state.
abbrev pub Contents : Ink → DisplayPage → Display → (ℕ → ℕ → Color) → Type 0
Contents ink boot d pixel =
    (s : InitSubsystem)
    → Legible ink status_x (row_y s) status_w row_h (status_text (status_of d.boot_status s))
        (status_style (status_of d.boot_status s)) pixel
Contents ink general d pixel =
    (f : Field)
    → Legible ink value_x (field_y f) value_w value_h (field_text d.radio d.gps f) white pixel

row_y-le : (s : InitSubsystem) → row_y s ≤ 160
row_y-le system = omega arith
row_y-le display = omega arith
row_y-le sd_card = omega arith
row_y-le gps = omega arith
row_y-le lora = omega arith

field_y-le : (f : Field) → field_y f ≤ 214
field_y-le link_field = omega arith
field_y-le seq_field = omega arith
field_y-le rssi_field = omega arith
field_y-le snr_field = omega arith
field_y-le rx_field = omega arith
field_y-le missed_field = omega arith
field_y-le gps_field = omega arith
field_y-le sat_field = omega arith
field_y-le lat_field = omega arith
field_y-le lon_field = omega arith

-- A box stands on the panel.
in_panel :
    (x y w h px py : ℕ)
    → x + w ≤ panel_width
    → y + h ≤ panel_height
    → inside x y w h px py ≡ true
    → (px < panel_width) × (py < panel_height)
in_panel x y w h px py hx hy e = ground arith

page_color-Contents :
    (ink : Ink) (bounded : Bounded ink) (page : DisplayPage) (d : Display)
    → Contents ink page d (λ px py. page_color ink bounded px py page d)
unfolding boot_color
page_color-Contents ink bounded boot d = λ s px py e.
    shown-hit status_boxes ink bounded px py (place status_boxes ink bounded px py) s
      (status_color ink bounded px py d.boot_status) (labelled ink bounded px py) e
page_color-Contents ink bounded general d = λ f px py e.
    shown-hit value_boxes ink bounded px py (place value_boxes ink bounded px py) f
      (value_color ink bounded px py (static ink bounded px py) d.radio d.gps)
      (static ink bounded px py) e

Contents-pixel :
    (ink : Ink) (page : DisplayPage) (d : Display) (pixel pixel' : ℕ → ℕ → Color)
    → ((px py : ℕ) → px < panel_width → py < panel_height → pixel' px py ≡ pixel px py)
    → Contents ink page d pixel
    → Contents ink page d pixel'
Contents-pixel ink boot d pixel pixel' same h = λ s px py e.
    let (hx, hy) =
      in_panel status_x (row_y s) status_w row_h px py (omega arith) (omega (arith, row_y-le s))
        e in
    same px py hx hy ∙ h s px py e
Contents-pixel ink general d pixel pixel' same h = λ f px py e.
    let (hx, hy) =
      in_panel value_x (field_y f) value_w value_h px py (omega arith) (omega (arith, field_y-le f))
        e in
    same px py hx hy ∙ h f px py e

module _ {T : Type 0} (target : DrawTarget T) (ink : Ink) (faithful : Faithful target ink) where
  abbrev pub Legibly : List Draw → T → Display → Type 0
  Legibly draws t d =
      (last : T) × (draw_all target draws t ≡ some last) × Contents ink d.page d (target.pixel last)

  -- After any calls, with values of their types, all that was drawn succeeds, and the page that is
  -- turned to shows the last state: on the general page each of the ten boxes shows its value in white
  -- on black, on the boot page each of the five shows the status of its subsystem in its color.
  pub run-Contents :
      (info : SystemInfo) (config : SystemConfig) (calls : List Call) (t : T)
      → All CallInType calls
      → Legibly (drawn info config calls) t (after info config calls)
  run-Contents info config calls t h =
      let d = after info config calls in
      let (last, e, shows) = drawn-Panel target ink faithful info config calls t h in
      (
        last,
        e,
        Contents-pixel ink d.page d (λ px py. page_color ink faithful.bounded px py d.page d)
            (target.pixel last) shows (page_color-Contents ink faithful.bounded d.page d),
      )
