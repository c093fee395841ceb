-- ===== src/Display/Boot.antt =====
-- The boot page at one pixel: what the whole page draws there, and what an update of a row does.
use golfer.Prelude.{
  ℕ, ◌*◌, ◌≤◌, ◌≡◌, refl, sym, ap, ◌∙◌, true, false, List, [], ◌∷◌, ◌++◌, All, length, arith,
  if◌then◌else◌, Bool-cases, inl, inr, if-both,
}
use golfer.Prelude.Text.{codes}
use golfer.Display.{
  InitStatus, initializing, okay, nok, InitSubsystem, system, display, sd_card, gps, lora,
  BootStatus, set_status,
}
use golfer.Display.Target.{
  Color, black, white, Draw, clear, draw_text, Ink, inked, paint, Bounded, glyph_width,
}
use golfer.Display.Pixels.{inked-outside}
use golfer.Display.Rows.{
  Place, outside, within_box, hit, place, shown, put, boxed, draw_box, box-then, shown_cong,
  shown_const,
}
use golfer.Display.BootScreen.{
  label_x, status_w, row_y, label, status_text, status_style, draw_row, update_row,
  draw_boot_status,
}
use golfer.Display.Statuses.{status_boxes, subsystems, every_subsystem}

label_in_box : (s : InitSubsystem) → glyph_width * length (label s) ≤ 42
label_in_box system = omega arith
label_in_box display = omega arith
label_in_box sd_card = omega arith
label_in_box gps = omega arith
label_in_box lora = omega arith

status_text_in_box : (status : InitStatus) → glyph_width * length (status_text status) ≤ status_w
status_text_in_box initializing = omega arith
status_text_in_box okay = omega arith
status_text_in_box nok = omega arith

-- The status of a subsystem.
abbrev pub status_of : BootStatus → InitSubsystem → InitStatus
status_of b system = b.system_status
status_of b display = b.display_status
status_of b sd_card = b.sd_card_status
status_of b gps = b.gps_status
status_of b lora = b.lora_status

module _ (ink : Ink) (bounded : Bounded ink) (px py : ℕ) where
  abbrev pub with_label : InitSubsystem → Color → Color
  with_label s before = if inked ink (label s) label_x (row_y s) px py then white else before

  -- A label does not reach the boxes.
  label-miss :
      (s g : InitSubsystem)
      → hit status_boxes ink bounded px py g ≡ true
      → inked ink (label s) label_x (row_y s) px py ≡ false
  label-miss s g e =
      inked-outside ink px py bounded (label s) label_x (row_y s) 42 10 (label_in_box s)
        (omega arith) (ground arith)

  abbrev pub titled : Color
  titled =
      paint ink px py
        (clear black
          ∷ draw_text (codes "GOLFER") 12 16 white
          ∷ draw_text (codes "SYSTEM INITIALIZATION") 12 34 white
          ∷ [])
        black

  -- The page without its boxes.
  abbrev pub labelled : Color
  labelled =
      with_label lora
        (with_label gps (with_label sd_card (with_label display (with_label system titled))))

  stays_white : (s : InitSubsystem) (c : Color) → c ≡ white → with_label s c ≡ white
  stays_white s c e =
      if-both (λ color. color ≡ white) (inked ink (label s) label_x (row_y s) px py) refl e

  inked-white :
      (s : InitSubsystem) (c : Color)
      → inked ink (label s) label_x (row_y s) px py ≡ true
      → with_label s c ≡ white
  inked-white s c h = rw h

  absorbed :
      (s : InitSubsystem) (c : Color)
      → (inked ink (label s) label_x (row_y s) px py ≡ true → c ≡ white)
      → with_label s c ≡ c
  absorbed s c h = elim (Bool-cases (inked ink (label s) label_x (row_y s) px py)) [
    | inl e ↦ inked-white s c e ∙ sym (h e)
    | inr e ↦ rw e
  ]

  -- A label that is drawn again changes nothing.
  with_label-labelled : (s : InitSubsystem) → with_label s labelled ≡ labelled
  with_label-labelled system = absorbed system labelled (λ h.
      stays_white lora _ (
        stays_white gps _ (stays_white sd_card _ (stays_white display _ (inked-white system _ h)))))
  with_label-labelled display = absorbed display labelled (λ h.
      stays_white lora _ (stays_white gps _ (stays_white sd_card _ (inked-white display _ h))))
  with_label-labelled sd_card =
      absorbed sd_card labelled
        (λ h. stays_white lora _ (stays_white gps _ (inked-white sd_card _ h)))
  with_label-labelled gps = absorbed gps labelled (λ h. stays_white lora _ (inked-white gps _ h))
  with_label-labelled lora = absorbed lora labelled (inked-white lora _)

  abbrev pub status_color : BootStatus → InitSubsystem → Color
  status_color b s =
      boxed status_boxes ink bounded px py s (status_text (status_of b s))
        (status_style (status_of b s))

  abbrev pub at_pixel : (InitSubsystem → Color) → Color → Color
  at_pixel = shown status_boxes ink bounded px py (place status_boxes ink bounded px py)

  abbrev put_status : BootStatus → InitSubsystem → (InitSubsystem → Color) → InitSubsystem → Color
  put_status b s = put status_boxes ink bounded px py s (status_color b s)

  label-at :
      (s : InitSubsystem) (p : Place status_boxes ink bounded px py)
      (colors : InitSubsystem → Color) (c : Color)
      → with_label s (shown status_boxes ink bounded px py p colors c)
        ≡ shown status_boxes ink bounded px py p colors (with_label s c)
  label-at s (outside miss) colors c = refl
  label-at s (within_box g e) colors c = rw (label-miss s g e)

  row-then :
      (b : BootStatus) (s : InitSubsystem) (rest : List Draw) (colors : InitSubsystem → Color)
      (c : Color)
      → paint ink px py (draw_row s (status_of b s) ++ rest) (at_pixel colors c)
        ≡ paint ink px py rest (at_pixel (put_status b s colors) (with_label s c))
  unfolding paint
  row-then b s rest colors c =
      let here = place status_boxes ink bounded px py in
      ap
        (paint ink px py (
          draw_box status_boxes ink bounded px py s (status_text (status_of b s))
            (status_style (status_of b s))
          ++ rest))
        (label-at s here colors c)
      ∙ box-then status_boxes ink bounded px py here s (status_text (status_of b s))
          (status_style (status_of b s)) rest colors (with_label s c)
          (status_text_in_box (status_of b s))

  abbrev Agree : (InitSubsystem → Color) → (InitSubsystem → Color) → Type 0
  Agree colors colors' = All (λ s. colors s ≡ colors' s) subsystems

  settled :
      (colors colors' : InitSubsystem → Color) (c : Color)
      → Agree colors colors'
      → at_pixel colors c ≡ at_pixel colors' c
  settled colors colors' c h =
      shown_cong status_boxes ink bounded px py (place status_boxes ink bounded px py) colors
        colors' c (every_subsystem (λ s. colors s ≡ colors' s) h)

  -- What the boot page is at the pixel.
  unfoldable pub boot_color : BootStatus → Color
  boot_color b = at_pixel (status_color b) labelled

  row-again :
      (b : BootStatus) (s : InitSubsystem) (colors : InitSubsystem → Color)
      → paint ink px py (draw_row s (status_of b s)) (at_pixel colors labelled)
        ≡ at_pixel (put_status b s colors) labelled
  unfolding paint
  row-again b s colors =
      row-then b s [] colors labelled
      ∙ ap (at_pixel (put_status b s colors)) (with_label-labelled s)

  pub update_row-at :
      (s : InitSubsystem) (status : InitStatus) (b : BootStatus)
      → paint ink px py (update_row s status) (boot_color b) ≡ boot_color (set_status s status b)
  unfolding boot_color
  update_row-at system status b =
      row-again (set_status system status b) system (status_color b)
      ∙ settled _ _ labelled (refl, (refl, (refl, (refl, (refl, tt)))))
  update_row-at display status b =
      row-again (set_status display status b) display (status_color b)
      ∙ settled _ _ labelled (refl, (refl, (refl, (refl, (refl, tt)))))
  update_row-at sd_card status b =
      row-again (set_status sd_card status b) sd_card (status_color b)
      ∙ settled _ _ labelled (refl, (refl, (refl, (refl, (refl, tt)))))
  update_row-at gps status b =
      row-again (set_status gps status b) gps (status_color b)
      ∙ settled _ _ labelled (refl, (refl, (refl, (refl, (refl, tt)))))
  update_row-at lora status b =
      row-again (set_status lora status b) lora (status_color b)
      ∙ settled _ _ labelled (refl, (refl, (refl, (refl, (refl, tt)))))

  pub draw_boot_status-at :
      (b : BootStatus) (c : Color) → paint ink px py (draw_boot_status b) c ≡ boot_color b
  unfolding draw_boot_status paint boot_color
  draw_boot_status-at b c =
      let r4 = draw_row lora b.lora_status in
      let r3 = draw_row gps b.gps_status ++ r4 in
      let r2 = draw_row sd_card b.sd_card_status ++ r3 in
      let r1 = draw_row display b.display_status ++ r2 in
      let k0 = λ (s : InitSubsystem). titled in
      let k1 = put_status b system k0 in
      let k2 = put_status b display k1 in
      let k3 = put_status b sd_card k2 in
      let k4 = put_status b gps k3 in
      let c1 = with_label system titled in
      let c2 = with_label display c1 in
      let c3 = with_label sd_card c2 in
      let c4 = with_label gps c3 in
      ap (paint ink px py (draw_row system b.system_status ++ r1)) (
        sym (
          shown_const status_boxes ink bounded px py (place status_boxes ink bounded px py) titled))
      ∙ row-then b system r1 k0 titled
      ∙ row-then b display r2 k1 c1
      ∙ row-then b sd_card r3 k2 c2
      ∙ row-then b gps r4 k3 c3
      ∙ row-then b lora [] k4 c4
      ∙ settled (put_status b lora k4) (status_color b) labelled
          (refl, (refl, (refl, (refl, (refl, tt)))))
