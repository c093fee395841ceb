-- ===== src/Display/Refinement.antt =====
-- The incremental updates of `Display` against the full redraw of its state.
use golfer.Prelude.{ℕ, ◌<◌, ◌≡◌, refl, sym, ap, ◌∙◌, some, List, [], ◌∷◌, ◌++◌, All, if-both, arith}
use golfer.System.{SystemInfo, SystemConfig}
use golfer.Display.{
  DisplayPage, boot, general, InitStatus, InitSubsystem, set_status, RadioDisplayState,
  GpsDisplayState,
}
use golfer.Display.Target.{
  Color, black, Draw, DrawTarget, draw_all, Ink, paint, Bounded, Faithful, panel_width,
  panel_height,
}
use golfer.Display.Pixels.{All-append, draw_all-paint, paint-append}
use golfer.Display.Ui.{draw_general_static, clear_screen, draw_all_radio, draw_all_gps}
use golfer.Display.BootScreen.{update_row}
use golfer.Display.Facade.{
  Display, redraw_page, page_draws, on_boot, on_general, new, set_page, set_init_status,
  update_radio, update_gps, same_page, radio_changes, gps_changes, Call, to_page, init_status,
  radio_state, gps_state, call, run,
}
use golfer.Display.Calm.{CallInType, DisplayInType, call-InType, run-InType, page-calm, run-calm}
use golfer.Display.Fits.{RadioInType, GpsInType}
use golfer.Display.General.{value_color, radio_changes-at, gps_changes-at, draw_all-at, at_pixel}
use golfer.Display.Boot.{boot_color, update_row-at, draw_boot_status-at}

module _ (ink : Ink) (bounded : Bounded ink) (px py : ℕ) where
  abbrev pub static : Color
  static = paint ink px py draw_general_static black

  -- The color of a pixel that shows a state.
  abbrev pub general_color : Display → Color
  general_color d =
      at_pixel ink bounded px py static (value_color ink bounded px py static d.radio d.gps)

  abbrev pub page_color : DisplayPage → Display → Color
  page_color boot d = boot_color ink bounded px py d.boot_status
  page_color general d = general_color d

  general-at :
      (d : Display) (c : Color)
      → DisplayInType d
      → paint ink px py
          (clear_screen ++ (draw_general_static ++ (draw_all_radio d.radio ++ draw_all_gps d.gps)))
          c
        ≡ general_color d
  unfolding paint
  general-at d c h =
      paint-append ink px py draw_general_static (draw_all_radio d.radio ++ draw_all_gps d.gps)
        black
      ∙ draw_all-at ink bounded px py static d.radio d.gps h.0 h.1

  page-at :
      (page : DisplayPage) (d : Display) (c : Color)
      → DisplayInType d
      → paint ink px py (page_draws page d) c ≡ page_color page d
  page-at boot d c h = draw_boot_status-at ink bounded px py d.boot_status c
  page-at general d c h = general-at d c h

  nothing-at : (c : Color) → paint ink px py [] c ≡ c
  unfolding paint
  nothing-at c = refl

  -- An operation takes the color of the state before it to that of the state after it.
  abbrev Shows : Display → Display × List Draw → Type 0
  Shows d (next, draws) = paint ink px py draws (page_color d.page d) ≡ page_color next.page next

  set_page-Shows : (page : DisplayPage) (d : Display) → DisplayInType d → Shows d (set_page page d)
  unfolding set_page
  set_page-Shows page d h =
      if-both (Shows d) (same_page d.page page) (nothing-at (page_color d.page d))
        (page-at page (record d { page = page }) (page_color d.page d) h)

  on_boot-Shows :
      (page : DisplayPage) (s : InitSubsystem) (status : InitStatus) (d : Display)
      → paint ink px py (on_boot page (update_row s status)) (page_color page d)
        ≡ page_color page (record d { boot_status = set_status s status d.boot_status })
  on_boot-Shows boot s status d = update_row-at ink bounded px py s status d.boot_status
  on_boot-Shows general s status d = nothing-at (general_color d)

  on_general-radio :
      (page : DisplayPage) (r : RadioDisplayState) (d : Display)
      → RadioInType r
      → DisplayInType d
      → paint ink px py (on_general page (radio_changes d.radio r)) (page_color page d)
        ≡ page_color page (record d { radio = r })
  on_general-radio boot r d hr h = nothing-at (page_color boot d)
  on_general-radio general r d hr h =
      radio_changes-at ink bounded px py static r d.gps hr h.1 d.radio

  on_general-gps :
      (page : DisplayPage) (g : GpsDisplayState) (d : Display)
      → GpsInType g
      → DisplayInType d
      → paint ink px py (on_general page (gps_changes d.gps g)) (page_color page d)
        ≡ page_color page (record d { gps = g })
  on_general-gps boot g d hg h = nothing-at (page_color boot d)
  on_general-gps general g d hg h = gps_changes-at ink bounded px py static d.radio g h.0 hg d.gps

  call-Shows : (c : Call) (d : Display) → CallInType c → DisplayInType d → Shows d (call c d)
  unfolding set_init_status update_radio update_gps
  call-Shows (to_page page) d hc h = set_page-Shows page d h
  call-Shows (init_status s status) d hc h = on_boot-Shows d.page s status d
  call-Shows (radio_state r) d hc h = on_general-radio d.page r d hc h
  call-Shows (gps_state g) d hc h = on_general-gps d.page g d hc h

  run-Shows :
      (calls : List Call) (d : Display)
      → All CallInType calls
      → DisplayInType d
      → Shows d (run calls d)
  unfolding run
  run-Shows [] d hc h = nothing-at (page_color d.page d)
  run-Shows (c ∷ calls) d (hc, hcs) h =
      let (next, draws) = call c d in
      paint-append ink px py draws (run calls next).1 (page_color d.page d)
      ∙ ap (paint ink px py (run calls next).1) (call-Shows c d hc h)
      ∙ run-Shows calls next hcs (call-InType c d hc h)

abbrev pub start : SystemInfo → SystemConfig → Display
start info config = (new info config).0

-- The state after the calls, from the state that `new` gives.
abbrev pub after : SystemInfo → SystemConfig → List Call → Display
after info config calls = (run calls (start info config)).0

-- All that is drawn since the display was made.
abbrev pub drawn : SystemInfo → SystemConfig → List Call → List Draw
drawn info config calls = (new info config).1 ++ (run calls (start info config)).1

start-InType : (info : SystemInfo) (config : SystemConfig) → DisplayInType (start info config)
start-InType info config = ((tt, tt, tt, omega arith, omega arith), (tt, tt, tt))

after-InType :
    (info : SystemInfo) (config : SystemConfig) (calls : List Call)
    → All CallInType calls
    → DisplayInType (after info config calls)
after-InType info config calls h = run-InType calls (start info config) h (start-InType info config)

-- At a pixel, all that was drawn comes to what shows the last state.
drawn-at :
    (ink : Ink) (bounded : Bounded ink) (px py : ℕ) (info : SystemInfo) (config : SystemConfig)
    (calls : List Call) (c : Color)
    → All CallInType calls
    → paint ink px py (drawn info config calls) c
      ≡ page_color ink bounded px py (after info config calls).page (after info config calls)
drawn-at ink bounded px py info config calls c h =
    let d = start info config in
    paint-append ink px py (redraw_page d) (run calls d).1 c
    ∙ ap (paint ink px py (run calls d).1)
        (page-at ink bounded px py d.page d c (start-InType info config))
    ∙ run-Shows ink bounded px py calls d h (start-InType info config)

module _ {T : Type 0} (target : DrawTarget T) (ink : Ink) (faithful : Faithful target ink) where
  -- The draws succeed, and every pixel of the panel then has the color.
  abbrev pub Panel : List Draw → T → (ℕ → ℕ → Color) → Type 0
  Panel draws t color =
      (last : T) × (draw_all target draws t ≡ some last)
      × ((px py : ℕ) → px < panel_width → py < panel_height → target.pixel last px py ≡ color px py)

  pub drawn-Panel :
      (info : SystemInfo) (config : SystemConfig) (calls : List Call) (t : T)
      → All CallInType calls
      → Panel (drawn info config calls) t (λ px py.
        page_color ink faithful.bounded px py
          (after info config calls).page
          (after info config calls))
  drawn-Panel info config calls t h =
      let d = start info config in
      let calm =
        All-append (redraw_page d) (run calls d).1 (page-calm d.page d (start-InType info config))
          (run-calm calls d h (start-InType info config)) in
      let (last, e, shows) = draw_all-paint target ink faithful (drawn info config calls) calm t in
      (
        last,
        e,
        λ px py hx hy.
            shows px py hx hy
            ∙ drawn-at ink faithful.bounded px py info config calls (target.pixel t px py) h,
      )

  redraw-Panel :
      (d : Display) (t : T)
      → DisplayInType d
      → Panel (redraw_page d) t (λ px py. page_color ink faithful.bounded px py d.page d)
  redraw-Panel d t h =
      let (last, e, shows) =
        draw_all-paint target ink faithful (redraw_page d) (page-calm d.page d h) t in
      (
        last,
        e,
        λ px py hx hy.
            shows px py hx hy
            ∙ page-at ink faithful.bounded px py d.page d (target.pixel t px py) h,
      )

  -- Two targets, one drawn on since the display was made and the other with the last state redrawn,
  -- from whatever they showed before.
  abbrev pub SamePanels : List Draw → T → List Draw → T → Type 0
  SamePanels draws t draws' t' =
      (last : T) × (last' : T) × (draw_all target draws t ≡ some last)
      × (draw_all target draws' t' ≡ some last')
      × ((px py : ℕ)
          → px < panel_width
          → py < panel_height
          → target.pixel last px py ≡ target.pixel last' px py)

  -- After any calls, with values of their types, all that was drawn since the display was made
  -- succeeds, and leaves on every pixel of the panel the color that a full redraw of the last state
  -- leaves there on any target: the incremental updates lose nothing and leave nothing behind.
  pub run-redraw :
      (info : SystemInfo) (config : SystemConfig) (calls : List Call) (t t' : T)
      → All CallInType calls
      → SamePanels (drawn info config calls) t (redraw_page (after info config calls)) t'
  run-redraw info config calls t t' h =
      let (last, e, shows) = drawn-Panel info config calls t h in
      let (last', e', shows') =
        redraw-Panel (after info config calls) t' (after-InType info config calls h) in
      (last, last', e, e', λ px py hx hy. shows px py hx hy ∙ sym (shows' px py hx hy))
