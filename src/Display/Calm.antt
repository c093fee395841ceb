-- ===== src/Display/Calm.antt =====
-- No operation of the display panics, for values of the types that the source gives them.
use golfer.Prelude.{Bool, true, false, List, [], ◌∷◌, ◌++◌, All, if-both, arith, not, ◌||◌}
use golfer.Display.{
  DisplayPage, boot, general, RadioDisplayState, GpsDisplayState, InitSubsystem, InitStatus,
}
use golfer.Display.Target.{Draw}
use golfer.Display.Pixels.{Calm, All-append}
use golfer.Display.Ui.{
  Field, seq_field, rssi_field, snr_field, rx_field, missed_field, sat_field, lat_field, lon_field,
  field_y, draw_general_static, draw_all_radio, draw_line, draw_all_gps, clear_screen, draw_link,
  draw_sequence, draw_rssi, draw_snr, draw_received, draw_missed, draw_gps_status, draw_satellites,
  draw_latitude, draw_longitude,
}
use golfer.Display.BootScreen.{draw_boot_status, update_row, draw_row}
use golfer.Display.Facade.{
  Display, page_draws, on_boot, on_general, set_page, set_init_status, update_radio, update_gps,
  same_page, same_bool, unless_same, radio_changes, gps_changes, turn_page, Call, to_page,
  init_status, radio_state, gps_state, call, run,
}
use golfer.Display.Fits.{RadioInType, GpsInType, field_text, field_text_in_box, draw_line_in_box}

-- The values of a call are of their types in the source.
abbrev pub CallInType : Call → Type 0
CallInType (to_page page) = Unit
CallInType (init_status subsystem status) = Unit
CallInType (radio_state r) = RadioInType r
CallInType (gps_state g) = GpsInType g

abbrev pub DisplayInType : Display → Type 0
DisplayInType d = RadioInType d.radio × GpsInType d.gps

pub call-InType :
    (c : Call) (d : Display) → CallInType c → DisplayInType d → DisplayInType (call c d).0
unfolding set_page set_init_status update_radio update_gps
call-InType (to_page page) d hc hd =
    if-both (λ (o : Display × List Draw). DisplayInType o.0) (same_page d.page page) hd hd
call-InType (init_status subsystem status) d hc hd = hd
call-InType (radio_state r) d hc hd = (hc, hd.1)
call-InType (gps_state g) d hc hd = (hd.0, hc)

pub run-InType :
    (calls : List Call) (d : Display)
    → All CallInType calls
    → DisplayInType d
    → DisplayInType (run calls d).0
unfolding run
run-InType [] d hc hd = hd
run-InType (c ∷ calls) d hc hd = run-InType calls (call c d).0 hc.1 (call-InType c d hc.0 hd)

-- Sequences with no panic.
abbrev AllCalm : List Draw → Type 0
AllCalm draws = All Calm draws

both_calm : (xs ys : List Draw) → AllCalm xs → AllCalm ys → AllCalm (xs ++ ys)
both_calm = All-append

unless_same-calm :
    (same : Bool) (draws : List Draw) → AllCalm draws → AllCalm (unless_same same draws)
unless_same-calm true draws h = tt
unless_same-calm false draws h = h

row-calm : (s : InitSubsystem) (status : InitStatus) → AllCalm (draw_row s status)
row-calm s status = (tt, (tt, (tt, tt)))

module _ (r : RadioDisplayState) (g : GpsDisplayState) (hr : RadioInType r) (hg : GpsInType g) where
  line-calm : (f : Field) → AllCalm (draw_line (field_y f) (field_text r g f))
  line-calm f =
      rw (draw_line_in_box (field_y f) (field_text r g f) (field_text_in_box r g f hr hg))
        ((tt, (tt, tt)))

  radio_steps-calm :
      (s1 s2 s3 s4 s5 s6 : Bool)
      → AllCalm (
          unless_same s1 (draw_link r)
          ++ (unless_same s2 (draw_sequence r)
              ++ (unless_same s3 (draw_rssi r)
                  ++ (unless_same s4 (draw_snr r)
                      ++ (unless_same s5 (draw_received r) ++ unless_same s6 (draw_missed r))))))
  radio_steps-calm s1 s2 s3 s4 s5 s6 =
      both_calm (unless_same s1 (draw_link r)) _ (unless_same-calm s1 _ (tt, (tt, tt))) (
        both_calm (unless_same s2 (draw_sequence r)) _ (unless_same-calm s2 _ (line-calm seq_field))
          (both_calm (unless_same s3 (draw_rssi r)) _ (unless_same-calm s3 _ (line-calm rssi_field))
            (both_calm (unless_same s4 (draw_snr r)) _ (unless_same-calm s4 _ (line-calm snr_field))
              (both_calm (unless_same s5 (draw_received r)) _
                (unless_same-calm s5 _ (line-calm rx_field))
                (unless_same-calm s6 _ (line-calm missed_field))))))

  gps_steps-calm :
      (draws : List Draw) (s2 s3 s4 : Bool)
      → AllCalm draws
      → AllCalm (
          draws
          ++ (unless_same s2 (draw_satellites g)
              ++ (unless_same s3 (draw_latitude g) ++ unless_same s4 (draw_longitude g))))
  gps_steps-calm draws s2 s3 s4 h = both_calm draws _ h (
      both_calm (unless_same s2 (draw_satellites g)) _ (unless_same-calm s2 _ (line-calm sat_field))
        (both_calm (unless_same s3 (draw_latitude g)) _
          (unless_same-calm s3 _ (line-calm lat_field))
          (unless_same-calm s4 _ (line-calm lon_field))))

  radio_changes-calm : (old : RadioDisplayState) → AllCalm (radio_changes old r)
  unfolding radio_changes
  radio_changes-calm old = radio_steps-calm _ _ _ _ _ _

  gps_changes-calm : (old : GpsDisplayState) → AllCalm (gps_changes old g)
  unfolding gps_changes
  gps_changes-calm old = gps_steps-calm _ _ _ _ (
      if-both AllCalm (not (same_bool old.online g.online) || not (same_bool old.fix g.fix))
        (tt, (tt, tt)) tt)

  all-calm : AllCalm (draw_all_radio r ++ draw_all_gps g)
  unfolding draw_all_radio draw_all_gps
  all-calm =
      both_calm (draw_all_radio r) (draw_all_gps g)
        (radio_steps-calm false false false false false false)
        (gps_steps-calm (draw_gps_status g) false false false (tt, (tt, tt)))

static-calm : AllCalm (clear_screen ++ draw_general_static)
unfolding draw_general_static
static-calm = ground arith

pub page-calm : (page : DisplayPage) (d : Display) → DisplayInType d → AllCalm (page_draws page d)
unfolding draw_boot_status
page-calm boot d h = ground arith
page-calm general d h =
    All-append (clear_screen ++ draw_general_static) (draw_all_radio d.radio ++ draw_all_gps d.gps)
      static-calm (all-calm d.radio d.gps h.0 h.1)

on_boot-calm :
    (page : DisplayPage) (s : InitSubsystem) (status : InitStatus)
    → AllCalm (on_boot page (update_row s status))
on_boot-calm boot s status = row-calm s status
on_boot-calm general s status = tt

on_general-calm :
    (page : DisplayPage) (draws : List Draw) → AllCalm draws → AllCalm (on_general page draws)
on_general-calm boot draws h = tt
on_general-calm general draws h = h

call-calm : (c : Call) (d : Display) → CallInType c → DisplayInType d → AllCalm (call c d).1
unfolding set_page set_init_status update_radio update_gps
call-calm (to_page page) d hc h =
    if-both (λ (o : Display × List Draw). AllCalm o.1) (same_page d.page page) tt
      (page-calm page (turn_page page d) h)
call-calm (init_status s status) d hc h = on_boot-calm d.page s status
call-calm (radio_state r) d hc h =
    on_general-calm d.page (radio_changes d.radio r) (radio_changes-calm r d.gps hc h.1 d.radio)
call-calm (gps_state g) d hc h =
    on_general-calm d.page (gps_changes d.gps g) (gps_changes-calm d.radio g h.0 hc d.gps)

pub run-calm :
    (calls : List Call) (d : Display)
    → All CallInType calls
    → DisplayInType d
    → AllCalm (run calls d).1
unfolding run
run-calm [] d hc h = tt
run-calm (c ∷ calls) d hc h =
    All-append (call c d).1 (run calls (call c d).0).1 (call-calm c d hc.0 h)
      (run-calm calls (call c d).0 hc.1 (call-InType c d hc.0 h))
