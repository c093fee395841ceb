-- ===== src/Link/Tests.antt =====
-- The receiving side of the main loop at concrete inputs.
use golfer.Prelude.{ℕ, [], ◌∷◌, none, some, false, All, arith, ◌+◌, ◌≤◌, ◌≡◌, ◌≢◌, ◌↔◌, ◌⊎◌, refl}
use golfer.Prelude.Int.{pos, negsuc}
use golfer.Prelude.Results.{ok, err}
use golfer.Packet.{TelemetryV1, standard, wrong_length}
use golfer.Packet.Codec.{decode, check_frame}
use golfer.Display.{radio_waiting}
use golfer.Link.{Link, Heard, listening, on_packet, on_sequence, on_tick}
use golfer.Link.Sequence.{tracking, on_sequence-forward, on_sequence-resync}
use golfer.Link.Rejection.{Belongs, OnlyReports, counted, on_packet-rejected}
use golfer.Link.Watchdog.{IsReport, on_tick_iff, ticks, ticks-IsReport_once}
use golfer.Link.Trace.{Faithful, packet, tick, run, run-listening-Faithful}

abbrev beacon : ℕ → TelemetryV1
beacon sequence = record {
  sender_mode = 1;
  sender_system_id = 0x4D52_5500_0000_0001;
  survey_id = 0xA000_0003;
  sequence = sequence;
  gps_unix_time = none;
  latitude_e7 = none;
  longitude_e7 = none;
  altitude_half_m = none;
  speed_cm_s = none;
  course_cdeg = none;
  gps_fix_class = standard;
  satellites = 10;
  hdop_tenths = none;
  temperature_centi_c = none;
  pressure_10pa = none;
  humidity_half_percent = none;
  battery_soc_percent = none;
}

abbrev heard_at : ℕ → ℕ → Heard
heard_at now sequence = record {
  now = now;
  telemetry = beacon sequence;
  rssi = negsuc 89;
  snr = pos 7;
}

-- Packet 10 at 4000 ms after packet 7 at 1000 ms.
on_sequence-forward_example :
    let after = (on_sequence (heard_at 4000 10) (tracking 7 1000 listening)).0 in
    (after.last_sequence ≡ some 10)
    × (after.last_sequence_rx_time ≡ some 4000)
    × (after.pending_sequence_candidate ≡ none)
    × (after.received_packets + after.missed_packets + 7 ≡ 10)
on_sequence-forward_example =
    on_sequence-forward (heard_at 4000 10) 7 1000 listening (omega arith) (omega arith)
      (omega arith) (omega arith)

-- Packet 900 one second after packet 7, and then packet 901.
on_sequence-resync_example :
    let first = (on_sequence (heard_at 2000 900) (tracking 7 1000 listening)).0 in
    let after = (on_sequence (heard_at 3000 901) first).0 in
    (first.last_sequence ≡ some 7)
    × (after.last_sequence ≡ some 901)
    × (after.pending_sequence_candidate ≡ none)
    × (after.received_packets + after.missed_packets + 7 ≡ 901)
on_sequence-resync_example =
    on_sequence-resync (heard_at 2000 900) (heard_at 3000 901) 7 1000 listening (omega arith) refl
      (omega arith) (omega arith) (omega arith) (omega arith)

not_a_frame : decode (71 ∷ 1 ∷ []) ≡ err wrong_length
unfolding decode check_frame
not_a_frame = refl

err-ne-ok : {p : TelemetryV1} → err wrong_length ≡ ok p → ⊥
err-ne-ok h = cc

nobodys : ¬ Belongs (71 ∷ 1 ∷ [])
nobodys (p, e, sender, survey) = err-ne-ok {p = p} (rw not_a_frame at e)

on_packet-rejected_example :
    let after = on_packet 5000 (71 ∷ 1 ∷ []) (negsuc 89) (pos 7) listening in
    (after.0 ≡ counted (decode (71 ∷ 1 ∷ [])) listening) × All (OnlyReports (71 ∷ 1 ∷ [])) after.1
on_packet-rejected_example =
    on_packet-rejected 5000 (71 ∷ 1 ∷ []) (negsuc 89) (pos 7) listening nobodys

abbrev heard_once : Link
heard_once = record listening { last_valid_rx_time = some 1000; received_packets = 1 }

on_tick_iff_example : ((on_tick 6000 heard_once).1 ≢ []) ↔ (
    (last : ℕ) × (some 1000 ≡ some last)
    × (last + 5000 ≤ 6000)
    × (heard_once.link_lost_displayed ≡ false))
on_tick_iff_example = on_tick_iff 6000 heard_once

ticks-IsReport_once_example :
    (ticks (5750 ∷ 6000 ∷ 6250 ∷ []) heard_once ≡ [])
    ⊎ ((now : ℕ) × IsReport heard_once now (ticks (5750 ∷ 6000 ∷ 6250 ∷ []) heard_once))
ticks-IsReport_once_example = ticks-IsReport_once (5750 ∷ 6000 ∷ 6250 ∷ []) heard_once

run-listening-Faithful_example :
    Faithful
      (run (packet 0 (71 ∷ 1 ∷ []) (pos 0) (pos 0) ∷ tick 250 ∷ []) (listening, radio_waiting))
run-listening-Faithful_example =
    run-listening-Faithful (packet 0 (71 ∷ 1 ∷ []) (pos 0) (pos 0) ∷ tick 250 ∷ [])
