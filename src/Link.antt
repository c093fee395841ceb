-- ===== src/Link.antt =====
-- The receiving side of firmware/golfer/src/main.rs: the bookkeeping of `main` for the packets that
-- arrive, the sequence numbers, the loss of the link, and the plausibility of GPS time. Times are
-- in milliseconds; an age in whole seconds is the quotient by 1000.
pub mod Requests
pub mod Sequence
pub mod Rejection
pub mod Watchdog
pub mod Time
mod Judged
pub mod Trace
mod Tests
use golfer.Prelude.Results.{Result, err, ok}
use golfer.Prelude.Int.{ℤ}
use golfer.Prelude.{
  saturating_add, saturating_mul, ℕ, Bool, List, Option, [], false, if◌then◌else◌, leb, length, ltb,
  max, none, some, true, u32_mod, u64_mod, ◌&&◌, ◌*◌, ◌+◌, ◌-◌, ◌/◌, ◌==◌, ◌∷◌, ◌++◌,
}
use golfer.Packet.{TelemetryV1, DecodeError, crc_mismatch}
use golfer.Packet.Codec.{decode, crc32_details}
use golfer.Storage.{warn, info, debug}
use golfer.Display.{radio_connected, radio_lost}
use golfer.Audio.{link_lost, link_reacquired}
use Requests.{
  Request, diag, log_event, log_receiver_packet, update_radio, play_ui_sound, app_crc_failed,
  native_packet_rejected, survey_context_rejected, seq_candidate_duplicate, seq_resync_confirmed,
  seq_candidate_not_confirmed, seq_suspicious, seq_reset, seq_backward, event_app_crc_failed,
  link_reacquired_event, link_lost_event,
}

abbrev gps_utc_progress_tolerance_ms : ℕ
gps_utc_progress_tolerance_ms = 2000

abbrev sequence_gap_tolerance : ℕ
sequence_gap_tolerance = 5

abbrev pub reboot_sequence_window : ℕ
reboot_sequence_window = 10

abbrev link_loss_timeout_secs : ℕ
link_loss_timeout_secs = 5

abbrev beacon_sequence_rate_hz : ℕ
beacon_sequence_rate_hz = 1

abbrev pub test_expected_sender_system_id : ℕ
test_expected_sender_system_id = 0x4D52_5500_0000_0001

abbrev pub abs_diff : ℕ → ℕ → ℕ
abs_diff a b = if leb b a then a - b else b - a

-- The arguments are the monotonic time and UTC of the previous and of the current sample.
unfoldable pub gps_utc_progression_is_sane : ℕ → ℕ → ℕ → ℕ → Bool
gps_utc_progression_is_sane previous_mono_ms previous_utc_ms current_mono_ms current_utc_ms =
    if ltb current_mono_ms previous_mono_ms
    then false
    else if ltb current_utc_ms previous_utc_ms
    then false
    else ltb 0 (current_mono_ms - previous_mono_ms)
      && ltb 0 (current_utc_ms - previous_utc_ms)
      && leb (abs_diff (current_mono_ms - previous_mono_ms) (current_utc_ms - previous_utc_ms))
          gps_utc_progress_tolerance_ms

-- The local variables of `main` that the packets change.
pub record Link : Type 0 where
  pub received_packets : ℕ
  pub missed_packets : ℕ
  pub crc_failures : ℕ
  pub invalid_native_packets : ℕ
  pub foreign_context_packets : ℕ
  pub last_sequence : Option ℕ
  pub last_sequence_rx_time : Option ℕ
  pub last_accepted_sequence : Option ℕ
  pub pending_sequence_candidate : Option ℕ
  pub last_valid_rx_time : Option ℕ
  pub last_rssi : Option ℤ
  pub last_snr : Option ℤ
  pub link_lost_displayed : Bool

abbrev pub listening : Link
listening = record {
  received_packets = 0;
  missed_packets = 0;
  crc_failures = 0;
  invalid_native_packets = 0;
  foreign_context_packets = 0;
  last_sequence = none;
  last_sequence_rx_time = none;
  last_accepted_sequence = none;
  pending_sequence_candidate = none;
  last_valid_rx_time = none;
  last_rssi = none;
  last_snr = none;
  link_lost_displayed = false;
}

-- A packet of the radio that decoded, with the time when it was taken from the channel.
pub record Heard : Type 0 where
  pub now : ℕ
  pub telemetry : TelemetryV1
  pub rssi : ℤ
  pub snr : ℤ

-- What the sequence check does with a packet: `continue`, or accept it, as the new baseline or not.
pub data Verdict : Type 0 where
  ignored : Verdict
  accepted : Bool → Verdict

-- `missed_packets.saturating_add(newly_missed)`, with the test for zero.
abbrev add_missed : ℕ → Link → Link
add_missed newly_missed k = record k {
  missed_packets = saturating_add u32_mod k.missed_packets newly_missed;
}

abbrev pub elapsed_since : ℕ → Option ℕ → ℕ
elapsed_since now none = 0
elapsed_since now (some last_time) = now - last_time

abbrev expected_gap : ℕ → ℕ
expected_gap elapsed_ms = saturating_mul u64_mod elapsed_ms beacon_sequence_rate_hz / 1000

abbrev pub max_plausible_gap : ℕ → ℕ
max_plausible_gap elapsed_ms =
    max (saturating_add u64_mod (expected_gap elapsed_ms) sequence_gap_tolerance) 1

abbrev suspicious : Heard → ℕ → ℕ → Request
suspicious h last elapsed_ms = diag warn h.now (
    seq_suspicious last h.telemetry.sequence (h.telemetry.sequence - last) elapsed_ms
      (expected_gap elapsed_ms) (max_plausible_gap elapsed_ms) h.telemetry.sender_system_id
      h.telemetry.survey_id h.telemetry.sender_mode h.rssi h.snr)

-- The part for a packet that did not confirm a candidate.
unfoldable pub judge_plain : Heard → ℕ → Link → Link × Verdict × List Request
judge_plain h last k =
    let sequence = h.telemetry.sequence in
    let elapsed_ms = elapsed_since h.now k.last_sequence_rx_time in
    if sequence == last
    then (k, ignored, [])
    else if ltb last sequence
    then (if ltb (max_plausible_gap elapsed_ms) (sequence - last)
        then (
          record k { pending_sequence_candidate = some sequence },
          accepted false,
          suspicious h last elapsed_ms ∷ [],
        )
        else (add_missed (sequence - last - 1) k, accepted true, []))
    else if leb sequence reboot_sequence_window
    then (
      record k { pending_sequence_candidate = none },
      accepted true,
      diag info h.now (seq_reset last sequence) ∷ [],
    )
    else (k, ignored, diag warn h.now (seq_backward last sequence h.rssi h.snr) ∷ [])

abbrev after_request : Request → Link × Verdict × List Request → Link × Verdict × List Request
after_request r (k, verdict, requests) = (k, verdict, r ∷ requests)

-- The part for the candidate that is on probation, if there is one.
unfoldable pub judge_candidate : Heard → ℕ → Option ℕ → Link → Link × Verdict × List Request
unfolding judge_plain
judge_candidate h last none k = judge_plain h last k
judge_candidate h last (some candidate) k =
    let sequence = h.telemetry.sequence in
    if candidate == sequence
    then (k, ignored, diag warn h.now (seq_candidate_duplicate sequence h.rssi h.snr) ∷ [])
    else if ltb (candidate + 1) u32_mod && candidate + 1 == sequence && ltb last candidate
    then (
      record (add_missed (candidate - last - 1) k) { pending_sequence_candidate = none },
      accepted true,
      diag info h.now (seq_resync_confirmed last candidate sequence (candidate - last - 1)) ∷ [],
    )
    else after_request (diag debug h.now (seq_candidate_not_confirmed candidate sequence last))
        (judge_plain h last (record k { pending_sequence_candidate = none }))

unfoldable pub judge : Heard → Option ℕ → Link → Link × Verdict × List Request
unfolding judge_candidate
judge h none k = (k, accepted true, [])
judge h (some last) k = judge_candidate h last k.pending_sequence_candidate k

-- The assignments for a packet that is accepted.
abbrev pub trusted : Bool → Heard → Link → Link
trusted true h k = record k {
  last_sequence = some h.telemetry.sequence;
  last_sequence_rx_time = some h.now;
}
trusted false h k = k

abbrev pub accept : Bool → Heard → Link → Link
accept trust_sequence_now h k = record (trusted trust_sequence_now h k) {
  received_packets = saturating_add u32_mod k.received_packets 1;
  last_accepted_sequence = some h.telemetry.sequence;
  last_valid_rx_time = some h.now;
  last_rssi = some h.rssi;
  last_snr = some h.snr;
  link_lost_displayed = false;
}

abbrev time_or_zero : Option ℕ → ℕ
time_or_zero none = 0
time_or_zero (some time) = time

-- The event and the sound for a link that was lost.
abbrev pub reacquired : Heard → Link → List Request
reacquired h k =
    if k.link_lost_displayed
    then log_event h.now (
        link_reacquired_event h.telemetry.sequence (elapsed_since h.now k.last_valid_rx_time)
          (time_or_zero k.last_valid_rx_time))
      ∷ play_ui_sound link_reacquired
      ∷ []
    else []

-- The record of the packet, the display, and what a reacquired link asks for.
abbrev pub announce : Heard → Link → List Request
announce h k =
    let received = saturating_add u32_mod k.received_packets 1 in
    log_receiver_packet h.now h.telemetry h.rssi h.snr received k.missed_packets k.crc_failures
    ∷ update_radio (radio_connected h.telemetry.sequence h.rssi h.snr received k.missed_packets)
    ∷ reacquired h k

-- What follows the sequence check.
abbrev pub settle : Heard → Link × Verdict × List Request → Link × List Request
settle h (k, ignored, requests) = (k, requests)
settle h (k, accepted trust, requests) = (accept trust h k, requests ++ announce h k)

unfoldable pub on_sequence : Heard → Link → Link × List Request
unfolding judge
on_sequence h k = settle h (judge h k.last_sequence k)

-- `TEST_EXPECTED_SURVEY_ID`, which is `TEST_SURVEY_ID` of storage.rs.
abbrev pub test_expected_survey_id : ℕ
test_expected_survey_id = 0xA000_0003

abbrev pub foreign_context : Heard → Link → Link × List Request
foreign_context h k =
    let count = saturating_add u32_mod k.foreign_context_packets 1 in
    (
      record k { foreign_context_packets = count },
      diag debug h.now (
            survey_context_rejected h.telemetry.sender_system_id h.telemetry.survey_id
              h.telemetry.sequence h.telemetry.sender_mode count)
          ∷ [],
    )

abbrev pub on_telemetry : Heard → Link → Link × List Request
on_telemetry h k =
    if h.telemetry.sender_system_id == test_expected_sender_system_id
      && h.telemetry.survey_id == test_expected_survey_id
    then on_sequence h k
    else foreign_context h k

-- `crc32_details` is there for a frame of the right length.
abbrev pub crc_requests : ℕ → ℕ → ℤ → ℤ → Option (ℕ × ℕ) → List Request
crc_requests now count rssi snr none = []
crc_requests now count rssi snr (some (stored_crc, computed_crc)) =
    diag debug now (app_crc_failed count rssi snr stored_crc computed_crc)
    ∷ log_event now (event_app_crc_failed count rssi snr stored_crc computed_crc)
    ∷ []

abbrev crc_failed : ℕ → List ℕ → ℤ → ℤ → Link → Link × List Request
crc_failed now bytes rssi snr k =
    let count = saturating_add u32_mod k.crc_failures 1 in
    (record k { crc_failures = count }, crc_requests now count rssi snr (crc32_details bytes))

abbrev invalid_native : ℕ → List ℕ → DecodeError → ℤ → ℤ → Link → Link × List Request
invalid_native now bytes e rssi snr k =
    let count = saturating_add u32_mod k.invalid_native_packets 1 in
    (
      record k { invalid_native_packets = count },
      diag debug now (native_packet_rejected (length bytes) e count rssi snr) ∷ [],
    )

abbrev pub on_decoded :
    ℕ → List ℕ → Result DecodeError TelemetryV1 → ℤ → ℤ → Link → Link × List Request
on_decoded now bytes (err crc_mismatch) rssi snr k = crc_failed now bytes rssi snr k
on_decoded now bytes (err e) rssi snr k = invalid_native now bytes e rssi snr k
on_decoded now bytes (ok telemetry) rssi snr k =
    on_telemetry (record { now = now; telemetry = telemetry; rssi = rssi; snr = snr }) k

-- The arm of the main loop for a packet: the time, its bytes, its RSSI and its SNR.
unfoldable pub on_packet : ℕ → List ℕ → ℤ → ℤ → Link → Link × List Request
on_packet now bytes rssi snr k = on_decoded now bytes (decode bytes) rssi snr k

abbrev pub loss_requests : ℕ → ℕ → Link → List Request
loss_requests now last_rx_time k =
    log_event now
      (link_lost_event (time_or_zero k.last_accepted_sequence) last_rx_time (now - last_rx_time))
    ∷ update_radio
        (radio_lost k.last_sequence k.last_rssi k.last_snr k.received_packets k.missed_packets)
    ∷ play_ui_sound link_lost
    ∷ []

-- A tick of the watchdog.
abbrev pub tick_since : ℕ → Option ℕ → Link → Link × List Request
tick_since now none k = (k, [])
tick_since now (some last_rx_time) k =
    if ltb ((now - last_rx_time) / 1000) link_loss_timeout_secs
    then (k, [])
    else if k.link_lost_displayed
    then (k, [])
    else (record k { link_lost_displayed = true }, loss_requests now last_rx_time k)

unfoldable pub on_tick : ℕ → Link → Link × List Request
on_tick now k = tick_since now k.last_valid_rx_time k
