-- ===== src/Link/Rejection.antt =====
-- Packets that are rejected (firmware/golfer/src/main.rs, the packet arm of the main loop).
use golfer.Prelude.Int.{ℤ}
use golfer.Prelude.Results.{ok, Result, err}
use golfer.Packet.Codec.{decode, crc32_details}
use golfer.Packet.{TelemetryV1, DecodeError, crc_mismatch}
use golfer.Link.Requests.{
  Request, diag, log_event, log_receiver_packet, update_radio, play_ui_sound, event_app_crc_failed,
  link_reacquired_event, link_lost_event,
}
use golfer.Link.{
  Link, Heard, on_packet, test_expected_sender_system_id, test_expected_survey_id, on_decoded,
  on_sequence, foreign_context, crc_requests,
}
use golfer.Prelude.{
  ℕ, List, All, false, ◌≡◌, Bool, if◌then◌else◌, refl, true, ◌&&◌, ◌==◌, Bool-cases, arith, inl,
  inr, Option, none, some, saturating_add, u32_mod,
}

-- The link after a packet that is rejected, by what its bytes decode to: one counter goes up.
abbrev pub counted : Result DecodeError TelemetryV1 → Link → Link
counted (err crc_mismatch) k = record k { crc_failures = saturating_add u32_mod k.crc_failures 1 }
counted (err e) k = record k {
  invalid_native_packets = saturating_add u32_mod k.invalid_native_packets 1;
}
counted (ok telemetry) k = record k {
  foreign_context_packets = saturating_add u32_mod k.foreign_context_packets 1;
}

-- A request that only reports the rejection of a packet: a diagnostic line, or, for a bad CRC, the
-- event with the CRC of the packet and the one that it should have.
abbrev pub OnlyReports : List ℕ → Request → Type 0
OnlyReports bytes (diag level mono_ms message) = Unit
OnlyReports bytes (log_event mono_ms (event_app_crc_failed count rssi snr stored computed)) =
    (decode bytes ≡ err crc_mismatch) × (crc32_details bytes ≡ some (stored, computed))
OnlyReports bytes (log_event mono_ms (link_reacquired_event seq outage previous)) = ⊥
OnlyReports bytes (log_event mono_ms (link_lost_event seq last age)) = ⊥
OnlyReports bytes (log_receiver_packet mono_ms telemetry rssi snr received missed crc) = ⊥
OnlyReports bytes (update_radio state) = ⊥
OnlyReports bytes (play_ui_sound sound) = ⊥

-- A packet belongs to the survey when it decodes, to a frame of the expected sender and survey.
abbrev pub Belongs : List ℕ → Type 0
Belongs bytes =
    (p : TelemetryV1) × (decode bytes ≡ ok p)
    × (p.sender_system_id ≡ test_expected_sender_system_id)
    × (p.survey_id ≡ test_expected_survey_id)

abbrev Rejected : List ℕ → Result DecodeError TelemetryV1 → Link → Link × List Request → Type 0
Rejected bytes r k out = (out.0 ≡ counted r k) × All (OnlyReports bytes) out.1

foreign :
    (bytes : List ℕ) (h : Heard) (k : Link) (ours : Bool)
    → ours ≡ false
    → Rejected bytes (ok h.telemetry) k (if ours then on_sequence h k else foreign_context h k)
foreign bytes h k true e = cc
foreign bytes h k false e = (refl, (tt, tt))

crc_only :
    (bytes : List ℕ) (now count : ℕ) (rssi snr : ℤ) (details : Option (ℕ × ℕ))
    → decode bytes ≡ err crc_mismatch
    → crc32_details bytes ≡ details
    → All (OnlyReports bytes) (crc_requests now count rssi snr details)
crc_only bytes now count rssi snr none bad e = tt
crc_only bytes now count rssi snr (some (stored, computed)) bad e = (tt, ((bad, e), tt))

on_decoded-Rejected :
    (now : ℕ) (bytes : List ℕ) (r : Result DecodeError TelemetryV1) (rssi snr : ℤ) (k : Link)
    → decode bytes ≡ r
    → ((p : TelemetryV1)
        → r ≡ ok p
        → (p.sender_system_id == test_expected_sender_system_id
            && p.survey_id == test_expected_survey_id)
          ≡ false)
    → Rejected bytes r k (on_decoded now bytes r rssi snr k)
on_decoded-Rejected now bytes (err crc_mismatch) rssi snr k bad h =
    (refl, crc_only bytes now _ rssi snr (crc32_details bytes) bad refl)
on_decoded-Rejected now bytes (err e) rssi snr k bad h = (refl, (tt, tt))
on_decoded-Rejected now bytes (ok p) rssi snr k bad h =
    foreign bytes (record { now = now; telemetry = p; rssi = rssi; snr = snr }) k
      (p.sender_system_id == test_expected_sender_system_id
        && p.survey_id == test_expected_survey_id)
      (h p refl)

both_eq : (a b x y : ℕ) → (a == x && b == y) ≡ true → (a ≡ x) × (b ≡ y)
both_eq a b x y h = ground arith

not_ours : (a b x y : ℕ) → ((a ≡ x) × (b ≡ y) → ⊥) → (a == x && b == y) ≡ false
not_ours a b x y h = elim (Bool-cases (a == x && b == y)) [
  | inl both ↦ absurd (h (both_eq a b x y both))
  | inr other ↦ other
]

-- A packet that does not belong to the survey, whatever its bytes are, moves one counter, that of
-- CRC failures, of invalid packets or of packets of another survey by what the bytes decode to, and
-- changes nothing else of the link; and it asks for nothing but diagnostic lines and, only for a
-- bad CRC, the event that reports it with the two CRC values of the packet: no record in RX.LOG, no
-- change of the display, no sound.
pub on_packet-rejected :
    (now : ℕ) (bytes : List ℕ) (rssi snr : ℤ) (k : Link)
    → ¬ Belongs bytes
    → ((on_packet now bytes rssi snr k).0 ≡ counted (decode bytes) k)
      × All (OnlyReports bytes) (on_packet now bytes rssi snr k).1
unfolding on_packet
on_packet-rejected now bytes rssi snr k h =
    on_decoded-Rejected now bytes (decode bytes) rssi snr k refl (λ p e.
      not_ours p.sender_system_id p.survey_id test_expected_sender_system_id test_expected_survey_id
        (λ both. h (p, e, both.0, both.1)))
