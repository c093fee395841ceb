-- ===== src/Link/Trace.antt =====
-- The main loop of firmware/golfer/src/main.rs over any sequence of packets and watchdog ticks: the
-- candidate on probation, and what the display shows of the link.
use golfer.Prelude.Int.{ℤ}
use golfer.Prelude.Results.{Result, ok, err}
use golfer.Packet.{TelemetryV1, DecodeError, crc_mismatch}
use golfer.Packet.Codec.{decode, crc32_details}
use golfer.Display.{RadioDisplayState, RadioLinkState, connected, lost, radio_waiting}
use golfer.Link.Requests.{
  Request, diag, log_event, log_receiver_packet, update_radio, play_ui_sound,
}
use golfer.Link.{
  Link, Heard, Verdict, ignored, accepted, accept, announce, settle, judge, on_sequence,
  on_telemetry, on_decoded, on_packet, on_tick, crc_requests, reacquired, listening,
  test_expected_sender_system_id, test_expected_survey_id, loss_requests,
}
use golfer.Link.Watchdog.{on_tick-cases, lost as lost_link}
use golfer.Prelude.{
  ℕ, ◌≡◌, refl, sym, subst, inl, inr, Bool, true, false, ◌&&◌, Option, none, some, List, [], ◌∷◌,
  ◌++◌, All, ◌==◌, if◌then◌else◌, if-both,
}
use golfer.Link.Judged.{Candidate, IsDiag, Judged, judge-Judged}

-- A turn of the main loop.
pub data Input : Type 0 where
  packet : (now : ℕ) (bytes : List ℕ) (rssi snr : ℤ) → Input
  tick : (now : ℕ) → Input

unfoldable pub step : Input → Link → Link × List Request
unfolding on_packet on_tick
step (packet now bytes rssi snr) k = on_packet now bytes rssi snr k
step (tick now) k = on_tick now k

-- The radio state that the display was given last.
abbrev shown : List Request → RadioDisplayState → RadioDisplayState
shown [] d = d
shown (diag level now message ∷ rest) d = shown rest d
shown (log_event now event ∷ rest) d = shown rest d
shown (log_receiver_packet now telemetry rssi snr received missed crc ∷ rest) d = shown rest d
shown (update_radio state ∷ rest) d = shown rest state
shown (play_ui_sound sound ∷ rest) d = shown rest d

unfoldable pub run : List Input → Link × RadioDisplayState → Link × RadioDisplayState
run [] (k, d) = (k, d)
run (i ∷ rest) (k, d) = run rest ((step i k).0, shown (step i k).1 d)

abbrev link_shown : Bool → RadioLinkState
link_shown true = lost
link_shown false = connected

-- What the bookkeeping has to say to the display.
pub record View : Type 0 where
  pub marked : Bool
  pub trusted : Option ℕ
  pub accepted : Option ℕ
  pub rssi : Option ℤ
  pub snr : Option ℤ
  pub received : ℕ
  pub missed : ℕ

abbrev view : Link → View
view k = record {
  marked = k.link_lost_displayed;
  trusted = k.last_sequence;
  accepted = k.last_accepted_sequence;
  rssi = k.last_rssi;
  snr = k.last_snr;
  received = k.received_packets;
  missed = k.missed_packets;
}

-- What the display shows, by whether a packet was accepted yet.
abbrev Shows : Option ℕ → View → RadioDisplayState → Type 0
Shows none w d = (d ≡ radio_waiting) × (w.marked ≡ false)
Shows (some time) w d =
    (d.link ≡ link_shown w.marked)
    × (d.sequence ≡ (if w.marked then w.trusted else w.accepted))
    × (d.rssi ≡ w.rssi)
    × (d.snr ≡ w.snr)
    × (d.received ≡ w.received)
    × (d.missed ≡ w.missed)

pub record Faithful (s : Link × RadioDisplayState) : Type 0 where
  pub candidate : Candidate s.0.last_sequence s.0.pending_sequence_candidate
  pub shows : Shows s.0.last_valid_rx_time (view s.0) s.1

shown-IsDiag :
    (rs later : List Request) (d : RadioDisplayState)
    → All IsDiag rs
    → shown (rs ++ later) d ≡ shown later d
shown-IsDiag [] later d h = refl
shown-IsDiag (diag level now message ∷ rs) later d h = shown-IsDiag rs later d h.1
shown-IsDiag (log_event now event ∷ rs) later d h = absurd (h.0)
shown-IsDiag (log_receiver_packet n t r s a b c ∷ rs) later d h = absurd (h.0)
shown-IsDiag (update_radio state ∷ rs) later d h = absurd (h.0)
shown-IsDiag (play_ui_sound sound ∷ rs) later d h = absurd (h.0)

shown-only : (rs : List Request) (d : RadioDisplayState) → All IsDiag rs → shown rs d ≡ d
shown-only [] d h = refl
shown-only (diag level now message ∷ rs) d h = shown-only rs d h.1
shown-only (log_event now event ∷ rs) d h = absurd (h.0)
shown-only (log_receiver_packet n t r s a b c ∷ rs) d h = absurd (h.0)
shown-only (update_radio state ∷ rs) d h = absurd (h.0)
shown-only (play_ui_sound sound ∷ rs) d h = absurd (h.0)

abbrev after : Link × List Request → RadioDisplayState → Link × RadioDisplayState
after r d = (r.0, shown r.1 d)

reacquired-shown : (h : Heard) (k : Link) (d : RadioDisplayState) → shown (reacquired h k) d ≡ d
reacquired-shown h k d =
    if-both (λ (rs : List Request). shown rs d ≡ d) k.link_lost_displayed refl refl

-- An accepted packet.
accepted-Faithful :
    (trust : Bool) (h : Heard) (k : Link) (rs : List Request) (d : RadioDisplayState)
    → Candidate (accept trust h k).last_sequence (accept trust h k).pending_sequence_candidate
    → (accept trust h k).received_packets ≡ (accept true h k).received_packets
    → (accept trust h k).missed_packets ≡ k.missed_packets
    → All IsDiag rs
    → Faithful (accept trust h k, shown (rs ++ announce h k) d)
accepted-Faithful trust h k rs d c e m only =
    rw (shown-IsDiag rs (announce h k) d only, reacquired-shown h k)
      (record { candidate = c; shows = (refl, refl, refl, refl, sym e, sym m) })

settle-Faithful :
    (h : Heard) (k : Link) (d : RadioDisplayState) (out : Link × Verdict × List Request)
    → Faithful (k, d)
    → Judged h k out
    → Faithful (after (settle h out) d)
settle-Faithful h k d (k', ignored, rs) v (inl e, only) = rw (shown-only rs d only, e) v
settle-Faithful h k d (k', ignored, rs) v (inr e, only) =
    rw (shown-only rs d only, e) (record { candidate = tt; shows = v.shows })
settle-Faithful h k d (k', accepted true, rs) v (free, only) =
    accepted-Faithful true h k' rs d (rw free tt) refl refl only
settle-Faithful h k d (k', accepted false, rs) v (c, only) =
    accepted-Faithful false h k' rs d c refl refl only

on_sequence-Faithful :
    (h : Heard) (k : Link) (d : RadioDisplayState)
    → Faithful (k, d)
    → Faithful (after (on_sequence h k) d)
unfolding on_sequence
on_sequence-Faithful h k d v =
    settle-Faithful h k d (judge h k.last_sequence k) v
      (judge-Judged h k.last_sequence k refl v.candidate)

on_telemetry-Faithful :
    (h : Heard) (k : Link) (d : RadioDisplayState)
    → Faithful (k, d)
    → Faithful (after (on_telemetry h k) d)
on_telemetry-Faithful h k d v =
    if-both (λ (r : Link × List Request). Faithful (after r d))
      (h.telemetry.sender_system_id == test_expected_sender_system_id
        && h.telemetry.survey_id == test_expected_survey_id)
      (on_sequence-Faithful h k d v) (record { candidate = v.candidate; shows = v.shows })

crc_requests-shown :
    (now count : ℕ) (rssi snr : ℤ) (details : Option (ℕ × ℕ)) (d : RadioDisplayState)
    → shown (crc_requests now count rssi snr details) d ≡ d
crc_requests-shown now count rssi snr none d = refl
crc_requests-shown now count rssi snr (some (stored, computed)) d = refl

on_decoded-Faithful :
    (now : ℕ) (bytes : List ℕ) (r : Result DecodeError TelemetryV1) (rssi snr : ℤ) (k : Link)
    (d : RadioDisplayState)
    → Faithful (k, d)
    → Faithful (after (on_decoded now bytes r rssi snr k) d)
on_decoded-Faithful now bytes (err crc_mismatch) rssi snr k d v =
    rw (crc_requests-shown now _ rssi snr (crc32_details bytes) d)
      (record { candidate = v.candidate; shows = v.shows })
on_decoded-Faithful now bytes (err e) rssi snr k d v = record {
  candidate = v.candidate;
  shows = v.shows;
}
on_decoded-Faithful now bytes (ok p) rssi snr k d v =
    on_telemetry-Faithful (record { now = now; telemetry = p; rssi = rssi; snr = snr }) k d v

on_tick-Faithful :
    (now : ℕ) (k : Link) (d : RadioDisplayState)
    → Faithful (k, d)
    → Faithful (after (on_tick now k) d)
on_tick-Faithful now k d v = elim (on_tick-cases now k) [
  | inl quiet ↦ rw quiet v
  | inr (marked, (last, e, old, asked)) ↦
      rw (marked, asked)
        (record {
          candidate = v.candidate;
          shows =
              subst
                (λ (o : Option ℕ).
                  Shows o (view (lost_link k)) (shown (loss_requests now last k) d))
                (sym e) (refl, refl, refl, refl, refl, refl);
        })
]

step-Faithful :
    (i : Input) (k : Link) (d : RadioDisplayState) → Faithful (k, d) → Faithful (after (step i k) d)
step-Faithful (packet now bytes rssi snr) k d v =
    unfold step on_packet in on_decoded-Faithful now bytes (decode bytes) rssi snr k d v
step-Faithful (tick now) k d v = unfold step in on_tick-Faithful now k d v

run-Faithful :
    (is : List Input) (k : Link) (d : RadioDisplayState)
    → Faithful (k, d)
    → Faithful (run is (k, d))
unfolding run
run-Faithful [] k d v = v
run-Faithful (i ∷ rest) k d v =
    run-Faithful rest (step i k).0 (shown (step i k).1 d) (step-Faithful i k d v)

-- Whatever packets arrive and however the ticks fall between them, after power on: the display is
-- in its waiting state until a packet is accepted; from then on it shows the counts of received and
-- missed packets and the signal values of the bookkeeping, and it says that the link is lost exactly
-- when the loss is marked, with the trusted sequence number then and the accepted one otherwise; and
-- a candidate on probation always lies beyond the trusted sequence number.
pub run-listening-Faithful : (is : List Input) → Faithful (run is (listening, radio_waiting))
run-listening-Faithful is =
    run-Faithful is listening radio_waiting (record { candidate = tt; shows = (refl, refl) })
