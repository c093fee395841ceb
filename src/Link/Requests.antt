-- ===== src/Link/Requests.antt =====
-- What the main loop of firmware/golfer/src/main.rs asks of the storage, the display and the audio
-- task while it handles packets and ticks. A request to the storage is dropped when there is no
-- storage; the text of a log line is its arguments.
use golfer.Prelude.{ℕ}
use golfer.Prelude.Int.{ℤ}
use golfer.Packet.{TelemetryV1, DecodeError}
use golfer.Storage.{PersistentLogLevel}
use golfer.Display.{RadioDisplayState}
use golfer.Audio.{UiSound}

-- The messages of `storage.diag`, by their event id.
pub data Diag : Type 0 where
  app_crc_failed : (count : ℕ) (rssi snr : ℤ) (stored_crc computed_crc : ℕ) → Diag
  native_packet_rejected : (len : ℕ) (error : DecodeError) (count : ℕ) (rssi snr : ℤ) → Diag
  survey_context_rejected : (sender survey seq mode count : ℕ) → Diag
  seq_candidate_duplicate : (seq : ℕ) (rssi snr : ℤ) → Diag
  seq_resync_confirmed : (prev candidate current missed : ℕ) → Diag
  seq_candidate_not_confirmed : (candidate next trusted_prev : ℕ) → Diag
  seq_suspicious :
      (prev current gap elapsed_ms expected max_gap sender survey mode : ℕ) (rssi snr : ℤ) → Diag
  seq_reset : (prev current : ℕ) → Diag
  seq_backward : (prev current : ℕ) (rssi snr : ℤ) → Diag

-- The records of EVENT.LOG, by their event id.
pub data Event : Type 0 where
  event_app_crc_failed : (count : ℕ) (rssi snr : ℤ) (stored_crc computed_crc : ℕ) → Event
  link_reacquired_event : (seq outage_ms prev_last_rx_mono_ms : ℕ) → Event
  link_lost_event : (last_seq last_rx_mono_ms age_ms : ℕ) → Event

pub data Request : Type 0 where
  diag : PersistentLogLevel → (mono_ms : ℕ) → Diag → Request
  log_event : (mono_ms : ℕ) → Event → Request
  log_receiver_packet :
      (mono_ms : ℕ) (telemetry : TelemetryV1) (rssi snr : ℤ) (received missed crc_failures : ℕ)
      → Request
  update_radio : RadioDisplayState → Request
  play_ui_sound : UiSound → Request
