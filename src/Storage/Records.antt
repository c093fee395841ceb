-- ===== src/Storage/Records.antt =====
-- The records of a survey, firmware/golfer/src/storage.rs: the lines of EVENT.LOG, LOCAL.LOG and
-- RX.LOG and the functions that append them. The volume manager of embedded-sdmmc with the open files
-- is a parameter, and the time that an operation took is an argument.
pub mod Capacity
pub mod Checkpoint
pub mod Durable
mod Tests
use golfer.Prelude.{
  ℕ, ◌+◌, ◌%◌, Bool, true, false, Option, none, some, List, [], ◌∷◌, ◌++◌, length, leb, ◌==◌,
  if◌then◌else◌, ◌>>=◌, saturating_add, u32_mod,
}
use golfer.Prelude.Int.{ℤ}
use golfer.Prelude.Text.{codes}
use golfer.Prelude.Format.{decimal_text, signed_text, hex_upper}
use golfer.Gps.State.{GpsState}
use golfer.Packet.{TelemetryV1, fix_class_bits}
use golfer.Storage.{PersistentLogLevel, error, warn, info, debug, trace}
use golfer.Storage.Diagnostics.{
  UtcAnchor, utc_for_mono_ms, DebugFile, Diagnostics, diag, flush_debug_buffer,
}
use golfer.Storage.RecordLines.{LocalSample, Reception, event_line, local_line, rx_line}

-- The files of a session that are open.
pub data LogFile : Type 0 where
  rx_log local_log event_log debug_log : LogFile

-- Each operation leaves the volume with an outcome, true for `Ok`.
pub record VolumeManager (V : Type 0) : Type 0 where
  pub write : V → LogFile → List ℕ → V × Bool
  pub flush_file : V → LogFile → V × Bool

-- The part of `Storage` that the records use, with the volume in that of the diagnostics;
-- `survey_logging_active` says that the mode is `StorageMode::Survey`.
pub record Recording (V : Type 0) : Type 0 where
  pub survey_logging_active : Bool
  pub diagnostics : Diagnostics V
  pub local_records_written : ℕ
  pub utc_anchor : Option UtcAnchor

pub record TelemetryWriteStats : Type 0 where
  pub append_us : ℕ
  pub checkpoint_us : Option ℕ
  pub total_us : ℕ

abbrev pub label : PersistentLogLevel → List ℕ
label error = codes "ERROR"
label warn = codes "WARN"
label info = codes "INFO"
label debug = codes "DEBUG"
label trace = codes "TRACE"

-- The envelope of a diagnostic line.
abbrev pub envelope : Option ℕ → ℕ → PersistentLogLevel → List ℕ → List ℕ → List ℕ
envelope (some utc) uptime_ms level originator event_id =
    decimal_text utc
    ++ (codes " GPS "
        ++ (decimal_text uptime_ms
            ++ (codes " "
                ++ (label level ++ (codes " " ++ (originator ++ (codes " " ++ event_id)))))))
envelope none uptime_ms level originator event_id =
    codes "NA UNKNOWN "
    ++ (decimal_text uptime_ms
        ++ (codes " " ++ (label level ++ (codes " " ++ (originator ++ (codes " " ++ event_id))))))

module _ {V : Type 0} (volume_manager : VolumeManager V) where
  abbrev pub debug_of : DebugFile V
  debug_of = record {
    write = λ v bytes. volume_manager.write v debug_log bytes;
    flush = λ v. volume_manager.flush_file v debug_log;
  }

  abbrev pub recorded : PersistentLogLevel → ℕ → List ℕ → List ℕ → Recording V → Recording V
  recorded level uptime_ms event_id message r = record r {
    diagnostics =
        diag debug_of level
          (envelope (utc_for_mono_ms r.utc_anchor uptime_ms) uptime_ms level (codes "STORAGE")
            event_id)
          message r.diagnostics;
  }

  abbrev pub on_volume : V → Recording V → Recording V
  on_volume v r = record r { diagnostics = record r.diagnostics { volume = v } }

  -- `us={} bytes={}` of an append.
  abbrev pub append_message : ℕ → List ℕ → List ℕ
  append_message us line =
      codes "us=" ++ (decimal_text us ++ (codes " bytes=" ++ decimal_text (length line)))

  abbrev event_written : V × Bool → Recording V → Recording V × Bool
  event_written (v, done) r = (on_volume v r, done)

  abbrev event_appended : Option (List ℕ) → Recording V → Recording V × Bool
  event_appended none r = (r, false)
  event_appended (some line) r =
      event_written (volume_manager.write r.diagnostics.volume event_log line) r

  unfoldable pub log_event : ℕ → List ℕ → GpsState → List ℕ → Recording V → Recording V × Bool
  log_event mono_ms event_id gps details r =
      if r.survey_logging_active
      then event_appended
          (event_line mono_ms (utc_for_mono_ms r.utc_anchor mono_ms) event_id gps details) r
      else (r, false)

  abbrev pub and_flush : LogFile → V × Bool → V × Bool
  and_flush file (v, true) = volume_manager.flush_file v file
  and_flush file (v, false) = ((volume_manager.flush_file v file).0, false)

  -- The three flushes, whatever the others come to.
  abbrev pub flush_all : V → V × Bool
  flush_all v = and_flush event_log (and_flush rx_log (volume_manager.flush_file v local_log))

  abbrev pub checkpoint_noted : Bool → ℕ → ℕ → Recording V → Recording V
  checkpoint_noted true mono_ms us r =
      recorded debug mono_ms (codes "SURVEY_CHECKPOINT") (codes "us=" ++ decimal_text us) r
  checkpoint_noted false mono_ms us r =
      recorded error mono_ms (codes "SURVEY_CHECKPOINT_FAILED") (codes "us=" ++ decimal_text us) r

  abbrev pub checkpointed : V × Bool → ℕ → ℕ → Recording V → Recording V
  checkpointed (v, done) mono_ms us r =
      let on = on_volume v r in
      checkpoint_noted done mono_ms us
        (record on { diagnostics = flush_debug_buffer debug_of true on.diagnostics })

  abbrev pub checkpoint : ℕ → ℕ → Recording V → Recording V
  checkpoint mono_ms us r = checkpointed (flush_all r.diagnostics.volume) mono_ms us r

  abbrev pub counted : ℕ → ℕ → ℕ → List ℕ → Recording V → Recording V
  counted mono_ms append_us checkpoint_us line r =
      let counted_once = record r {
        local_records_written = saturating_add u32_mod r.local_records_written 1;
      } in
      let noted =
        recorded trace mono_ms (codes "LOCAL_APPEND") (append_message append_us line)
          counted_once in
      if noted.local_records_written % 10 == 0
      then checkpoint mono_ms checkpoint_us noted
      else noted

  abbrev pub local_written : ℕ → ℕ → ℕ → List ℕ → V × Bool → Recording V → Recording V × Bool
  local_written mono_ms append_us checkpoint_us line (v, true) r =
      (counted mono_ms append_us checkpoint_us line (on_volume v r), true)
  local_written mono_ms append_us checkpoint_us line (v, false) r = (on_volume v r, false)

  abbrev pub local_appended : ℕ → ℕ → ℕ → Option (List ℕ) → Recording V → Recording V × Bool
  local_appended mono_ms append_us checkpoint_us none r = (r, false)
  local_appended mono_ms append_us checkpoint_us (some line) r =
      local_written mono_ms append_us checkpoint_us line
        (volume_manager.write r.diagnostics.volume local_log line) r

  -- With the time that the append took, and the checkpoint.
  unfoldable pub log_local_sample : ℕ → ℕ → LocalSample → Recording V → Recording V × Bool
  log_local_sample append_us checkpoint_us sample r =
      if r.survey_logging_active
      then local_appended sample.mono_ms append_us checkpoint_us
          (local_line (utc_for_mono_ms r.utc_anchor sample.mono_ms) sample) r
      else (r, false)

  abbrev rx_written :
      ℕ → ℕ → List ℕ → V × Bool → Recording V → Recording V × Option TelemetryWriteStats
  rx_written mono_ms append_us line (v, true) r = (
    recorded trace mono_ms (codes "RX_APPEND") (append_message append_us line) (on_volume v r),
    some (record { append_us = append_us; checkpoint_us = none; total_us = append_us }),
  )
  rx_written mono_ms append_us line (v, false) r =
      (recorded error mono_ms (codes "RX_APPEND_FAILED") [] (on_volume v r), none)

  abbrev rx_appended :
      ℕ → ℕ → Option (List ℕ) → Recording V → Recording V × Option TelemetryWriteStats
  rx_appended mono_ms append_us none r = (r, none)
  rx_appended mono_ms append_us (some line) r =
      rx_written mono_ms append_us line (volume_manager.write r.diagnostics.volume rx_log line) r

  -- With the time that the append took.
  unfoldable pub log_receiver_packet :
      ℕ → Reception → Recording V → Recording V × Option TelemetryWriteStats
  log_receiver_packet append_us rx r =
      if r.survey_logging_active
      then rx_appended rx.mono_ms append_us (rx_line (utc_for_mono_ms r.utc_anchor rx.mono_ms) rx) r
      else (r, none)
