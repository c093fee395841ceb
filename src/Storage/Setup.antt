-- ===== src/Storage/Setup.antt =====
-- The set-up of the storage on the card, firmware/golfer/src/storage.rs: the system log, and the
-- directory and the files of a survey's boot session. The handles of embedded-sdmmc are parameters,
-- as are its operations, `FileSystem`.
pub mod Handles
mod CounterHandles
mod SessionHandles
mod SystemLog
mod Tests
use golfer.Prelude.{
  ℕ, Bool, true, false, Option, none, some, List, [], ◌∷◌, ◌++◌, if◌then◌else◌, length, leb,
}
use golfer.Prelude.Text.{codes}
use golfer.Prelude.Format.{decimal_text, hex_upper}
use golfer.System.{SystemInfo}
use golfer.Storage.RecordLines.{written}
use golfer.Storage.Session.{SurveyDirectory, allocate_boot_session, boot_session_directory_name}

pub data Mode : Type 0 where
  read_write_append read_write_create : Mode

-- Each operation leaves the card with an outcome. `W`, `D` and `F` are the handles of a volume, a
-- directory and a file; `exists` is the loop over a directory that looks for a name, and `directory`
-- has the operations that the allocation of a session uses there.
pub record FileSystem (V W D F : Type 0) : Type 0 where
  pub open_raw_volume : V → V × Option W
  pub open_root_dir : V → W → V × Option D
  pub open_dir : V → D → List ℕ → V × Option D
  pub make_dir_in_dir : V → D → List ℕ → V × Bool
  pub exists : V → D → List ℕ → Option Bool
  pub open_file_in_dir : V → D → List ℕ → Mode → V × Option F
  pub write : V → F → List ℕ → V × Bool
  pub flush_file : V → F → V × Bool
  pub close_file : V → F → V × Bool
  pub close_dir : V → D → V × Bool
  pub close_volume : V → W → V × Bool
  pub directory : D → SurveyDirectory V

pub record Session (D F : Type 0) : Type 0 where
  pub session_dir : D
  pub rx_file : F
  pub local_file : F
  pub event_file : F
  pub session_number : ℕ
  pub debug_file : Option F

-- What follows an operation, for each outcome.
abbrev pub on_some : {V A R : Type 0} → V × Option A → (V → A → R) → (V → R) → R
on_some (v, some a) opened failed = opened v a
on_some (v, none) opened failed = failed v

abbrev pub on_ok : {V R : Type 0} → V × Bool → (V → R) → (V → R) → R
on_ok (v, true) done failed = done v
on_ok (v, false) done failed = failed v

abbrev mode_for : Bool → Mode
mode_for already_exists = if already_exists then read_write_append else read_write_create

-- The text of META.TXT.
abbrev metadata : ℕ → SystemInfo → ℕ → List ℕ → ℕ → Option (List ℕ)
metadata survey_id info session session_name start_mono_ms =
    written 512
      (codes "LOG_SCHEMA=3\r\nIMPLEMENTATION_STAGE=V2B2\r\nSURVEY_ID="
        ∷ hex_upper 8 survey_id
        ∷ codes "\r\nSYSTEM_ID="
        ∷ hex_upper 16 info.system_id.value
        ∷ codes "\r\nBOOT_SESSION="
        ∷ decimal_text session
        ∷ codes "\r\nSESSION_DIR="
        ∷ session_name
        ∷ codes "\r\nFIRMWARE="
        ∷ info.firmware_version.value
        ∷ codes "\r\nRF_PROTOCOL="
        ∷ decimal_text info.protocol_version.value
        ∷ codes "\r\nCONFIG_SCHEMA="
        ∷ decimal_text info.config_version.value
        ∷ codes "\r\nSTART_MONO_MS="
        ∷ decimal_text start_mono_ms
        ∷ codes
            "\r\nTIME_MODEL=MONOTONIC_PLUS_GPS_UTC_ANCHOR\r\nLOCAL_SAMPLE_HZ=1\r\nRX_PACKET_FORMAT=TELEMETRY_V1\r\n"
        ∷ [])
      []

module _ {V W D F : Type 0} (fs : FileSystem V W D F) where
  -- `let _ = volume_manager.close_...`
  abbrev pub file_closed : F → V → V
  file_closed file v = (fs.close_file v file).0

  abbrev pub dir_closed : D → V → V
  dir_closed dir v = (fs.close_dir v dir).0

  abbrev pub volume_closed : W → V → V
  volume_closed volume v = (fs.close_volume v volume).0

  abbrev pub without_root : W → D → V → V × Bool
  without_root volume root v = (volume_closed volume (dir_closed root v), false)

  abbrev pub without_log : W → D → F → V → V × Bool
  without_log volume root file v = without_root volume root (file_closed file v)

  abbrev pub log_closed : W → D → F → V → V × Bool
  log_closed volume root file v =
      on_ok (fs.close_file v file)
        (λ v.
          on_ok (fs.close_dir v root)
            (λ v. on_ok (fs.close_volume v volume) (λ v. (v, true)) (λ v. (v, false)))
            (λ v. (volume_closed volume v, false)))
        (without_root volume root)

  abbrev pub startup_written : W → D → F → V → V × Bool
  startup_written volume root file v =
      on_ok (fs.write v file (codes "SYSTEM STARTUP\r\n"))
        (λ v.
          on_ok (fs.flush_file v file) (log_closed volume root file) (without_log volume root file))
        (without_log volume root file)

  abbrev pub log_opened : W → D → Bool → F → V → V × Bool
  log_opened volume root true file v = startup_written volume root file v
  log_opened volume root false file v =
      on_ok (fs.write v file (codes "Hello GOLFER!\r\n")) (startup_written volume root file)
        (without_log volume root file)

  abbrev pub log_looked_up : W → D → Option Bool → V → V × Bool
  log_looked_up volume root none v = without_root volume root v
  log_looked_up volume root (some already_exists) v =
      on_some (fs.open_file_in_dir v root (codes "SYS_LOG.TXT") (mode_for already_exists))
        (λ v file. log_opened volume root already_exists file v) (without_root volume root)

  unfoldable pub initialize_system_log : V → V × Bool
  initialize_system_log v =
      on_some (fs.open_raw_volume v)
        (λ v volume.
          on_some (fs.open_root_dir v volume)
            (λ v root. log_looked_up volume root (fs.exists v root (codes "SYS_LOG.TXT")) v)
            (λ v. (volume_closed volume v, false)))
        (λ v. (v, false))

  abbrev pub append_looked_up : D → List ℕ → Option Bool → V → V × Option F
  append_looked_up dir filename none v = (v, none)
  append_looked_up dir filename (some already_exists) v =
      fs.open_file_in_dir v dir filename (mode_for already_exists)

  abbrev pub open_or_create_append_file : D → List ℕ → V → V × Option F
  open_or_create_append_file dir filename v =
      append_looked_up dir filename (fs.exists v dir filename) v

  abbrev pub ensure_directory : D → List ℕ → V → V × Option D
  ensure_directory parent name v =
      on_some (fs.open_dir v parent name) (λ v dir. (v, some dir))
        (λ v.
          on_ok (fs.make_dir_in_dir v parent name) (λ v. fs.open_dir v parent name)
            (λ v. (v, none)))

  abbrev pub metadata_written : F → Option (List ℕ) → V → V × Bool
  metadata_written file none v = (file_closed file v, false)
  metadata_written file (some text) v =
      on_ok (fs.write v file text)
        (λ v.
          on_ok (fs.flush_file v file) (λ v. fs.close_file v file)
            (λ v. (file_closed file v, false)))
        (λ v. (file_closed file v, false))

  abbrev pub metadata_named : ℕ → ℕ → SystemInfo → ℕ → F → Option (List ℕ) → V → V × Bool
  metadata_named survey_id session info start_mono_ms file none v = (file_closed file v, false)
  metadata_named survey_id session info start_mono_ms file (some name) v =
      metadata_written file (metadata survey_id info session name start_mono_ms) v

  unfoldable pub create_metadata_file : D → ℕ → ℕ → SystemInfo → ℕ → V → V × Bool
  create_metadata_file dir survey_id session info start_mono_ms v =
      on_some (fs.open_file_in_dir v dir (codes "META.TXT") read_write_create)
        (λ v file.
          metadata_named survey_id session info start_mono_ms file
            (boot_session_directory_name session) v)
        (λ v. (v, false))

  abbrev pub global_opened : D → V × Option F → V × Option (D × F)
  global_opened root (v, some file) = (v, some (root, file))
  global_opened root (v, none) = (dir_closed root v, none)

  unfoldable pub initialize_global_debug_log : W → V → V × Option (D × F)
  initialize_global_debug_log volume v =
      on_some (fs.open_root_dir v volume)
        (λ v root. global_opened root (open_or_create_append_file root (codes "DEBUG.LOG") v))
        (λ v. (v, none))

  -- `return None` with the directory closed, and the files that are open.
  abbrev pub without_dir : D → V → V × Option (Session D F)
  without_dir dir v = (dir_closed dir v, none)

  abbrev pub without_local : D → F → V → V × Option (Session D F)
  without_local dir local v = without_dir dir (file_closed local v)

  abbrev pub without_event : D → F → F → V → V × Option (Session D F)
  without_event dir local event v = without_local dir local (file_closed event v)

  -- DEBUG.LOG is optional.
  abbrev pub with_debug : D → F → F → F → ℕ → V × Option F → V × Option (Session D F)
  with_debug dir local event rx session (v, debug) = (
    v,
    some (record {
      session_dir = dir;
      rx_file = rx;
      local_file = local;
      event_file = event;
      session_number = session;
      debug_file = debug;
    }),
  )

  abbrev pub session_files : ℕ → ℕ → SystemInfo → ℕ → D → V → V × Option (Session D F)
  session_files survey_id session info start_mono_ms dir v =
      on_some (open_or_create_append_file dir (codes "LOCAL.LOG") v)
        (λ v local.
          on_some (open_or_create_append_file dir (codes "EVENT.LOG") v)
            (λ v event.
              on_ok (create_metadata_file dir survey_id session info start_mono_ms v)
                (λ v.
                  on_some (fs.open_file_in_dir v dir (codes "RX.LOG") read_write_create)
                    (λ v rx.
                      with_debug dir local event rx session
                        (open_or_create_append_file dir (codes "DEBUG.LOG") v))
                    (without_event dir local event))
                (without_event dir local event))
            (without_local dir local))
        (without_dir dir)

  abbrev pub session_named :
      ℕ → ℕ → SystemInfo → ℕ → D → Option (List ℕ) → V → V × Option (Session D F)
  session_named survey_id session info start_mono_ms survey_dir none v = without_dir survey_dir v
  session_named survey_id session info start_mono_ms survey_dir (some name) v =
      on_ok (fs.make_dir_in_dir v survey_dir name)
        (λ v.
          on_some (fs.open_dir v survey_dir name)
            (λ v dir.
              session_files survey_id session info start_mono_ms dir (dir_closed survey_dir v))
            (without_dir survey_dir))
        (without_dir survey_dir)

  abbrev pub session_in : ℕ → SystemInfo → ℕ → D → V → V × Option (Session D F)
  session_in survey_id info start_mono_ms survey_dir v =
      on_some (allocate_boot_session (fs.directory survey_dir) v)
        (λ v session.
          session_named survey_id session info start_mono_ms survey_dir
            (boot_session_directory_name session) v)
        (without_dir survey_dir)

  unfoldable pub initialize_survey_session : W → ℕ → SystemInfo → ℕ → V → V × Option (Session D F)
  initialize_survey_session volume survey_id info start_mono_ms v =
      on_some (fs.open_root_dir v volume)
        (λ v root.
          on_some (ensure_directory root (codes "SURVEY") v)
            (λ v survey_root.
              on_some (ensure_directory survey_root (hex_upper 8 survey_id) (dir_closed root v))
                (λ v survey_dir.
                  session_in survey_id info start_mono_ms survey_dir (dir_closed survey_root v))
                (without_dir survey_root))
            (without_dir root))
        (λ v. (v, none))
