-- ===== src/Storage/Setup/Tests.antt =====
-- The set-up of the storage on a card that has room for some number of handles.
use golfer.Prelude.{
  ℕ, ◌+◌, ◌-◌, ◌≡◌, refl, Bool, true, false, Option, none, some, [], ltb, if◌then◌else◌, if-both,
}
use golfer.Prelude.Text.{codes}
use golfer.Prelude.Format.{digits_within}
use golfer.System.{SystemInfo, read_only}
use golfer.Storage.Session.{
  SurveyDirectory, allocate_boot_session, choose_session, boot_session_directory_name,
  write_boot_session_counter, boot_session_directory_exists, find_highest_boot_session,
  read_boot_session_counter,
}
use golfer.Storage.Setup.{
  FileSystem, initialize_system_log, initialize_survey_session, create_metadata_file,
}
use golfer.Storage.Setup.Handles.{CountsHandles, opened_count}
use golfer.Storage.Setup.SessionHandles.{Keeps, initialize_survey_session-Keeps}

-- The state of the card is the number of its handles that are open.
module _ (room : ℕ) where
  abbrev opening : ℕ → ℕ × Option (Unit {0})
  opening v = if ltb v room then (v + 1, some tt) else (v, none)

  abbrev counter : SurveyDirectory ℕ
  counter = record {
    open_read = λ v. (v, false);
    read = λ v n. (v, none);
    open_truncated = λ v. if ltb v room then (v + 1, true) else (v, false);
    write = λ v bytes. (v, true);
    flush = λ v. (v, true);
    close = λ v. (v - 1, true);
    open_dir = λ v name. (v, false);
    close_dir = λ v. (v - 1, true);
    iterate_dir = λ v. some [];
  }

  abbrev limited : FileSystem ℕ (Unit {0}) (Unit {0}) (Unit {0})
  limited = record {
    open_raw_volume = λ v. opening v;
    open_root_dir = λ v volume. opening v;
    open_dir = λ v dir name. opening v;
    make_dir_in_dir = λ v dir name. (v, true);
    exists = λ v dir name. some false;
    open_file_in_dir = λ v dir name mode. opening v;
    write = λ v file bytes. (v, true);
    flush_file = λ v file. (v, true);
    close_file = λ v file. (v - 1, true);
    close_dir = λ v dir. (v - 1, true);
    close_volume = λ v volume. (v - 1, true);
    directory = λ dir. counter;
  }

  opening-count : (v : ℕ) → (opening v).0 ≡ opened_count (λ u. 1) v (opening v).1
  opening-count v =
      if-both (λ (w : ℕ × Option (Unit {0})). w.0 ≡ opened_count (λ u. 1) v w.1) (ltb v room)
        {x = (v + 1, some tt)} {y = (v, none)} refl refl

  limited-CountsHandles : CountsHandles limited (λ h. 1) (λ v. v)
  limited-CountsHandles = record {
    by_open_raw_volume = λ v. opening-count v;
    by_open_root_dir = λ v volume. opening-count v;
    by_open_dir = λ v dir name. opening-count v;
    by_open_file = λ v dir name mode. opening-count v;
    by_make_dir = λ v dir name. refl;
    by_write = λ v file bytes. refl;
    by_flush = λ v file. refl;
    by_close_file = λ v file. refl;
    by_close_dir = λ v dir. refl;
    by_close_volume = λ v volume. refl;
    by_open_truncated = λ v dir.
        if-both (λ (w : ℕ × Bool). w.0 ≡ (if w.1 then v + 1 else v)) (ltb v room)
          {x = (v + 1, true)} {y = (v, false)} refl refl;
    by_open_read = λ v dir. refl;
    by_counter_read = λ v dir n. refl;
    by_open_session_dir = λ v dir name. refl;
    by_close_session_dir = λ v dir. refl;
    by_counter_write = λ v dir bytes. refl;
    by_counter_flush = λ v dir. refl;
    by_counter_close = λ v dir. refl;
  }

abbrev info : SystemInfo
info = record {
  system_id = record { value = 0x12; access = read_only };
  firmware_version = record { value = codes "0.1.0"; access = read_only };
  protocol_version = record { value = 1; access = read_only };
  config_version = record { value = 1; access = read_only };
}

-- With the volume open: its handle, the session's directory and the four files.
all_open : (initialize_survey_session (limited 8) tt 0xA0000001 info 77 1).0 ≡ 6
unfolding initialize_survey_session create_metadata_file allocate_boot_session choose_session
    boot_session_directory_name write_boot_session_counter boot_session_directory_exists
    find_highest_boot_session read_boot_session_counter digits_within
all_open = refl

-- No room for META.TXT.
all_closed : initialize_survey_session (limited 4) tt 0xA0000001 info 77 1 ≡ (1, none)
unfolding initialize_survey_session create_metadata_file allocate_boot_session choose_session
    boot_session_directory_name write_boot_session_counter boot_session_directory_exists
    find_highest_boot_session read_boot_session_counter digits_within
all_closed = refl

system_log : initialize_system_log (limited 3) 0 ≡ (0, true)
unfolding initialize_system_log
system_log = refl

initialize_survey_session-Keeps_example :
    Keeps
      (limited 4)
      (λ h. 1)
      (λ v. v)
      (limited-CountsHandles 4)
      1
      (initialize_survey_session (limited 4) tt 0xA0000001 info 77 1)
initialize_survey_session-Keeps_example =
    initialize_survey_session-Keeps (limited 4) (λ h. 1) (λ v. v) (limited-CountsHandles 4) tt
      0xA0000001 info 77 1
