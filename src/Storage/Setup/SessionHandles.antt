-- ===== src/Storage/Setup/SessionHandles.antt =====
-- The handles of the session of a survey that firmware/golfer/src/storage.rs sets up.
use golfer.Prelude.{ℕ, ◌+◌, ◌≡◌, refl, ap, ◌∙◌, Option, none, some, List, arith}
use golfer.Prelude.Text.{codes}
use golfer.Prelude.Format.{hex_upper}
use golfer.System.{SystemInfo}
use golfer.Storage.Session.{allocate_boot_session, boot_session_directory_name}
use golfer.Storage.Setup.{
  FileSystem, Session, on_some, file_closed, dir_closed, open_or_create_append_file,
  ensure_directory, create_metadata_file, without_dir, without_local, without_event, with_debug,
  session_files, session_named, session_in, initialize_survey_session,
}
use golfer.Storage.Setup.Handles.{
  Handle, dir_handle, file_handle, CountsHandles, opened_count, on_ok-both, on_some-both,
  open_or_create-Held, ensure_directory-Held, create_metadata_file-Held,
}
use golfer.Storage.Setup.CounterHandles.{allocate_boot_session-Held}

module _ {V W D F : Type 0} (fs : FileSystem V W D F) (weight : Handle W D F → ℕ) (handles : V → ℕ)
    (laws : CountsHandles fs weight handles) where
  -- How often the handle is among those of a session: its directory, three files, and DEBUG.LOG if
  -- it opened.
  abbrev pub kept : Option (Session D F) → ℕ
  kept none = 0
  kept (some session) =
      opened_count (λ f. weight (file_handle f))
        (weight (dir_handle session.session_dir)
          + weight (file_handle session.local_file)
          + weight (file_handle session.event_file)
          + weight (file_handle session.rx_file))
        session.debug_file

  abbrev pub Keeps : ℕ → V × Option (Session D F) → Type 0
  Keeps n r = handles r.0 ≡ n + kept r.1

  without_dir-Keeps :
      (n : ℕ) (dir : D) (v : V)
      → handles v ≡ n + weight (dir_handle dir)
      → Keeps n (without_dir fs dir v)
  without_dir-Keeps n dir v h = omega (arith, laws.by_close_dir v dir)

  without_local-Keeps :
      (n : ℕ) (dir : D) (file : F) (v : V)
      → handles v ≡ n + weight (dir_handle dir) + weight (file_handle file)
      → Keeps n (without_local fs dir file v)
  without_local-Keeps n dir file v h =
      without_dir-Keeps n dir (file_closed fs file v) (omega (arith, laws.by_close_file v file))

  without_event-Keeps :
      (n : ℕ) (dir : D) (file event : F) (v : V)
      → handles v
        ≡ n + weight (dir_handle dir) + weight (file_handle file) + weight (file_handle event)
      → Keeps n (without_event fs dir file event v)
  without_event-Keeps n dir file event v h =
      without_local-Keeps n dir file (file_closed fs event v)
        (omega (arith, laws.by_close_file v event))

  with_debug-Keeps :
      (n : ℕ) (dir : D) (file event rx : F) (session : ℕ) (w : V × Option F)
      → handles w.0
        ≡ opened_count
            (λ f. weight (file_handle f))
            (n
              + weight (dir_handle dir)
              + weight (file_handle file)
              + weight (file_handle event)
              + weight (file_handle rx))
            w.1
      → Keeps n (with_debug fs dir file event rx session w)
  with_debug-Keeps n dir file event rx session (v, some debug) h = omega (arith, h)
  with_debug-Keeps n dir file event rx session (v, none) h = omega (arith, h)

  session_files-Keeps :
      (n survey_id session : ℕ) (info : SystemInfo) (start : ℕ) (dir : D) (v : V)
      → handles v ≡ n + weight (dir_handle dir)
      → Keeps n (session_files fs survey_id session info start dir v)
  session_files-Keeps n survey_id session info start dir v h =
      on_some-both fs weight handles laws (Keeps n) (λ f. weight (file_handle f))
        (n + weight (dir_handle dir)) (open_or_create_append_file fs dir (codes "LOCAL.LOG") v) _ _
        (open_or_create-Held fs weight handles laws dir _ v) h
        (λ v file h.
          on_some-both fs weight handles laws (Keeps n) (λ f. weight (file_handle f))
            (n + weight (dir_handle dir) + weight (file_handle file))
            (open_or_create_append_file fs dir (codes "EVENT.LOG") v) _ _
            (open_or_create-Held fs weight handles laws dir _ v) (omega (arith, h))
            (λ v event h.
              on_ok-both fs weight handles laws (Keeps n)
                (n
                  + weight (dir_handle dir)
                  + weight (file_handle file)
                  + weight (file_handle event))
                (create_metadata_file fs dir survey_id session info start v) _ _
                (create_metadata_file-Held fs weight handles laws
                  (n
                    + weight (dir_handle dir)
                    + weight (file_handle file)
                    + weight (file_handle event))
                  dir survey_id session info start v (omega (arith, h)))
                (λ v h.
                  on_some-both fs weight handles laws (Keeps n) (λ f. weight (file_handle f))
                    (n
                      + weight (dir_handle dir)
                      + weight (file_handle file)
                      + weight (file_handle event))
                    (fs.open_file_in_dir v dir (codes "RX.LOG") _) _ _ (laws.by_open_file v dir _ _)
                    h
                    (λ v rx h. with_debug-Keeps n dir file event rx session _ (
                      open_or_create-Held fs weight handles laws dir _ v
                      ∙ ap
                          (λ m.
                            opened_count (λ f. weight (file_handle f)) m
                              (open_or_create_append_file fs dir (codes "DEBUG.LOG") v).1)
                          (omega (arith, h))))
                    (without_event-Keeps n dir file event))
                (without_event-Keeps n dir file event))
            (λ v h. without_local-Keeps n dir file v (omega (arith, h))))
        (without_dir-Keeps n dir)

  session_named-Keeps :
      (n survey_id session : ℕ) (info : SystemInfo) (start : ℕ) (survey_dir : D)
      (name : Option (List ℕ)) (v : V)
      → handles v ≡ n + weight (dir_handle survey_dir)
      → Keeps n (session_named fs survey_id session info start survey_dir name v)
  session_named-Keeps n survey_id session info start survey_dir none v h =
      without_dir-Keeps n survey_dir v h
  session_named-Keeps n survey_id session info start survey_dir (some name) v h =
      on_ok-both fs weight handles laws (Keeps n) (n + weight (dir_handle survey_dir))
        (fs.make_dir_in_dir v survey_dir name) _ _ (laws.by_make_dir v survey_dir name ∙ h)
        (λ v h.
          on_some-both fs weight handles laws (Keeps n) (λ d. weight (dir_handle d))
            (n + weight (dir_handle survey_dir)) (fs.open_dir v survey_dir name) _ _
            (laws.by_open_dir v survey_dir name) h
            (λ v dir h.
              session_files-Keeps n survey_id session info start dir (dir_closed fs survey_dir v)
                (omega (arith, laws.by_close_dir v survey_dir)))
            (without_dir-Keeps n survey_dir))
        (without_dir-Keeps n survey_dir)

  -- An allocation has no handle to keep.
  allocated-Keeps :
      (n survey_id : ℕ) (info : SystemInfo) (start : ℕ) (survey_dir : D) (w : V × Option ℕ)
      → handles w.0 ≡ n + weight (dir_handle survey_dir)
      → Keeps n (
          on_some w
            (λ v session.
              session_named fs survey_id session info start survey_dir
                (boot_session_directory_name session)
                v)
            (without_dir fs survey_dir))
  allocated-Keeps n survey_id info start survey_dir (v, some session) h =
      session_named-Keeps n survey_id session info start survey_dir
        (boot_session_directory_name session) v h
  allocated-Keeps n survey_id info start survey_dir (v, none) h = without_dir-Keeps n survey_dir v h

  session_in-Keeps :
      (n survey_id : ℕ) (info : SystemInfo) (start : ℕ) (survey_dir : D) (v : V)
      → handles v ≡ n + weight (dir_handle survey_dir)
      → Keeps n (session_in fs survey_id info start survey_dir v)
  session_in-Keeps n survey_id info start survey_dir v h =
      allocated-Keeps n survey_id info start survey_dir
        (allocate_boot_session (fs.directory survey_dir) v)
        (allocate_boot_session-Held fs weight handles laws survey_dir v ∙ h)

  -- On every path, with any outcome of any operation, the set-up of a session changes what is open by
  -- exactly the handles that it returns: each volume, directory and file is open afterwards as often
  -- as before, and once more for each time that it stands in the result, which is nothing when the
  -- set-up fails, and else the session's directory, LOCAL.LOG, EVENT.LOG, RX.LOG, and DEBUG.LOG if that
  -- opened.
  pub initialize_survey_session-Keeps :
      (volume : W) (survey_id : ℕ) (info : SystemInfo) (start_mono_ms : ℕ) (v : V)
      → Keeps (handles v) (initialize_survey_session fs volume survey_id info start_mono_ms v)
  unfolding initialize_survey_session
  initialize_survey_session-Keeps volume survey_id info start v =
      let n = handles v in
      on_some-both fs weight handles laws (Keeps n) (λ d. weight (dir_handle d)) n
        (fs.open_root_dir v volume) _ _ (laws.by_open_root_dir v volume) refl
        (λ v root h.
          on_some-both fs weight handles laws (Keeps n) (λ d. weight (dir_handle d))
            (n + weight (dir_handle root)) (ensure_directory fs root (codes "SURVEY") v) _ _
            (ensure_directory-Held fs weight handles laws (n + weight (dir_handle root)) root _ v
              (omega (arith, h)))
            refl
            (λ v survey_root h.
              on_some-both fs weight handles laws (Keeps n) (λ d. weight (dir_handle d))
                (n + weight (dir_handle survey_root))
                (ensure_directory fs survey_root (hex_upper 8 survey_id) (dir_closed fs root v)) _ _
                (ensure_directory-Held fs weight handles laws (n + weight (dir_handle survey_root))
                  survey_root _ (dir_closed fs root v) (omega (arith, laws.by_close_dir v root, h)))
                refl
                (λ v survey_dir h.
                  session_in-Keeps n survey_id info start survey_dir (dir_closed fs survey_root v)
                    (omega (arith, laws.by_close_dir v survey_root, h)))
                (without_dir-Keeps n survey_root))
            (without_dir-Keeps n root))
        (λ v h. omega (arith, h))
