-- ===== src/Storage/Setup/SystemLog.antt =====
-- The handles of the system log that the set-up of the storage (firmware/golfer/src/storage.rs) opens.
use golfer.Prelude.{ℕ, ◌+◌, ◌≡◌, refl, ◌∙◌, Bool, true, false, Option, none, some, arith}
use golfer.Prelude.Text.{codes}
use golfer.Storage.Setup.{
  FileSystem, file_closed, dir_closed, without_root, without_log, log_closed, startup_written,
  log_opened, log_looked_up, initialize_system_log,
}
use golfer.Storage.Setup.Handles.{
  Handle, volume_handle, dir_handle, file_handle, CountsHandles, Held, on_ok-both, on_some-both,
}

module _ {V W D F : Type 0} (fs : FileSystem V W D F) (weight : Handle W D F → ℕ) (handles : V → ℕ)
    (laws : CountsHandles fs weight handles) where
  without_root-Held :
      (n : ℕ) (volume : W) (root : D) (v : V)
      → handles v ≡ n + weight (volume_handle volume) + weight (dir_handle root)
      → Held handles n (without_root fs volume root v)
  without_root-Held n volume root v h =
      omega (arith, laws.by_close_volume (dir_closed fs root v) volume, laws.by_close_dir v root)

  without_log-Held :
      (n : ℕ) (volume : W) (root : D) (file : F) (v : V)
      → handles v
        ≡ n + weight (volume_handle volume) + weight (dir_handle root) + weight (file_handle file)
      → Held handles n (without_log fs volume root file v)
  without_log-Held n volume root file v h =
      without_root-Held n volume root (file_closed fs file v)
        (omega (arith, laws.by_close_file v file))

  log_closed-Held :
      (n : ℕ) (volume : W) (root : D) (file : F) (v : V)
      → handles v
        ≡ n + weight (volume_handle volume) + weight (dir_handle root) + weight (file_handle file)
      → Held handles n (log_closed fs volume root file v)
  log_closed-Held n volume root file v h =
      on_ok-both fs weight handles laws (Held handles n)
        (n + weight (volume_handle volume) + weight (dir_handle root)) (fs.close_file v file) _ _
        (omega (arith, laws.by_close_file v file))
        (λ v h.
          on_ok-both fs weight handles laws (Held handles n) (n + weight (volume_handle volume))
            (fs.close_dir v root) _ _ (omega (arith, laws.by_close_dir v root))
            (λ v h.
              on_ok-both fs weight handles laws (Held handles n) n (fs.close_volume v volume) _ _
                (omega (arith, laws.by_close_volume v volume)) (λ v h. h) (λ v h. h))
            (λ v h. omega (arith, laws.by_close_volume v volume)))
        (without_root-Held n volume root)

  startup_written-Held :
      (n : ℕ) (volume : W) (root : D) (file : F) (v : V)
      → handles v
        ≡ n + weight (volume_handle volume) + weight (dir_handle root) + weight (file_handle file)
      → Held handles n (startup_written fs volume root file v)
  startup_written-Held n volume root file v h =
      on_ok-both fs weight handles laws (Held handles n)
        (n + weight (volume_handle volume) + weight (dir_handle root) + weight (file_handle file))
        (fs.write v file (codes "SYSTEM STARTUP\r\n")) _ _ (laws.by_write v file _ ∙ h)
        (λ v h.
          on_ok-both fs weight handles laws (Held handles n)
            (n
              + weight (volume_handle volume)
              + weight (dir_handle root)
              + weight (file_handle file))
            (fs.flush_file v file) _ _ (laws.by_flush v file ∙ h)
            (log_closed-Held n volume root file) (without_log-Held n volume root file))
        (without_log-Held n volume root file)

  log_opened-Held :
      (n : ℕ) (volume : W) (root : D) (already : Bool) (file : F) (v : V)
      → handles v
        ≡ n + weight (volume_handle volume) + weight (dir_handle root) + weight (file_handle file)
      → Held handles n (log_opened fs volume root already file v)
  log_opened-Held n volume root true file v h = startup_written-Held n volume root file v h
  log_opened-Held n volume root false file v h =
      on_ok-both fs weight handles laws (Held handles n)
        (n + weight (volume_handle volume) + weight (dir_handle root) + weight (file_handle file))
        (fs.write v file (codes "Hello GOLFER!\r\n")) _ _ (laws.by_write v file _ ∙ h)
        (startup_written-Held n volume root file) (without_log-Held n volume root file)

  log_looked_up-Held :
      (n : ℕ) (volume : W) (root : D) (found : Option Bool) (v : V)
      → handles v ≡ n + weight (volume_handle volume) + weight (dir_handle root)
      → Held handles n (log_looked_up fs volume root found v)
  log_looked_up-Held n volume root none v h = without_root-Held n volume root v h
  log_looked_up-Held n volume root (some already) v h =
      on_some-both fs weight handles laws (Held handles n) (λ f. weight (file_handle f))
        (n + weight (volume_handle volume) + weight (dir_handle root))
        (fs.open_file_in_dir v root (codes "SYS_LOG.TXT") _) _ _ (laws.by_open_file v root _ _) h
        (λ v file h. log_opened-Held n volume root already file v (omega (arith, h)))
        (without_root-Held n volume root)

  initialize_system_log-Held : (v : V) → Held handles (handles v) (initialize_system_log fs v)
  unfolding initialize_system_log
  initialize_system_log-Held v =
      let n = handles v in
      on_some-both fs weight handles laws (Held handles n) (λ w. weight (volume_handle w)) n
        (fs.open_raw_volume v) _ _ (laws.by_open_raw_volume v) refl
        (λ v volume h.
          on_some-both fs weight handles laws (Held handles n) (λ d. weight (dir_handle d))
            (n + weight (volume_handle volume)) (fs.open_root_dir v volume) _ _
            (laws.by_open_root_dir v volume) (omega (arith, h))
            (λ v root h. log_looked_up-Held n volume root _ v (omega (arith, h)))
            (λ v h. omega (arith, laws.by_close_volume v volume)))
        (λ v h. h)
