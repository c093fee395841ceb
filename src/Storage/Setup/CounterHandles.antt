-- ===== src/Storage/Setup/CounterHandles.antt =====
-- The handles while a session is allocated (firmware/golfer/src/storage.rs): BOOT.NXT, and the directory
-- that is looked for.
use golfer.Prelude.{
  ℕ, ◌+◌, ◌≡◌, refl, ◌∙◌, Bool, true, false, Option, none, some, List, arith, if◌then◌else◌,
}
use golfer.Storage.Session.{
  allocate_boot_session, allocate, opens, checked, counter_opened, found_open,
  read_boot_session_counter, boot_session_directory_exists, boot_session_directory_name, granted,
  choose_session, write_boot_session_counter, closing, then_flush, then_write,
}
use golfer.Storage.Setup.{FileSystem}
use golfer.Storage.Setup.Handles.{Handle, counter_handle, session_dir_handle, CountsHandles, Held}

module _ {V W D F : Type 0} (fs : FileSystem V W D F) (weight : Handle W D F → ℕ) (handles : V → ℕ)
    (laws : CountsHandles fs weight handles) (d : D) where
  closing-Held :
      (n : ℕ) (w : V × Bool)
      → handles w.0 ≡ n + weight (counter_handle d)
      → Held handles n (closing (fs.directory d) w)
  closing-Held n (v, true) h = omega (arith, laws.by_counter_close v d)
  closing-Held n (v, false) h = omega (arith, laws.by_counter_close v d)

  then_flush-Held :
      (n : ℕ) (w : V × Bool)
      → handles w.0 ≡ n + weight (counter_handle d)
      → Held handles n (then_flush (fs.directory d) w)
  then_flush-Held n (v, true) h =
      closing-Held n ((fs.directory d).flush v) (laws.by_counter_flush v d ∙ h)
  then_flush-Held n (v, false) h = closing-Held n (v, false) h

  then_write-Held :
      (n : ℕ) (contents : List ℕ) (w : V × Bool)
      → handles w.0 ≡ (if w.1 then n + weight (counter_handle d) else n)
      → Held handles n (then_write (fs.directory d) contents w)
  then_write-Held n contents (v, true) h =
      then_flush-Held n ((fs.directory d).write v contents)
        (laws.by_counter_write v d contents ∙ h ∙ omega arith)
  then_write-Held n contents (v, false) h = h

  granted-Held :
      (n session : ℕ) (w : V × Bool)
      → handles w.0 ≡ n
      → Held handles n (granted (fs.directory d) session w)
  granted-Held n session (v, true) h = h
  granted-Held n session (v, false) h = h

  counter_opened-Held :
      (n : ℕ) (w : V × Bool)
      → handles w.0 ≡ (if w.1 then n + weight (counter_handle d) else n)
      → Held handles n (counter_opened (fs.directory d) w)
  counter_opened-Held n (v, true) h =
      let found = (fs.directory d).read v 16 in
      omega (arith, laws.by_counter_close found.0 d, laws.by_counter_read v d 16)
  counter_opened-Held n (v, false) h = h

  found_open-Held :
      (n : ℕ) (w : V × Bool)
      → handles w.0 ≡ (if w.1 then n + weight (session_dir_handle d) else n)
      → Held handles n (found_open (fs.directory d) w)
  found_open-Held n (v, true) h = omega (arith, laws.by_close_session_dir v d)
  found_open-Held n (v, false) h = h

  opens-Held :
      (v : V) (name : Option (List ℕ)) → Held handles (handles v) (opens (fs.directory d) v name)
  opens-Held v none = refl
  opens-Held v (some name) =
      found_open-Held (handles v) ((fs.directory d).open_dir v name)
        (laws.by_open_session_dir v d name)

  checked-Held :
      (v : V) (choice : Option ℕ) → Held handles (handles v) (checked (fs.directory d) v choice)
  unfolding boot_session_directory_exists
  checked-Held v none = refl
  checked-Held v (some session) = opens-Held v (boot_session_directory_name session)

  choose_session-Held : (v : V) → Held handles (handles v) (choose_session (fs.directory d) v)
  unfolding choose_session read_boot_session_counter
  choose_session-Held v =
      let counter = read_boot_session_counter (fs.directory d) v in
      checked-Held counter.0 _
      ∙ counter_opened-Held (handles v) ((fs.directory d).open_read v) (laws.by_open_read v d)

  allocate-Held :
      (v : V) (choice : Option ℕ) → Held handles (handles v) (allocate (fs.directory d) v choice)
  unfolding write_boot_session_counter
  allocate-Held v none = refl
  allocate-Held v (some session) = granted-Held (handles v) session _ (
      then_write-Held (handles v) _ ((fs.directory d).open_truncated v)
        (laws.by_open_truncated v d))

  pub allocate_boot_session-Held :
      (v : V) → Held handles (handles v) (allocate_boot_session (fs.directory d) v)
  unfolding allocate_boot_session
  allocate_boot_session-Held v =
      let choice = choose_session (fs.directory d) v in
      allocate-Held choice.0 choice.1 ∙ choose_session-Held v
