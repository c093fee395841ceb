-- ===== src/Storage/Setup/Handles.antt =====
-- The counter and the files of a session (firmware/golfer/src/storage.rs): what an operation does to
-- the open handles.
use golfer.Prelude.{
  ℕ, ◌+◌, ◌-◌, ◌≡◌, refl, ap, ◌∙◌, Bool, true, false, Option, none, some, List, arith,
  if◌then◌else◌,
}
use golfer.Prelude.Text.{codes}
use golfer.System.{SystemInfo}
use golfer.Storage.Setup.{
  FileSystem, Mode, on_some, on_ok, append_looked_up, open_or_create_append_file, ensure_directory,
  metadata_written, metadata_named, create_metadata_file,
}

-- What can be open: a volume, a directory, a file, and while a session is allocated in a directory,
-- BOOT.NXT and the session's directory there.
pub data Handle (W D F : Type 0) : Type 0 where
  volume_handle : W → Handle W D F
  dir_handle : D → Handle W D F
  file_handle : F → Handle W D F
  counter_handle session_dir_handle : D → Handle W D F

-- The count after an opening, from the one before and what the new handle adds.
abbrev pub opened_count : {A : Type 0} → (A → ℕ) → ℕ → Option A → ℕ
opened_count adds n (some a) = n + adds a
opened_count adds n none = n

-- `handles` counts what is open, each handle with its `weight`; with weight 1 for one handle and 0 for
-- every other it says how often that one is open. An opening that gives a handle adds it, a close
-- takes it away, also a close that reports an error, and a close of a handle that is not open takes
-- nothing, the subtraction stopping at 0.
pub record CountsHandles {V W D F : Type 0} (fs : FileSystem V W D F) (weight : Handle W D F → ℕ)
    (handles : V → ℕ) : Type 0 where
  pub by_open_raw_volume :
      (v : V)
      → handles (fs.open_raw_volume v).0
        ≡ opened_count (λ w. weight (volume_handle w)) (handles v) (fs.open_raw_volume v).1
  pub by_open_root_dir :
      (v : V) (w : W)
      → handles (fs.open_root_dir v w).0
        ≡ opened_count (λ d. weight (dir_handle d)) (handles v) (fs.open_root_dir v w).1
  pub by_open_dir :
      (v : V) (d : D) (name : List ℕ)
      → handles (fs.open_dir v d name).0
        ≡ opened_count (λ d. weight (dir_handle d)) (handles v) (fs.open_dir v d name).1
  pub by_open_file :
      (v : V) (d : D) (name : List ℕ) (mode : Mode)
      → handles (fs.open_file_in_dir v d name mode).0
        ≡ opened_count
            (λ f. weight (file_handle f))
            (handles v)
            (fs.open_file_in_dir v d name mode).1
  pub by_make_dir :
      (v : V) (d : D) (name : List ℕ) → handles (fs.make_dir_in_dir v d name).0 ≡ handles v
  pub by_write : (v : V) (f : F) (bytes : List ℕ) → handles (fs.write v f bytes).0 ≡ handles v
  pub by_flush : (v : V) (f : F) → handles (fs.flush_file v f).0 ≡ handles v
  pub by_close_file :
      (v : V) (f : F) → handles (fs.close_file v f).0 ≡ handles v - weight (file_handle f)
  pub by_close_dir :
      (v : V) (d : D) → handles (fs.close_dir v d).0 ≡ handles v - weight (dir_handle d)
  pub by_close_volume :
      (v : V) (w : W) → handles (fs.close_volume v w).0 ≡ handles v - weight (volume_handle w)
  -- The same for the file of the session counter, and for the test for a session's directory.
  pub by_open_read :
      (v : V) (d : D)
      → handles ((fs.directory d).open_read v).0 ≡ (
          if ((fs.directory d).open_read v).1
          then handles v + weight (counter_handle d)
          else handles v)
  pub by_counter_read : (v : V) (d : D) (n : ℕ) → handles ((fs.directory d).read v n).0 ≡ handles v
  pub by_open_session_dir :
      (v : V) (d : D) (name : List ℕ)
      → handles ((fs.directory d).open_dir v name).0 ≡ (
          if ((fs.directory d).open_dir v name).1
          then handles v + weight (session_dir_handle d)
          else handles v)
  pub by_close_session_dir :
      (v : V) (d : D)
      → handles ((fs.directory d).close_dir v).0 ≡ handles v - weight (session_dir_handle d)
  pub by_open_truncated :
      (v : V) (d : D)
      → handles ((fs.directory d).open_truncated v).0 ≡ (
          if ((fs.directory d).open_truncated v).1
          then handles v + weight (counter_handle d)
          else handles v)
  pub by_counter_write :
      (v : V) (d : D) (bytes : List ℕ) → handles ((fs.directory d).write v bytes).0 ≡ handles v
  pub by_counter_flush : (v : V) (d : D) → handles ((fs.directory d).flush v).0 ≡ handles v
  pub by_counter_close :
      (v : V) (d : D) → handles ((fs.directory d).close v).0 ≡ handles v - weight (counter_handle d)

-- The handles of a result.
abbrev pub Held : {V B : Type 0} → (V → ℕ) → ℕ → V × B → Type 0
Held handles n r = handles r.0 ≡ n

module _ {V W D F : Type 0} (fs : FileSystem V W D F) (weight : Handle W D F → ℕ) (handles : V → ℕ)
    (laws : CountsHandles fs weight handles) where
  -- After an operation, whatever its outcome.
  pub on_ok-both :
      {R : Type 0} (P : R → Type 0) (n : ℕ) (w : V × Bool) (done failed : V → R)
      → handles w.0 ≡ n
      → ((v : V) → handles v ≡ n → P (done v))
      → ((v : V) → handles v ≡ n → P (failed v))
      → P (on_ok w done failed)
  on_ok-both P n (v, true) done failed h hd hf = hd v h
  on_ok-both P n (v, false) done failed h hd hf = hf v h

  pub on_some-both :
      {A R : Type 0} (P : R → Type 0) (adds : A → ℕ) (n : ℕ) {m : ℕ} (w : V × Option A)
      (opened : V → A → R) (failed : V → R)
      → handles w.0 ≡ opened_count adds m w.1
      → m ≡ n
      → ((v : V) (a : A) → handles v ≡ n + adds a → P (opened v a))
      → ((v : V) → handles v ≡ n → P (failed v))
      → P (on_some w opened failed)
  on_some-both P adds n (v, some a) opened failed h e hd hf = hd v a (h ∙ ap (λ m. m + adds a) e)
  on_some-both P adds n (v, none) opened failed h e hd hf = hf v (h ∙ e)

  append-Held :
      (dir : D) (filename : List ℕ) (found : Option Bool) (v : V)
      → handles (append_looked_up fs dir filename found v).0
        ≡ opened_count
            (λ f. weight (file_handle f))
            (handles v)
            (append_looked_up fs dir filename found v).1
  append-Held dir filename none v = refl
  append-Held dir filename (some already) v = laws.by_open_file v dir filename _

  pub open_or_create-Held :
      (dir : D) (filename : List ℕ) (v : V)
      → handles (open_or_create_append_file fs dir filename v).0
        ≡ opened_count
            (λ f. weight (file_handle f))
            (handles v)
            (open_or_create_append_file fs dir filename v).1
  open_or_create-Held dir filename v = append-Held dir filename (fs.exists v dir filename) v

  -- What an opening of a directory gives, with its handle.
  abbrev pub Opens : ℕ → V × Option D → Type 0
  Opens n r = handles r.0 ≡ opened_count (λ d. weight (dir_handle d)) n r.1

  pub ensure_directory-Held :
      (n : ℕ) (parent : D) (name : List ℕ) (v : V)
      → handles v ≡ n
      → Opens n (ensure_directory fs parent name v)
  ensure_directory-Held n parent name v h =
      on_some-both (Opens n) (λ d. weight (dir_handle d)) n (fs.open_dir v parent name) _ _
        (laws.by_open_dir v parent name) h (λ v dir h. h)
        (λ v h.
          on_ok-both (Opens n) n (fs.make_dir_in_dir v parent name) _ _
            (laws.by_make_dir v parent name ∙ h)
            (λ v h.
              laws.by_open_dir v parent name
              ∙ ap (λ m. opened_count (λ d. weight (dir_handle d)) m (fs.open_dir v parent name).1)
                  h)
            (λ v h. h))

  metadata_written-Held :
      (n : ℕ) (file : F) (text : Option (List ℕ)) (v : V)
      → handles v ≡ n + weight (file_handle file)
      → Held handles n (metadata_written fs file text v)
  metadata_written-Held n file none v h = omega (arith, laws.by_close_file v file)
  metadata_written-Held n file (some text) v h =
      on_ok-both (Held handles n) (n + weight (file_handle file)) (fs.write v file text) _ _
        (laws.by_write v file text ∙ h)
        (λ v h.
          on_ok-both (Held handles n) (n + weight (file_handle file)) (fs.flush_file v file) _ _
            (laws.by_flush v file ∙ h) (λ v h. omega (arith, laws.by_close_file v file))
            (λ v h. omega (arith, laws.by_close_file v file)))
        (λ v h. omega (arith, laws.by_close_file v file))

  metadata_named-Held :
      (n survey_id session : ℕ) (info : SystemInfo) (start : ℕ) (file : F) (name : Option (List ℕ))
      (v : V)
      → handles v ≡ n + weight (file_handle file)
      → Held handles n (metadata_named fs survey_id session info start file name v)
  metadata_named-Held n survey_id session info start file none v h =
      omega (arith, laws.by_close_file v file)
  metadata_named-Held n survey_id session info start file (some name) v h =
      metadata_written-Held n file _ v h

  pub create_metadata_file-Held :
      (n : ℕ) (dir : D) (survey_id session : ℕ) (info : SystemInfo) (start : ℕ) (v : V)
      → handles v ≡ n
      → Held handles n (create_metadata_file fs dir survey_id session info start v)
  unfolding create_metadata_file
  create_metadata_file-Held n dir survey_id session info start v h =
      on_some-both (Held handles n) (λ f. weight (file_handle f)) n
        (fs.open_file_in_dir v dir (codes "META.TXT") _) _ _ (laws.by_open_file v dir _ _) h
        (λ v file h. metadata_named-Held n survey_id session info start file _ v h) (λ v h. h)
