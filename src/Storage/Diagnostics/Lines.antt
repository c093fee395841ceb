-- ===== src/Storage/Diagnostics/Lines.antt =====
-- The diagnostic log of firmware/golfer/src/storage.rs keeps every line, whole and in order.
use mathlib.Core.List.{append_assoc}
use golfer.Prelude.{
  ℕ, ◌+◌, ◌≤◌, ◌≡◌, refl, ap, sym, subst, ◌∙◌, arith, Bool, true, false, ◌||◌, not, Option, none,
  some, List, [], ◌∷◌, ◌++◌, length, ltb, leb, ◌>>=◌, >>=-eq-some, append_nil, if-cases,
  length-append,
}
use golfer.Storage.{PersistentLogLevel, level_rank, forces_persistent_flush}
use golfer.Storage.Diagnostics.{
  DebugFile, Diagnostics, appended, with_message, debug_line, flushed, after_append, drained,
  flush_open, flush_debug_buffer, with_room, pushed, logged, diag, debug_line_capacity,
}

-- A file on a healthy card: writes succeed and append, and a flush keeps the content.
pub record FileLaws {V : Type 0} (file : DebugFile V) (content : V → List ℕ) : Type 0 where
  pub write_succeeds : (v : V) (bytes : List ℕ) → (file.write v bytes).1 ≡ true
  pub write_appends : (v : V) (bytes : List ℕ) → content (file.write v bytes).0 ≡ content v ++ bytes
  pub flush_keeps : (v : V) → content (file.flush v).0 ≡ content v

appended-length :
    (piece line : List ℕ) {result : List ℕ}
    → appended piece line ≡ some result
    → length result ≤ debug_line_capacity
appended-length piece line h = ground (arith, length-append line piece)

debug_line-length :
    (envelope message : List ℕ) {line : List ℕ}
    → debug_line envelope message ≡ some line
    → length line ≤ debug_line_capacity
unfolding debug_line
debug_line-length envelope message h =
    let rest : List ℕ → Option (List ℕ) =
      λ line. with_message message line >>= appended (0x0A ∷ []) in
    let (first, _, h1) = >>=-eq-some (appended envelope []) rest h in
    let (second, _, h2) = >>=-eq-some (with_message message first) (appended (0x0A ∷ [])) h1 in
    appended-length (0x0A ∷ []) second h2

module _ {V : Type 0} (file : DebugFile V) (content : V → List ℕ) where
  -- All the text that was logged: what is in the file, and what waits in RAM.
  abbrev pub text : Diagnostics V → List ℕ
  text d = content d.volume ++ d.debug_buffer

  -- The log with this text, nothing of it waiting.
  abbrev pub Drained : List ℕ → Diagnostics V → Type 0
  Drained t d = (content d.volume ≡ t) × (d.debug_buffer ≡ []) × (d.debug_file ≡ true)

  flushed-Drained :
      FileLaws file content
      → (t : List ℕ) (flush_file : Bool) (d : Diagnostics V) → Drained t d
      → Drained t (flushed file flush_file d)
  flushed-Drained laws t false d h = h
  flushed-Drained laws t true d (same, empty, is_open) =
      (laws.flush_keeps d.volume ∙ same, empty, is_open)

  after_append-Drained :
      FileLaws file content
      → (t : List ℕ) (flush_file : Bool) (w : V × Bool) (d : Diagnostics V) → w.1 ≡ true
      → content w.0 ≡ t
      → d.debug_file ≡ true
      → Drained t (after_append file flush_file w d)
  after_append-Drained laws t flush_file (v, false) d done same is_open = cc
  after_append-Drained laws t flush_file (v, true) d done same is_open =
      flushed-Drained laws t flush_file (record d { volume = v; debug_buffer = [] })
        (same, refl, is_open)

  drained-Drained :
      FileLaws file content
      → (flush_file : Bool) (bytes : List ℕ) (d : Diagnostics V) → d.debug_buffer ≡ bytes
      → d.debug_file ≡ true
      → Drained (content d.volume ++ bytes) (drained file flush_file bytes d)
  drained-Drained laws flush_file [] d waiting is_open =
      flushed-Drained laws (content d.volume ++ []) flush_file d
        (sym (append_nil (content d.volume)), waiting, is_open)
  drained-Drained laws flush_file (b ∷ bytes) d waiting is_open =
      after_append-Drained laws (content d.volume ++ b ∷ bytes) flush_file
        (file.write d.volume (b ∷ bytes)) d (laws.write_succeeds d.volume (b ∷ bytes))
        (laws.write_appends d.volume (b ∷ bytes)) is_open

  flush_debug_buffer-Drained :
      FileLaws file content
      → (flush_file : Bool) (d : Diagnostics V) → d.debug_file ≡ true
      → Drained (text d) (flush_debug_buffer file flush_file d)
  unfolding flush_debug_buffer
  flush_debug_buffer-Drained laws flush_file d is_open =
      subst (λ b. Drained (text d) (flush_open file flush_file b d)) (sym is_open)
        (drained-Drained laws flush_file d.debug_buffer d refl is_open)

  -- The log with this text, its buffer within its capacity.
  pub record Log (t : List ℕ) (d : Diagnostics V) : Type 0 where
    pub same_text : text d ≡ t
    pub within : length d.debug_buffer ≤ 2048
    pub is_open : d.debug_file ≡ true

  Drained-Log : (t : List ℕ) (d : Diagnostics V) → Drained t d → Log t d
  Drained-Log t d (same, empty, is_open) = record {
    same_text =
        ap (λ (b : List ℕ). content d.volume ++ b) empty ∙ append_nil (content d.volume) ∙ same;
    within = subst (λ (b : List ℕ). length b ≤ 2048) (sym empty) (omega arith);
    is_open = is_open;
  }

  with_room-Log :
      FileLaws file content
      → (t : List ℕ) (size : ℕ) (d : Diagnostics V) → size ≤ 320
      → Log t d
      → Log t (with_room file size d) × (length (with_room file size d).debug_buffer + size ≤ 2048)
  with_room-Log laws t size d small log =
      if-cases (λ (d : Diagnostics V). Log t d × (length d.debug_buffer + size ≤ 2048))
        (ltb 2048 (length d.debug_buffer + size))
        (λ full.
          let (same, empty, is_open) = flush_debug_buffer-Drained laws false d log.is_open in
          (
            Drained-Log t (flush_debug_buffer file false d) (same ∙ log.same_text, empty, is_open),
            subst (λ (b : List ℕ). length b + size ≤ 2048) (sym empty) (omega arith),
          ))
        (λ room. (log, ground arith))

  pushed-Log :
      FileLaws file content
      → (t : List ℕ) (level : PersistentLogLevel) (line : List ℕ) (d : Diagnostics V) → Log t d
      → length d.debug_buffer + length line ≤ 2048
      → Log (t ++ line) (pushed file level line d)
  pushed-Log laws t level line d log room =
      let longer : Diagnostics V = record d { debug_buffer = d.debug_buffer ++ line } in
      let appended_text : text longer ≡ t ++ line =
        sym (append_assoc (content d.volume) d.debug_buffer line)
        ∙ ap (λ (s : List ℕ). s ++ line) log.same_text in
      let (same, empty, is_open) = flush_debug_buffer-Drained laws true longer log.is_open in
      let fits : leb (length d.debug_buffer + length line) 2048 ≡ true = ground arith in
      rw fits (
        if-cases (λ (d : Diagnostics V). Log (t ++ line) d) (forces_persistent_flush level)
          (λ urgent.
            Drained-Log (t ++ line) (flush_debug_buffer file true longer)
              (same ∙ appended_text, empty, is_open))
          (λ later. record {
            same_text = appended_text;
            within = omega (arith, length-append d.debug_buffer line);
            is_open = log.is_open;
          }))

  -- What a message adds to the log: its line, unless it is too long.
  abbrev pub line_of : Option (List ℕ) → List ℕ
  line_of none = []
  line_of (some line) = line

  logged-Log :
      FileLaws file content
      → (t : List ℕ) (level : PersistentLogLevel) (line : Option (List ℕ)) (d : Diagnostics V)
      → ((l : List ℕ) → line ≡ some l → length l ≤ 320)
      → Log t d
      → Log (t ++ line_of line) (logged file level line d)
  logged-Log laws t level none d short log = rw (append_nil t) log
  logged-Log laws t level (some line) d short log =
      let (ready, room) = with_room-Log laws t (length line) d (short line refl) log in
      pushed-Log laws t level line (with_room file (length line) d) ready room

  -- Every level passes the threshold.
  level-passes : (level : PersistentLogLevel) → ltb 5 (level_rank level) ≡ false
  level-passes level = ground arith

  pub diag-Log :
      FileLaws file content
      → (t : List ℕ) (level : PersistentLogLevel) (envelope message : List ℕ) (d : Diagnostics V)
      → Log t d
      → Log (t ++ line_of (debug_line envelope message)) (diag file level envelope message d)
  unfolding diag
  diag-Log laws t level envelope message d log =
      let passes = level-passes level in
      let is_open = log.is_open in
      if-cases (λ (d : Diagnostics V). Log (t ++ line_of (debug_line envelope message)) d)
        (ltb 5 (level_rank level) || not d.debug_file)
        (λ dropped. absurd (kept (ltb 5 (level_rank level)) d.debug_file passes is_open dropped))
        (λ logs.
          logged-Log laws t level (debug_line envelope message) d
            (λ line e. debug_line-length envelope message e) log)
    where
      kept : (a b : Bool) → a ≡ false → b ≡ true → a || not b ≡ true → ⊥
      kept a b e e' h = ground arith

-- A message for the log: its level, its envelope and its text, formatted.
pub record Message : Type 0 where
  pub level : PersistentLogLevel
  pub envelope : List ℕ
  pub message : List ℕ

module _ {V : Type 0} (file : DebugFile V) (content : V → List ℕ) where
  unfoldable pub diag_all : List Message → Diagnostics V → Diagnostics V
  diag_all [] d = d
  diag_all (m ∷ messages) d = diag_all messages (diag file m.level m.envelope m.message d)

  abbrev pub lines : List Message → List ℕ
  lines [] = []
  lines (m ∷ messages) = line_of file content (debug_line m.envelope m.message) ++ lines messages

  -- After any row of messages, what is in DEBUG.LOG followed by what waits in RAM is what was there
  -- before followed by the line of each message, in order and whole, and the RAM buffer is within
  -- its 2048 bytes; on a card whose writes succeed, with the log open. Only a message whose line
  -- would exceed 320 bytes leaves none.
  pub diag_all-lines :
      FileLaws file content
      → (messages : List Message) (d : Diagnostics V) → d.debug_file ≡ true
      → length d.debug_buffer ≤ 2048
      → (content (diag_all messages d).volume ++ (diag_all messages d).debug_buffer
          ≡ content d.volume ++ d.debug_buffer ++ lines messages)
        × (length (diag_all messages d).debug_buffer ≤ 2048)
  unfolding diag_all
  diag_all-lines laws messages d is_open within =
      let log =
        all-Log messages (content d.volume ++ d.debug_buffer) d
          (record { same_text = refl; within = within; is_open = is_open }) in
      (log.same_text, log.within)
    where
      all-Log :
          (messages : List Message) (t : List ℕ) (d : Diagnostics V)
          → Log file content t d
          → Log file content (t ++ lines messages) (diag_all messages d)
      all-Log [] t d log = rw (append_nil t) log
      all-Log (m ∷ messages) t d log =
          let line = line_of file content (debug_line m.envelope m.message) in
          subst (λ (s : List ℕ). Log file content s (diag_all (m ∷ messages) d))
            (append_assoc t line (lines messages))
            (all-Log messages (t ++ line) (diag file m.level m.envelope m.message d)
              (diag-Log file content laws t m.level m.envelope m.message d log))
