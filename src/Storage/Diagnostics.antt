-- ===== src/Storage/Diagnostics.antt =====
-- The diagnostic log and the UTC anchor of firmware/golfer/src/storage.rs: `diag`,
-- `flush_debug_buffer`, `update_time_anchor` and `utc_for_mono_ms`. A text is the list of its bytes.
-- The open DEBUG.LOG of embedded-sdmmc is a record of the operations that the code calls on it.
pub mod Lines
pub mod Anchor
pub mod Elsewhere
use golfer.Prelude.{
  ℕ, ◌+◌, ◌-◌, ◌≤◌, ◌≡◌, Bool, true, false, Option, none, some, List, [], ◌∷◌, ◌++◌, length, ltb,
  leb, if◌then◌else◌, saturating_add, u64_mod, ◌>>=◌, ◌==◌, ◌||◌, not,
}
use golfer.Storage.{PersistentLogLevel, trace, level_rank, forces_persistent_flush}

abbrev persistent_log_level : PersistentLogLevel
persistent_log_level = trace

abbrev debug_buffer_capacity : ℕ
debug_buffer_capacity = 2048

abbrev pub debug_line_capacity : ℕ
debug_line_capacity = 320

pub record UtcAnchor : Type 0 where
  pub mono_ms : ℕ
  pub unix_ms : ℕ

-- `checked_sub`
abbrev checked_sub : ℕ → ℕ → Option ℕ
checked_sub a b = if leb b a then some (a - b) else none

unfoldable pub utc_for_mono_ms : Option UtcAnchor → ℕ → Option ℕ
utc_for_mono_ms none mono_ms = none
utc_for_mono_ms (some anchor) mono_ms =
    if leb anchor.mono_ms mono_ms
    then some (saturating_add u64_mod anchor.unix_ms (mono_ms - anchor.mono_ms))
    else checked_sub anchor.unix_ms (anchor.mono_ms - mono_ms)

-- The new anchor, and whether it is the first one.
unfoldable pub update_time_anchor : ℕ → ℕ → Option UtcAnchor → Option UtcAnchor × Bool
update_time_anchor mono_ms unix_ms none =
    (some (record { mono_ms = mono_ms; unix_ms = unix_ms }), true)
update_time_anchor mono_ms unix_ms (some anchor) =
    (some (record { mono_ms = mono_ms; unix_ms = unix_ms }), false)

-- The operations on the volume: each leaves it behind with an outcome, true for `Ok`. The file is the
-- one that `debug_file` holds.
pub record DebugFile (V : Type 0) : Type 0 where
  pub write : V → List ℕ → V × Bool
  pub flush : V → V × Bool

-- The part of `Storage` that the log uses.
pub record Diagnostics (V : Type 0) : Type 0 where
  pub volume : V
  pub debug_file : Bool
  pub debug_buffer : List ℕ

-- A `write!` into the `String` of a line, which fails when the line is full.
abbrev pub appended : List ℕ → List ℕ → Option (List ℕ)
appended piece line =
    if leb (length line + length piece) debug_line_capacity then some (line ++ piece) else none

-- The message behind its separator; an empty message leaves none.
abbrev pub with_message : List ℕ → List ℕ → Option (List ℕ)
with_message message line = do
  line' ← appended (0x20 ∷ []) line
  line'' ← appended message line'
  some (if length line'' == length line + 1 then line else line'')

-- The line of a message, from the formatted text before it and the formatted message.
unfoldable pub debug_line : List ℕ → List ℕ → Option (List ℕ)
debug_line envelope message = do
  line ← appended envelope []
  line' ← with_message message line
  appended (0x0A ∷ []) line'

module _ {V : Type 0} (file : DebugFile V) where
  abbrev pub flushed : Bool → Diagnostics V → Diagnostics V
  flushed false d = d
  flushed true d = record d { volume = (file.flush d.volume).0 }

  -- What follows the write of the buffer.
  abbrev pub after_append : Bool → V × Bool → Diagnostics V → Diagnostics V
  after_append flush_file (v, false) d = record d { volume = v; debug_buffer = [] }
  after_append flush_file (v, true) d =
      flushed flush_file (record d { volume = v; debug_buffer = [] })

  abbrev pub drained : Bool → List ℕ → Diagnostics V → Diagnostics V
  drained flush_file [] d = flushed flush_file d
  drained flush_file (b ∷ bytes) d = after_append flush_file (file.write d.volume (b ∷ bytes)) d

  abbrev pub flush_open : Bool → Bool → Diagnostics V → Diagnostics V
  flush_open flush_file false d = record d { debug_buffer = [] }
  flush_open flush_file true d = drained flush_file d.debug_buffer d

  unfoldable pub flush_debug_buffer : Bool → Diagnostics V → Diagnostics V
  flush_debug_buffer flush_file d = flush_open flush_file d.debug_file d

  -- The room for a line, made by a write without a flush.
  abbrev pub with_room : ℕ → Diagnostics V → Diagnostics V
  with_room size d =
      if ltb debug_buffer_capacity (length d.debug_buffer + size)
      then flush_debug_buffer false d
      else d

  -- `push_str`, which drops a line that does not fit, and the flush for a warning or an error.
  abbrev pub pushed : PersistentLogLevel → List ℕ → Diagnostics V → Diagnostics V
  pushed level line d =
      if leb (length d.debug_buffer + length line) debug_buffer_capacity
      then (if forces_persistent_flush level
          then flush_debug_buffer true (record d { debug_buffer = d.debug_buffer ++ line })
          else record d { debug_buffer = d.debug_buffer ++ line })
      else d

  abbrev pub logged : PersistentLogLevel → Option (List ℕ) → Diagnostics V → Diagnostics V
  logged level none d = d
  logged level (some line) d = pushed level line (with_room (length line) d)

  -- `diag`, with the formatted envelope and the formatted message.
  unfoldable pub diag : PersistentLogLevel → List ℕ → List ℕ → Diagnostics V → Diagnostics V
  diag level envelope message d =
      if ltb (level_rank persistent_log_level) (level_rank level) || not d.debug_file
      then d
      else logged level (debug_line envelope message) d
