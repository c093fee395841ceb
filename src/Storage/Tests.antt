-- ===== src/Storage/Tests.antt =====
-- The allocation of boot sessions (firmware/golfer/src/storage.rs) on a volume in memory.
use golfer.Prelude.Format.{padded}
use golfer.Prelude.{
  ◌==◌, if◌then◌else◌, ℕ, zero, suc, ◌≤◌, ◌≡◌, ◌+◌, ◌++◌, refl, ap, arith, Bool, true, false, ◌&&◌,
  ◌||◌, Option, none, some, List, [], ◌∷◌, length, take, inl, inr, Bool-cases, some-eq, subst,
}
use golfer.Prelude.Bytes.{same_bytes, same_bytes_iff}
use golfer.Storage.{info, warn}
use golfer.Storage.Diagnostics.{utc_for_mono_ms, DebugFile, Diagnostics, debug_line}
use golfer.Storage.Diagnostics.Lines.{FileLaws, Message, lines, diag_all, diag_all-lines}
use golfer.Storage.Presence.{SpiBus, card_present, attempt_loop, response_loop}
use golfer.Storage.Presence.Released.{CsLaws, card_present-high}
use golfer.Storage.Session.{
  Entry, SurveyDirectory, allocate_boot_session, choose_session, write_boot_session_counter,
  read_boot_session_counter, find_highest_boot_session, boot_session_directory_name,
  boot_session_directory_exists, kind, max_boot_session,
}
use golfer.Storage.Session.Fresh.{VolumeLaws, allocate_boot_session-fresh}
use golfer.Storage.Session.Scan.{Listed}
use golfer.Storage.Session.Counter.{allocate_boot_session-counter}

record Volume : Type 0 where
  counter : Option (List ℕ)
  entries : List Entry

abbrev first_of : ℕ → Option (List ℕ) → Option (List ℕ)
first_of n none = none
first_of n (some bytes) = some (take n bytes)

abbrev is_there : Option (List ℕ) → Bool
is_there none = false
is_there (some bytes) = true

abbrev has_directory : List ℕ → List Entry → Bool
has_directory name [] = false
has_directory name (entry ∷ entries) =
    (entry.directory && same_bytes entry.base_name name) || has_directory name entries

abbrev memory : SurveyDirectory Volume
memory = record {
  open_read = λ v. (v, is_there v.counter);
  read = λ v n. (v, first_of n v.counter);
  open_truncated = λ v. (record v { counter = some [] }, true);
  write = λ v bytes. (record v { counter = some bytes }, true);
  flush = λ v. (v, true);
  close = λ v. (v, true);
  open_dir = λ v name. (v, has_directory name v.entries);
  close_dir = λ v. (v, true);
  iterate_dir = λ v. some v.entries;
}

take_short : (n : ℕ) (bytes : List ℕ) → length bytes ≤ n → take n bytes ≡ bytes
take_short zero [] h = refl
take_short (suc n) [] h = refl
take_short zero (b ∷ bytes) h = absurd (omega arith)
take_short (suc n) (b ∷ bytes) h = ap (λ (t : List ℕ). b ∷ t) (take_short n bytes (omega arith))

has_directory-Listed :
    (name : List ℕ) (entries : List Entry) → has_directory name entries ≡ true → Listed name entries
has_directory-Listed name [] h = absurd cc
has_directory-Listed name (entry ∷ entries) h =
    elim (Bool-cases (entry.directory && same_bytes entry.base_name name)) [
      | inl here ↦
          let found : (entry.directory ≡ true) × (entry.base_name ≡ name) =
            ground (arith, same_bytes_iff entry.base_name name) in
          inl found
      | inr further ↦ inr (has_directory-Listed name entries (rw further at h))
    ]

memory-VolumeLaws : VolumeLaws memory
memory-VolumeLaws = record {
  lists = λ v name entries opened listing.
      subst (λ (es : List Entry). Listed name es) (some-eq listing)
        (has_directory-Listed name v.entries opened);
  open_dir_keeps = λ v name. refl;
  close_dir_keeps = λ v. refl;
  reading_keeps = λ v n name. refl;
  open_read_keeps = λ v name missing. refl;
  write_read =
      λ v bytes short o w f c. (refl, ap (λ (t : List ℕ). some t) (take_short 16 bytes short));
}

-- `BOOT.NXT` is stale: it names session 12, which exists; session 14 is the last one.
abbrev stale : Volume
stale = record {
  counter = some (padded 8 12);
  entries =
      record { directory = true; base_name = 0x42 ∷ padded 7 12 }
      ∷ record { directory = true; base_name = 0x42 ∷ padded 7 14 }
      ∷ record { directory = false; base_name = 0x42 ∷ padded 7 99 }
      ∷ [];
}

stale_allocates : (allocate_boot_session memory stale).1 ≡ some 15
unfolding allocate_boot_session choose_session write_boot_session_counter read_boot_session_counter
    find_highest_boot_session boot_session_directory_name boot_session_directory_exists kind
    same_bytes
stale_allocates = refl

allocate_boot_session-fresh_example :
    (1 ≤ 15) × (15 ≤ max_boot_session) × ((memory.open_dir stale (0x42 ∷ padded 7 15)).1 ≡ false)
allocate_boot_session-fresh_example =
    allocate_boot_session-fresh memory memory-VolumeLaws stale 15 stale_allocates

allocate_boot_session-counter_example :
    (read_boot_session_counter memory (allocate_boot_session memory stale).0).1 ≡ some 16
allocate_boot_session-counter_example =
    allocate_boot_session-counter memory memory-VolumeLaws stale 15 stale_allocates

before_anchor :
    utc_for_mono_ms (some (record { mono_ms = 5000; unix_ms = 1_700_000_000_000 })) 4000
    ≡ some 1_699_999_999_000
unfolding utc_for_mono_ms
before_anchor = refl

-- A log in memory, with two messages.
abbrev memory_file : DebugFile (List ℕ)
memory_file = record { write = λ v bytes. (v ++ bytes, true); flush = λ v. (v, true) }

memory_file-FileLaws : FileLaws memory_file (λ v. v)
memory_file-FileLaws = record {
  write_succeeds = λ v bytes. refl;
  write_appends = λ v bytes. refl;
  flush_keeps = λ v. refl;
}

abbrev two_messages : List Message
two_messages =
    record { level = info; envelope = 0x41 ∷ []; message = [] }
    ∷ record { level = warn; envelope = 0x42 ∷ []; message = 0x43 ∷ [] }
    ∷ []

abbrev empty_log : Diagnostics (List ℕ)
empty_log = record { volume = []; debug_file = true; debug_buffer = [] }

two_lines : lines memory_file (λ v. v) two_messages ≡ 0x41 ∷ 0x0A ∷ 0x42 ∷ 0x20 ∷ 0x43 ∷ 0x0A ∷ []
unfolding debug_line
two_lines = refl

diag_all-lines_example :
    ((diag_all memory_file (λ v. v) two_messages empty_log).volume
        ++ (diag_all memory_file (λ v. v) two_messages empty_log).debug_buffer
      ≡ lines memory_file (λ v. v) two_messages)
    × (length (diag_all memory_file (λ v. v) two_messages empty_log).debug_buffer ≤ 2048)
diag_all-lines_example =
    diag_all-lines memory_file (λ v. v) memory_file-FileLaws two_messages empty_log refl
      (omega arith)

-- A card that answers the second transfer of the probe, on a bus that is the level of its chip select
-- and the number of transfers.
abbrev quiet_bus : SpiBus (Bool × ℕ)
quiet_bus = record {
  set_cs = λ s level. (level, s.1);
  write = λ s bytes. (s, true);
  transfer = λ s byte. ((s.0, s.1 + 1), some (if s.1 == 1 then 0x01 else 0xFF));
}

quiet_bus-CsLaws : CsLaws quiet_bus (λ s. s.0)
quiet_bus-CsLaws = record { set = λ s level. refl; write_keeps = λ s bytes. refl }

detected : (card_present quiet_bus (true, 0)).1 ≡ true
unfolding card_present attempt_loop response_loop
detected = refl

card_present-high_example : (card_present quiet_bus (false, 0)).0.0 ≡ true
card_present-high_example = card_present-high quiet_bus (λ s. s.0) quiet_bus-CsLaws (false, 0)
