-- ===== src/Storage/Session.antt =====
-- The allocation of a boot session's number: `allocate_boot_session` and what it calls, of
-- firmware/golfer/src/storage.rs. The survey's directory on the FAT volume of embedded-sdmmc is a
-- record of the operations that the code calls there, `SurveyDirectory`.
pub mod Numbers
pub mod Scan
pub mod Fresh
pub mod Counter
use golfer.Prelude.Format.{padded}
use golfer.Prelude.{
  ℕ, zero, suc, ◌+◌, ◌-◌, ◌*◌, ◌/◌, ◌%◌, Bool, true, false, not, ◌&&◌, ◌||◌, Option, none, some,
  List, [], ◌∷◌, ◌++◌, length, ltb, leb, ◌==◌, if◌then◌else◌, guard, ◌>>◌, ◌>>=◌, checked_add,
  checked_mul, u32_mod, map, saturating_add, saturating_mul,
}

abbrev pub max_boot_session : ℕ
max_boot_session = 9_999_999

-- An entry of a directory: whether it is a directory, and its base name.
pub record Entry : Type 0 where
  pub directory : Bool
  pub base_name : List ℕ

-- The operations leave a volume and an outcome, which is true for `Ok`. `BOOT.NXT` is opened to be read
-- or truncated, `read n` gives at most `n` of its bytes, and `close` closes it; `open_dir` opens a
-- directory by its name, and `close_dir` closes that one.
pub record SurveyDirectory (V : Type 0) : Type 0 where
  pub open_read : V → V × Bool
  pub read : V → ℕ → V × Option (List ℕ)
  pub open_truncated : V → V × Bool
  pub write : V → List ℕ → V × Bool
  pub flush : V → V × Bool
  pub close : V → V × Bool
  pub open_dir : V → List ℕ → V × Bool
  pub close_dir : V → V × Bool
  pub iterate_dir : V → Option (List Entry)

unfoldable pub boot_session_directory_name : ℕ → Option (List ℕ)
boot_session_directory_name session =
    if session == 0 || ltb max_boot_session session then none else some (0x42 ∷ padded 7 session)

-- What a byte of the counter is.
pub data Kind : Type 0 where
  digit : ℕ → Kind
  blank other : Kind

unfoldable pub kind : ℕ → Kind
kind byte =
    if leb 0x30 byte && leb byte 0x39
    then digit (byte - 0x30)
    else if byte == 0x0D || byte == 0x0A || byte == 0x20 || byte == 0x09
    then blank
    else other

-- The loop over the bytes of the counter, each with what it is.
abbrev pub counter_loop : Bool → ℕ → List Kind → Option ℕ
counter_loop saw_digit value [] = if saw_digit then some value else none
counter_loop saw_digit value (digit d ∷ bytes) = checked_mul u32_mod value 10 >>= λ tens.
    checked_add u32_mod tens d >>= λ next. counter_loop true next bytes
counter_loop true value (blank ∷ bytes) = some value
counter_loop false value (blank ∷ bytes) = counter_loop false value bytes
counter_loop saw_digit value (other ∷ bytes) = none

abbrev pub parse_counter : Option (List ℕ) → Option ℕ
parse_counter none = none
parse_counter (some bytes) =
    if length bytes == 0 then none else counter_loop false 0 (map kind bytes)

abbrev pub session_loop : ℕ → List Kind → Option ℕ
session_loop value [] = some value
session_loop value (digit d ∷ bytes) =
    session_loop (saturating_add u32_mod (saturating_mul u32_mod value 10) d) bytes
session_loop value (blank ∷ bytes) = none
session_loop value (other ∷ bytes) = none

-- The number of a session's directory.
abbrev pub numbered : List ℕ → Option ℕ
numbered [] = none
numbered (first ∷ digits) =
    if not (length (first ∷ digits) == 8) || not (first == 0x42)
    then none
    else session_loop 0 (map kind digits)

abbrev pub later : ℕ → Option ℕ → ℕ
later highest none = highest
later highest (some value) = if ltb highest value then value else highest

abbrev pub entry_number : Entry → Option ℕ
entry_number entry = if entry.directory then numbered entry.base_name else none

abbrev pub highest_loop : ℕ → List Entry → ℕ
highest_loop highest [] = highest
highest_loop highest (entry ∷ entries) = highest_loop (later highest (entry_number entry)) entries

abbrev pub in_range : ℕ → Bool
in_range session = not (session == 0 || ltb max_boot_session session)

module _ {V : Type 0} (dir : SurveyDirectory V) where
  -- The file is closed before the outcome of the read is looked at.
  abbrev pub counter_opened : V × Bool → V × Option ℕ
  counter_opened (v, false) = (v, none)
  counter_opened (v, true) =
      let found = dir.read v 16 in ((dir.close found.0).0, parse_counter found.1)

  unfoldable pub read_boot_session_counter : V → V × Option ℕ
  read_boot_session_counter v = counter_opened (dir.open_read v)

  abbrev pub found_open : V × Bool → V × Bool
  found_open (v, false) = (v, false)
  found_open (v, true) = ((dir.close_dir v).0, true)

  abbrev pub opens : V → Option (List ℕ) → V × Bool
  opens v none = (v, false)
  opens v (some name) = found_open (dir.open_dir v name)

  unfoldable pub boot_session_directory_exists : V → ℕ → V × Bool
  boot_session_directory_exists v session = opens v (boot_session_directory_name session)

  unfoldable pub find_highest_boot_session : V → Option ℕ
  find_highest_boot_session v = dir.iterate_dir v >>= λ entries. some (highest_loop 0 entries)

  abbrev pub recovered : V → Option ℕ
  recovered v = find_highest_boot_session v >>= λ highest. some (saturating_add u32_mod highest 1)

  -- The number that the counter gives, or the directory scan.
  abbrev pub first_choice : V → Option ℕ → Option ℕ
  first_choice v none = recovered v
  first_choice v (some value) =
      if leb 1 value && leb value max_boot_session then some value else recovered v

  -- A stale counter is repaired by a scan, when the directory of that number exists.
  abbrev pub without_collision : ℕ → V × Bool → Option ℕ
  without_collision session exists = if exists.1 then recovered exists.0 else some session

  -- `if next_session == 0 || next_session > MAX_BOOT_SESSION { return None; }`
  abbrev pub limited : Option ℕ → Option ℕ
  limited choice = choice >>= λ session. guard (in_range session) >> some session

  abbrev pub checked : V → Option ℕ → V × Option ℕ
  checked v none = (v, none)
  checked v (some session) =
      let exists = boot_session_directory_exists v session in
      (exists.0, limited (without_collision session exists))

  unfoldable pub choose_session : V → V × Option ℕ
  choose_session v =
      let counter = read_boot_session_counter v in
      checked counter.0 (limited (first_choice counter.0 counter.1))

  -- Each step closes the file when it fails.
  abbrev pub closing : V × Bool → V × Bool
  closing (v, true) = dir.close v
  closing (v, false) = ((dir.close v).0, false)

  abbrev pub then_flush : V × Bool → V × Bool
  then_flush (v, true) = closing (dir.flush v)
  then_flush (v, false) = closing (v, false)

  abbrev pub then_write : List ℕ → V × Bool → V × Bool
  then_write contents (v, true) = then_flush (dir.write v contents)
  then_write contents (v, false) = (v, false)

  unfoldable pub write_boot_session_counter : V → ℕ → V × Bool
  write_boot_session_counter v next_session =
      then_write (padded 8 next_session ++ (0x0A ∷ [])) (dir.open_truncated v)

  abbrev pub granted : ℕ → V × Bool → V × Option ℕ
  granted session (v, true) = (v, some session)
  granted session (v, false) = (v, none)

  abbrev pub allocate : V → Option ℕ → V × Option ℕ
  allocate v none = (v, none)
  allocate v (some session) =
      granted session (write_boot_session_counter v (saturating_add u32_mod session 1))

  unfoldable pub allocate_boot_session : V → V × Option ℕ
  allocate_boot_session v = let choice = choose_session v in allocate choice.0 choice.1
