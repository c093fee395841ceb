-- ===== src/System.antt =====
-- The identity and the configuration of the device, firmware/golfer/src/system.rs. A text is the
-- list of its bytes. The flash driver of embassy-rp is a record of its operations, `FlashDriver`.
pub mod Record
pub mod Persist
mod Tests
use golfer.Prelude.{
  ℕ, ◌+◌, ◌*◌, Bool, ◌||◌, Option, List, [], ◌∷◌, length, ltb, ◌==◌, if◌then◌else◌, some, ◌≡◌,
}
use golfer.Prelude.Results.{Result, ok, err}
use golfer.Prelude.Utf8.{from_utf8, chars, is_control, is_whitespace, all_chars, any_char}

abbrev pub config_version : ℕ
config_version = 1

abbrev pub max_name_bytes : ℕ
max_name_bytes = 32

-- `ERASE_SIZE` and `PAGE_SIZE` of the RP2350's flash.
abbrev pub erase_size : ℕ
erase_size = 4096

abbrev page_size : ℕ
page_size = 256

abbrev persistent_region_offset : ℕ
persistent_region_offset = 4032 * 1024

abbrev config_slot_a_offset : ℕ
config_slot_a_offset = persistent_region_offset

abbrev config_slot_b_offset : ℕ
config_slot_b_offset = persistent_region_offset + erase_size

abbrev pub config_slot_size : ℕ
config_slot_size = erase_size

abbrev pub config_record_size : ℕ
config_record_size = page_size

pub data FieldAccess : Type 0 where
  read_only read_write : FieldAccess

pub record SystemField (T : Type 0) : Type 0 where
  pub value : T
  pub access : FieldAccess

pub record SystemInfo : Type 0 where
  pub system_id : SystemField ℕ
  pub firmware_version : SystemField (List ℕ)
  pub protocol_version : SystemField ℕ
  pub config_version : SystemField ℕ

pub record SystemConfig : Type 0 where
  pub name : SystemField (List ℕ)

-- The slots `A` and `B`.
pub data ConfigSlot : Type 0 where
  slot_a slot_b : ConfigSlot

abbrev pub offset : ConfigSlot → ℕ
offset slot_a = config_slot_a_offset
offset slot_b = config_slot_b_offset

abbrev pub other : ConfigSlot → ConfigSlot
other slot_a = slot_b
other slot_b = slot_a

pub record StoredConfig : Type 0 where
  pub slot : ConfigSlot
  pub generation : ℕ
  pub config : SystemConfig

pub data SystemError : Type 0 where
  name_empty name_too_long name_contains_control flash_erase flash_write flash_verify : SystemError

-- The blocking operations of the flash: `erase from to`, `write offset bytes` with the outcome, which
-- is true for `Ok`, beside the flash that they leave behind, and `read offset length`.
pub record FlashDriver (F : Type 0) : Type 0 where
  pub erase : F → ℕ → ℕ → F × Bool
  pub write : F → ℕ → List ℕ → F × Bool
  pub read : F → ℕ → ℕ → Option (List ℕ)

pub record System (F : Type 0) : Type 0 where
  pub info : SystemInfo
  pub config : SystemConfig
  pub flash : F
  pub active_slot : Option ConfigSlot
  pub generation : ℕ

unfoldable pub make_name : List ℕ → Result SystemError (List ℕ)
make_name name =
    if length name == 0 || all_chars is_whitespace (chars name)
    then err name_empty
    else if ltb max_name_bytes (length name)
    then err name_too_long
    else if any_char is_control (chars name)
    then err name_contains_control
    else ok name

-- A name as the device holds it: UTF-8 that `make_name` accepts.
pub record IsName (name : List ℕ) : Type 0 where
  pub utf8 : from_utf8 name ≡ some name
  pub valid : make_name name ≡ ok name
