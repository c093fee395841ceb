-- ===== src/System/Persist.antt =====
-- Loading and persisting the configuration: `read_slot`, `newest_slot`, `persist_config`, `set_name`
-- and `init` of firmware/golfer/src/system.rs. The log lines are left out.
pub mod Flash
pub mod Outcome
pub mod Invariant
pub mod Reload
pub mod Torn
pub mod Healthy
use golfer.Prelude.Format.{hex_upper}
use golfer.Prelude.{
  ℕ, zero, suc, ◌+◌, ◌-◌, ◌*◌, ◌/◌, ◌%◌, ◌^◌, max, not, ◌||◌, Bool, true, false, Option, none, some,
  List, [], ◌∷◌, ◌++◌, ◌==◌, ltb, if◌then◌else◌, ◌>>=◌, u32_mod,
}
use golfer.Prelude.Bytes.{same_bytes}
use golfer.Prelude.Results.{Result, ok, err}
use golfer.System.{
  SystemConfig, SystemInfo, SystemField, read_only, ConfigSlot, slot_a, slot_b, offset, other,
  StoredConfig, SystemError, flash_erase, flash_write, flash_verify, FlashDriver, System, make_name,
  config_slot_size, config_record_size, config_version,
}
use golfer.System.Record.{encode_config_record, decode_config_record, config_of}

-- The later generation, slot A on a tie.
unfoldable pub newest_slot : Option StoredConfig → Option StoredConfig → Option StoredConfig
newest_slot (some a) (some b) = if ltb a.generation b.generation then some b else some a
newest_slot (some a) none = some a
newest_slot none (some b) = some b
newest_slot none none = none

-- `self.active_slot.map(ConfigSlot::other).unwrap_or(ConfigSlot::A)`
abbrev pub target_slot : Option ConfigSlot → ConfigSlot
target_slot none = slot_a
target_slot (some slot) = other slot

-- `self.generation.wrapping_add(1).max(1)`
abbrev pub next_generation : ℕ → ℕ
next_generation generation = max ((generation + 1) % u32_mod) 1

unfoldable pub default_name : ℕ → List ℕ
default_name system_id = hex_upper 8 (system_id % u32_mod)

abbrev pub info_of : ℕ → List ℕ → SystemInfo
info_of system_id firmware = record {
  system_id = record { value = system_id; access = read_only };
  firmware_version = record { value = firmware; access = read_only };
  protocol_version = record { value = 1; access = read_only };
  config_version = record { value = config_version; access = read_only };
}

module _ {F : Type 0} (driver : FlashDriver F) where
  unfoldable pub read_slot : F → ConfigSlot → Option StoredConfig
  read_slot flash slot = driver.read flash (offset slot) config_record_size >>= λ bytes.
      decode_config_record bytes >>= λ found.
      some (record { slot = slot; generation = found.0; config = found.1 })

  -- The check of what was written, and the update of the bookkeeping.
  unfoldable pub settle_slot :
      ConfigSlot → ℕ → Option StoredConfig → System F → System F × Result SystemError (Unit {0})
  settle_slot target generation none k = (k, err flash_verify)
  settle_slot target generation (some verified) k =
      if not (verified.generation == generation)
        || not (same_bytes verified.config.name.value k.config.name.value)
      then (k, err flash_verify)
      else (record k { active_slot = some target; generation = generation }, ok tt)

  -- What follows `blocking_write`, and `blocking_erase`.
  unfoldable pub after_write :
      ConfigSlot → ℕ → F × Bool → System F → System F × Result SystemError (Unit {0})
  after_write target generation (flash, false) k = (record k { flash = flash }, err flash_write)
  after_write target generation (flash, true) k =
      settle_slot target generation (read_slot flash target) (record k { flash = flash })

  unfoldable pub after_erase :
      ConfigSlot → ℕ → F × Bool → System F → System F × Result SystemError (Unit {0})
  after_erase target generation (flash, false) k = (record k { flash = flash }, err flash_erase)
  after_erase target generation (flash, true) k =
      let bytes = encode_config_record k.config generation in
      after_write target generation (driver.write flash (offset target) bytes) k

  unfoldable pub persist_config : System F → System F × Result SystemError (Unit {0})
  persist_config k =
      let target = target_slot k.active_slot in
      after_erase target (next_generation k.generation)
        (driver.erase k.flash (offset target) (offset target + config_slot_size)) k

  -- `self.config = previous` after a failure.
  abbrev pub roll_back :
      SystemConfig
      → System F × Result SystemError (Unit {0})
      → System F × Result SystemError (Unit {0})
  roll_back previous (k, ok u) = (k, ok u)
  roll_back previous (k, err e) = (record k { config = previous }, err e)

  -- `self.config.name.value = new_name`
  abbrev pub renamed : List ℕ → System F → System F
  renamed name k = record k {
    config = record k.config { name = record k.config.name { value = name } };
  }

  abbrev pub store_name :
      Result SystemError (List ℕ) → System F → System F × Result SystemError (Unit {0})
  store_name (err e) k = (k, err e)
  store_name (ok name) k =
      if same_bytes k.config.name.value name
      then (k, ok tt)
      else roll_back k.config (persist_config (renamed name k))

  unfoldable pub set_name : List ℕ → System F → System F × Result SystemError (Unit {0})
  set_name name k = store_name (make_name name) k

  -- The configuration that a boot finds in the flash.
  unfoldable pub stored_config : F → Option StoredConfig
  stored_config flash = newest_slot (read_slot flash slot_a) (read_slot flash slot_b)

  abbrev pub factory_fresh : SystemInfo → F → System F
  factory_fresh info flash = record {
    info = info;
    config = config_of (default_name info.system_id.value);
    flash = flash;
    active_slot = none;
    generation = 0;
  }

  abbrev pub booted : SystemInfo → F → Option StoredConfig → System F
  booted info flash (some stored) = record {
    info = info;
    config = stored.config;
    flash = flash;
    active_slot = some stored.slot;
    generation = stored.generation;
  }
  booted info flash none = (persist_config (factory_fresh info flash)).0

  -- `init`, with the hardware ID and the version of the firmware.
  unfoldable pub init : ℕ → List ℕ → F → System F
  init system_id firmware flash = booted (info_of system_id firmware) flash (stored_config flash)
