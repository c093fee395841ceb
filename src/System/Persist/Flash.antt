-- ===== src/System/Persist/Flash.antt =====
-- What the flash of the device promises (embassy-rp's blocking driver), and what `persist_config` of
-- firmware/golfer/src/system.rs does to the flash.
use golfer.Prelude.{
  ℕ, ◌+◌, ◌%◌, ◌≤◌, ◌≡◌, ◌⊎◌, inl, inr, refl, ap, arith, not, false, ◌==◌, ◌||◌, Bool, true, Option,
  some, List, length, if-both, length-copy_at, ◌∙◌, none, ◌*◌,
}
use golfer.Prelude.Results.{Result}
use golfer.Prelude.Bytes.{to_le_bytes, same_bytes}
use golfer.System.{
  FlashDriver, System, SystemConfig, ConfigSlot, slot_a, slot_b, offset, StoredConfig, SystemError,
  erase_size,
}
use golfer.System.Record.{unsealed, encode_config_record}
use golfer.System.Persist.{
  target_slot, persist_config, settle_slot, read_slot, after_erase, after_write, next_generation,
}

-- `n` bytes at `i` lie outside the region from `start` to `stop`.
abbrev pub Outside : ℕ → ℕ → ℕ → ℕ → Type 0
Outside start stop i n = (i + n ≤ start) ⊎ (stop ≤ i)

-- `n` bytes at `i` lie in the firmware's part of the flash, or in the sector of the active slot: slot
-- A has the sector at 4032 KiB, slot B the next one.
abbrev pub Protected : Option ConfigSlot → ℕ → ℕ → Type 0
Protected none i n = i + n ≤ 4032 * 1024
Protected (some slot_a) i n = (i + n ≤ 4032 * 1024) ⊎ ((4032 * 1024 ≤ i) × (i + n ≤ 4036 * 1024))
Protected (some slot_b) i n = (i + n ≤ 4032 * 1024) ⊎ ((4036 * 1024 ≤ i) × (i + n ≤ 4040 * 1024))

-- Erasing and writing, whether they succeed or fail, leave the bytes outside their region alone.
pub record FlashLaws {F : Type 0} (driver : FlashDriver F) : Type 0 where
  pub erase_elsewhere :
      (flash : F) (start stop i n : ℕ)
      → Outside start stop i n
      → driver.read (driver.erase flash start stop).0 i n ≡ driver.read flash i n
  pub write_elsewhere :
      (flash : F) (start : ℕ) (bytes : List ℕ) (i n : ℕ)
      → Outside start (start + length bytes) i n
      → driver.read (driver.write flash start bytes).0 i n ≡ driver.read flash i n

-- A healthy flash: an erase of whole sectors and a write succeed, and what is written on an erased
-- region is read back.
pub record Healthy {F : Type 0} (driver : FlashDriver F) : Type 0 where
  pub erase_succeeds :
      (flash : F) (start stop : ℕ)
      → start % erase_size ≡ 0
      → stop % erase_size ≡ 0
      → start ≤ stop
      → stop ≤ 4 * 1024 * 1024
      → (driver.erase flash start stop).1 ≡ true
  pub write_succeeds :
      (flash : F) (start : ℕ) (bytes : List ℕ)
      → start + length bytes ≤ 4 * 1024 * 1024
      → (driver.write flash start bytes).1 ≡ true
  pub write_read :
      (flash : F) (start stop : ℕ) (bytes : List ℕ)
      → (driver.erase flash start stop).1 ≡ true
      → start + length bytes ≤ stop
      → driver.read
          (driver.write (driver.erase flash start stop).0 start bytes).0
          start
          (length bytes)
        ≡ some bytes

pub length-encode_config_record :
    (config : SystemConfig) (generation : ℕ) → length (encode_config_record config generation) ≡ 256
unfolding encode_config_record unsealed
length-encode_config_record config generation =
    length-copy_at _ 44 (to_le_bytes 4 _) ∙ length-copy_at _ 12 config.name.value

settle_slot-flash :
    {F : Type 0} (driver : FlashDriver F) (target : ConfigSlot) (generation : ℕ)
    (found : Option StoredConfig) (k : System F)
    → (settle_slot driver target generation found k).0.flash ≡ k.flash
unfolding settle_slot
settle_slot-flash driver target generation none k = refl
settle_slot-flash {F} driver target generation (some verified) k =
    if-both (λ (r : System F × Result SystemError (Unit {0})). r.0.flash ≡ k.flash)
      (not (verified.generation == generation)
        || not (same_bytes verified.config.name.value k.config.name.value))
      refl refl

module _ {F : Type 0} (driver : FlashDriver F) where
  after_write-flash :
      (target : ConfigSlot) (generation : ℕ) (w : F × Bool) (k : System F)
      → (after_write driver target generation w k).0.flash ≡ w.0
  unfolding after_write
  after_write-flash target generation (flash, false) k = refl
  after_write-flash target generation (flash, true) k =
      settle_slot-flash driver target generation (read_slot driver flash target)
        (record k { flash = flash })

  after_erase-elsewhere :
      (target : ConfigSlot) (generation : ℕ) (e : F × Bool) (k : System F) (i n : ℕ)
      → FlashLaws driver
      → Outside (offset target) (offset target + erase_size) i n
      → driver.read (after_erase driver target generation e k).0.flash i n ≡ driver.read e.0 i n
  unfolding after_erase
  after_erase-elsewhere target generation (flash, false) k i n laws outside = refl
  after_erase-elsewhere target generation (flash, true) k i n laws outside =
      let bytes = encode_config_record k.config generation in
      let size = length-encode_config_record k.config generation in
      let apart : Outside (offset target) (offset target + length bytes) i n = elim outside [
        | inl before ↦ inl before
        | inr behind ↦ inr (omega (arith, size))
      ] in
      ap (λ (f : F). driver.read f i n)
        (after_write-flash target generation (driver.write flash (offset target) bytes) k)
      ∙ laws.write_elsewhere flash (offset target) bytes i n apart

  -- The sector of the target slot is all that `persist_config` touches.
  pub persist_config-target :
      FlashLaws driver
      → (k : System F) (i n : ℕ)
      → Outside
          (offset (target_slot k.active_slot))
          (offset (target_slot k.active_slot) + erase_size)
          i
          n
      → driver.read (persist_config driver k).0.flash i n ≡ driver.read k.flash i n
  unfolding persist_config
  persist_config-target laws k i n outside =
      let target = target_slot k.active_slot in
      let erased = driver.erase k.flash (offset target) (offset target + erase_size) in
      after_erase-elsewhere target (next_generation k.generation) erased k i n laws outside
      ∙ laws.erase_elsewhere k.flash (offset target) (offset target + erase_size) i n outside

  target-Outside :
      (active : Option ConfigSlot) (i n : ℕ)
      → Protected active i n
      → Outside (offset (target_slot active)) (offset (target_slot active) + erase_size) i n
  target-Outside none i n below = inl below
  target-Outside (some slot_a) i n (inl below) = inl (omega arith)
  target-Outside (some slot_a) i n (inr inside) = inl (omega arith)
  target-Outside (some slot_b) i n (inl below) = inl below
  target-Outside (some slot_b) i n (inr inside) = inr (omega arith)

  -- `persist_config`, whatever its outcome and whatever its operations on the flash left behind,
  -- keeps the `n` bytes at `i` when they lie in the firmware's part of the flash, the first 4032
  -- KiB, or in the sector of the active slot.
  pub persist_config-elsewhere :
      FlashLaws driver
      → (k : System F) (i n : ℕ) → Protected k.active_slot i n
      → driver.read (persist_config driver k).0.flash i n ≡ driver.read k.flash i n
  persist_config-elsewhere laws k i n kept =
      persist_config-target laws k i n (target-Outside k.active_slot i n kept)
