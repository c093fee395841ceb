-- ===== src/System/Persist/Healthy.antt =====
-- `set_name` and `persist_config` of firmware/golfer/src/system.rs on a flash that works.
use golfer.Prelude.{
  ℕ, ◌≡◌, ◌≢◌, refl, ap, subst, ◌∙◌, arith, Bool, true, false, Option, some, List, inl, inr,
  Bool-cases, ◌<◌, ◌^◌, ◌+◌, ◌*◌, ◌%◌, ◌≤◌, false,
}
use golfer.Prelude.Results.{ok}
use golfer.Prelude.Bytes.{same_bytes, same_bytes_iff}
use golfer.System.{
  FlashDriver, System, ConfigSlot, slot_a, slot_b, StoredConfig, IsName, offset, erase_size,
}
use golfer.System.Record.{encode_config_record}
use golfer.System.Record.RoundTrip.{decode-encode_config_record, same_number}
use golfer.System.Persist.{
  target_slot, next_generation, read_slot, persist_config, set_name, renamed, settle_slot,
  after_write, after_erase, init,
}
use golfer.System.Persist.Flash.{FlashLaws, Healthy, length-encode_config_record}
use golfer.System.Persist.Outcome.{stored}
use golfer.System.Persist.Invariant.{Inv}
use golfer.System.Persist.Reload.{init-set_name}

-- The sectors of the slots are whole and lie in the flash.
sector :
    (slot : ConfigSlot)
    → (offset slot % erase_size ≡ 0)
      × ((offset slot + erase_size) % erase_size ≡ 0)
      × (offset slot + erase_size ≤ 4 * 1024 * 1024)
sector slot_a = omega arith
sector slot_b = omega arith

module _ {F : Type 0} (driver : FlashDriver F) where
  after_write-true :
      (target : ConfigSlot) (generation : ℕ) (w : F × Bool) (k : System F)
      → w.1 ≡ true
      → after_write driver target generation w k
        ≡ settle_slot driver target generation
            (read_slot driver w.0 target)
            (record k { flash = w.0 })
  unfolding after_write
  after_write-true target generation (flash, true) k h = refl
  after_write-true target generation (flash, false) k h = cc

  after_erase-true :
      (target : ConfigSlot) (generation : ℕ) (e : F × Bool) (k : System F)
      → e.1 ≡ true
      → after_erase driver target generation e k
        ≡ after_write driver target generation
            (driver.write e.0 (offset target) (encode_config_record k.config generation))
            k
  unfolding after_erase
  after_erase-true target generation (flash, true) k h = refl
  after_erase-true target generation (flash, false) k h = cc

  settle_slot-stored :
      (target : ConfigSlot) (generation : ℕ) (k : System F)
      → settle_slot driver target generation (some (stored target generation k.config.name.value)) k
        ≡ (record k { active_slot = some target; generation = generation }, ok tt)
  unfolding settle_slot
  settle_slot-stored target generation k =
      rw
        (
          same_number generation generation refl,
          (same_bytes_iff k.config.name.value k.config.name.value).1 refl,
        )
        refl

  pub read_slot-written :
      Healthy driver
      → (target : ConfigSlot) (generation : ℕ) (k : System F) → IsName k.config.name.value
      → generation < 2 ^ 32
      → (driver.erase k.flash (offset target) (offset target + erase_size)).1 ≡ true
      → read_slot driver
          (driver.write
            (driver.erase k.flash (offset target) (offset target + erase_size)).0
            (offset target)
            (encode_config_record k.config generation)).0
          target
        ≡ some (stored target generation k.config.name.value)
  unfolding read_slot
  read_slot-written healthy target generation k name fits erased =
      let bytes = encode_config_record k.config generation in
      let size = length-encode_config_record k.config generation in
      let flash =
        (driver.write (driver.erase k.flash (offset target) (offset target + erase_size)).0
          (offset target) bytes).0 in
      let back : driver.read flash (offset target) 256 ≡ some bytes =
        subst (λ (n : ℕ). driver.read flash (offset target) n ≡ some bytes) size
          (healthy.write_read k.flash (offset target) (offset target + erase_size) bytes erased
            (omega (arith, size))) in
      rw (back, decode-encode_config_record k.config generation name fits) refl

  persist_config-ok :
      Healthy driver
      → (k : System F) → IsName k.config.name.value
      → (flash : F) × (persist_config driver k ≡ (
        record k {
          flash = flash;
          active_slot = some (target_slot k.active_slot);
          generation = next_generation k.generation;
        },
        ok tt,
      ))
  unfolding persist_config
  persist_config-ok healthy k name =
      let target = target_slot k.active_slot in
      let generation = next_generation k.generation in
      let erase = driver.erase k.flash (offset target) (offset target + erase_size) in
      let bytes = encode_config_record k.config generation in
      let write = driver.write erase.0 (offset target) bytes in
      let (start, stop, fits) = sector target in
      let erased : erase.1 ≡ true =
        healthy.erase_succeeds k.flash (offset target) (offset target + erase_size) start stop
          (omega arith) fits in
      let written : write.1 ≡ true =
        healthy.write_succeeds erase.0 (offset target) bytes
          (omega (arith, length-encode_config_record k.config generation)) in
      (
        write.0,
        after_erase-true target generation erase k erased
            ∙ after_write-true target generation write k written
            ∙ ap
                (λ (found : Option StoredConfig).
                  settle_slot driver target generation found (record k { flash = write.0 }))
                (read_slot-written healthy target generation k name (omega arith) erased)
            ∙ settle_slot-stored target generation (record k { flash = write.0 }),
      )

  pub set_name_succeeds :
      Healthy driver
      → (k : System F) (name : List ℕ) → IsName name
      → ((set_name driver name k).1 ≡ ok tt) × ((set_name driver name k).0.config.name.value ≡ name)
  unfolding set_name
  set_name_succeeds healthy k name h =
      let (flash, run) = persist_config-ok healthy (renamed driver name k) h in
      elim (Bool-cases (same_bytes k.config.name.value name)) [
        | inl same ↦ rw (h.valid, same) (refl, (same_bytes_iff k.config.name.value name).0 same)
        | inr differs ↦ rw (h.valid, differs, run) (refl, refl)
      ]

  -- On a healthy flash, a device whose generation is below the last one takes every valid name that
  -- is not the one it has: `set_name` succeeds, the device has that name, and the next boot loads
  -- it from the flash, from the slot that was not the active one, with the next generation.
  pub set_name-Healthy :
      Healthy driver
      → FlashLaws driver
      → (k : System F) (name : List ℕ) (system_id : ℕ) (firmware : List ℕ) → Inv driver k
      → IsName name
      → k.generation + 1 < 2 ^ 32
      → k.config.name.value ≢ name
      → let (after, outcome) = set_name driver name k in
        let next = init driver system_id firmware after.flash in
        (outcome ≡ ok tt)
        × (after.config.name.value ≡ name)
        × (next.config.name.value ≡ name)
        × (next.active_slot ≡ some (target_slot k.active_slot))
        × (next.generation ≡ k.generation + 1)
  set_name-Healthy healthy laws k name system_id firmware inv valid fits ne =
      let (success, has) = set_name_succeeds healthy k name valid in
      let boot = init-set_name driver laws k name system_id firmware inv fits ne success in
      (
        success,
        has,
        ap (λ (s : System F). s.config.name.value) boot,
        ap (λ (s : System F). s.active_slot) boot,
        ap (λ (s : System F). s.generation) boot,
      )
