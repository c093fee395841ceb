-- ===== src/System/Persist/Outcome.antt =====
-- The outcomes of `persist_config` and `set_name` of firmware/golfer/src/system.rs.
use golfer.Prelude.{
  ℕ, ◌≡◌, refl, ap, sym, ◌∙◌, arith, not, ◌||◌, ◌==◌, Bool, true, false, Option, none, some, List,
  ◌⊎◌, inl, inr, >>=-eq-some, some-eq, Bool-cases, ◌>>=◌,
}
use golfer.Prelude.Results.{Result, ok, err}
use golfer.Prelude.Bytes.{same_bytes, same_bytes_iff}
use golfer.System.{
  FlashDriver, System, SystemConfig, ConfigSlot, offset, StoredConfig, SystemError, IsName,
  config_record_size, flash_erase, flash_write, flash_verify,
}
use golfer.System.Record.{config_of, decode_config_record}
use golfer.System.Record.Decoded.{decode_config_record-config}
use golfer.System.Persist.{
  target_slot, next_generation, read_slot, settle_slot, after_write, after_erase, persist_config,
}

-- A slot that holds a name under a generation.
abbrev pub stored : ConfigSlot → ℕ → List ℕ → StoredConfig
stored slot generation name = record {
  slot = slot;
  generation = generation;
  config = config_of name;
}

module _ {F : Type 0} (driver : FlashDriver F) where
  -- What is read from a slot has the slot's label and a valid name.
  pub read_slot-stored :
      (flash : F) (slot : ConfigSlot) {found : StoredConfig}
      → read_slot driver flash slot ≡ some found
      → (name : List ℕ) × (found ≡ stored slot found.generation name) × IsName name
  unfolding read_slot
  read_slot-stored flash slot {found} h =
      let label : ℕ × SystemConfig → StoredConfig =
        λ p. record { slot = slot; generation = p.0; config = p.1 } in
      let (bytes, _, h1) =
        >>=-eq-some (driver.read flash (offset slot) config_record_size)
          (λ bytes. decode_config_record bytes >>= λ p. some (label p)) h in
      let (p, decoded, h2) = >>=-eq-some (decode_config_record bytes) (λ p. some (label p)) h1 in
      let (name, e, valid) = decode_config_record-config bytes decoded in
      let same : label p ≡ found = some-eq h2 in
      let shape : label p ≡ stored slot p.0 name = ap (λ (c : SystemConfig). label (p.0, c)) e in
      (
        name,
        sym same
            ∙ shape
            ∙ ap (λ (g : ℕ). stored slot g name) (ap (λ (t : StoredConfig). t.generation) same),
        valid,
      )

  -- The device after a failure: only the flash may differ.
  abbrev pub Failed : System F → System F × Result SystemError (Unit {0}) → Type 0
  Failed k r = (flash : F) × (e : SystemError) × (r ≡ (record k { flash = flash }, err e))

  -- The device after a success: the slot reads back, and is the active one.
  abbrev pub Persisted :
      ConfigSlot → ℕ → System F → System F × Result SystemError (Unit {0}) → Type 0
  Persisted target generation k r =
      (flash : F) × (r
        ≡ (record k { flash = flash; active_slot = some target; generation = generation }, ok tt))
      × (read_slot driver flash target ≡ some (stored target generation k.config.name.value))

  -- The check after the write compares all that a slot holds.
  verified-stored :
      (target : ConfigSlot) (generation : ℕ) (flash : F) (found : StoredConfig) (name : List ℕ)
      → read_slot driver flash target ≡ some found
      → not (found.generation == generation) || not (same_bytes found.config.name.value name)
        ≡ false
      → found ≡ stored target generation name
  verified-stored target generation flash found name h pass =
      let (held, shape, _) = read_slot-stored flash target h in
      let same_generation : found.generation ≡ generation = ground arith in
      let same_name : found.config.name.value ≡ name =
        ground (arith, same_bytes_iff found.config.name.value name) in
      let held_name : held ≡ name =
        sym (ap (λ (t : StoredConfig). t.config.name.value) shape) ∙ same_name in
      shape
      ∙ ap (λ (g : ℕ). stored target g held) same_generation
      ∙ ap (λ (n : List ℕ). stored target generation n) held_name

  settle_slot-Outcome :
      (target : ConfigSlot) (generation : ℕ) (flash : F) (found : Option StoredConfig)
      (k : System F)
      → read_slot driver flash target ≡ found
      → Failed k (settle_slot driver target generation found (record k { flash = flash }))
        ⊎ Persisted target generation k
            (settle_slot driver target generation found (record k { flash = flash }))
  unfolding settle_slot
  settle_slot-Outcome target generation flash none k h = inl (flash, flash_verify, refl)
  settle_slot-Outcome target generation flash (some found) k h =
      let name = k.config.name.value in
      elim (Bool-cases
        (not (found.generation == generation) || not (same_bytes found.config.name.value name))) [
          | inl differs ↦ rw differs (inl (flash, flash_verify, refl))
          | inr pass ↦
              let e = verified-stored target generation flash found name h pass in
              rw pass (inr (flash, refl, h ∙ ap (λ (t : StoredConfig). some t) e))
        ]

  after_write-Outcome :
      (target : ConfigSlot) (generation : ℕ) (w : F × Bool) (k : System F)
      → Failed k (after_write driver target generation w k)
        ⊎ Persisted target generation k (after_write driver target generation w k)
  unfolding after_write
  after_write-Outcome target generation (flash, false) k = inl (flash, flash_write, refl)
  after_write-Outcome target generation (flash, true) k =
      settle_slot-Outcome target generation flash (read_slot driver flash target) k refl

  after_erase-Outcome :
      (target : ConfigSlot) (generation : ℕ) (e : F × Bool) (k : System F)
      → Failed k (after_erase driver target generation e k)
        ⊎ Persisted target generation k (after_erase driver target generation e k)
  unfolding after_erase
  after_erase-Outcome target generation (flash, false) k = inl (flash, flash_erase, refl)
  after_erase-Outcome target generation (flash, true) k = after_write-Outcome target generation _ k

  pub persist_config-Outcome :
      (k : System F)
      → Failed k (persist_config driver k)
        ⊎ Persisted
            (target_slot k.active_slot)
            (next_generation k.generation)
            k
            (persist_config driver k)
  unfolding persist_config
  persist_config-Outcome k =
      after_erase-Outcome (target_slot k.active_slot) (next_generation k.generation) _ k
