-- ===== src/System/Persist/Reload.antt =====
-- What a boot finds after `set_name` (firmware/golfer/src/system.rs).
use golfer.Prelude.{
  ℕ, ◌≡◌, ◌≢◌, refl, ap, sym, subst, ◌∙◌, arith, false, Option, none, some, List, inl, inr,
  Bool-cases, ◌+◌, ◌<◌, ◌^◌, ◌-◌, lt→ltb, ge→ltb,
}
use golfer.Prelude.Results.{Result, ok, err}
use golfer.Prelude.Bytes.{same_bytes, same_bytes_iff}
use golfer.System.{
  FlashDriver, System, SystemConfig, ConfigSlot, slot_a, slot_b, other, StoredConfig, SystemError,
  make_name,
}
use golfer.System.Record.{config_of}
use golfer.System.Record.Decoded.{make_name-ok}
use golfer.System.Persist.{
  target_slot, next_generation, read_slot, persist_config, set_name, store_name, roll_back, renamed,
  newest_slot, stored_config, init, info_of,
}
use golfer.System.Persist.Flash.{FlashLaws}
use golfer.System.Persist.Outcome.{stored, Persisted, persist_config-Outcome}
use golfer.System.Persist.Invariant.{Inv, Holds, read_slot-persist_config}

module _ {F : Type 0} (driver : FlashDriver F) where
  -- The device that a boot makes of a slot.
  abbrev pub loaded : ℕ → List ℕ → F → ConfigSlot → ℕ → List ℕ → System F
  loaded system_id firmware flash slot generation name = record {
    info = info_of system_id firmware;
    config = config_of name;
    flash = flash;
    active_slot = some slot;
    generation = generation;
  }

  pub init-loaded :
      (system_id : ℕ) (firmware : List ℕ) (flash : F) (slot : ConfigSlot) (generation : ℕ)
      (name : List ℕ)
      → stored_config driver flash ≡ some (stored slot generation name)
      → init driver system_id firmware flash ≡ loaded system_id firmware flash slot generation name
  unfolding init
  init-loaded system_id firmware flash slot generation name h = rw h refl

  -- The slot with the later generation is loaded, whichever it is.
  pub newest_slot-later :
      (flash : F) (slot : ConfigSlot) (later earlier : ℕ) (name old : List ℕ)
      → read_slot driver flash slot ≡ some (stored slot later name)
      → read_slot driver flash (other slot) ≡ some (stored (other slot) earlier old)
      → earlier < later
      → stored_config driver flash ≡ some (stored slot later name)
  unfolding stored_config newest_slot
  newest_slot-later flash slot_a later earlier name old h h' lt =
      rw (h, h', ge→ltb later earlier (omega arith)) refl
  newest_slot-later flash slot_b later earlier name old h h' lt =
      rw (h, h', lt→ltb earlier later lt) refl

  pub newest_slot-only :
      (flash : F) (slot : ConfigSlot) (found : StoredConfig)
      → read_slot driver flash slot ≡ some found
      → read_slot driver flash (other slot) ≡ none
      → stored_config driver flash ≡ some found
  unfolding stored_config newest_slot
  newest_slot-only flash slot_a found h empty = rw (h, empty) refl
  newest_slot-only flash slot_b found h empty = rw (h, empty) refl

  store_name-made :
      (made : Result SystemError (List ℕ)) (k : System F)
      → (store_name driver made k).1 ≡ ok tt
      → (value : List ℕ) × (made ≡ ok value)
  store_name-made (ok value) k success = (value, refl)
  store_name-made (err e) k success = cc

  roll_back-ok :
      (k : System F) (previous : SystemConfig)
      → (roll_back driver previous (persist_config driver k)).1 ≡ ok tt
      → Persisted driver
          (target_slot k.active_slot)
          (next_generation k.generation)
          k
          (persist_config driver k)
        × ((roll_back driver previous (persist_config driver k)).0 ≡ (persist_config driver k).0)
  roll_back-ok k previous success = elim (persist_config-Outcome driver k) [
    | inl (flash, e, same) ↦
        let failed : err e ≡ ok tt =
          sym (
            ap (λ (r : System F × Result SystemError (Unit {0})). (roll_back driver previous r).1)
              same)
          ∙ success in
        cc
    | inr (flash, same, read) ↦ (
      (flash, same, read),
      ap (λ (r : System F × Result SystemError (Unit {0})). (roll_back driver previous r).0) same
          ∙ sym (ap (λ (r : System F × Result SystemError (Unit {0})). r.0) same),
    )
  ]

  -- A success of `set_name` with a new name is a success of `persist_config`.
  set_name-ok :
      (k : System F) (name : List ℕ)
      → k.config.name.value ≢ name
      → (set_name driver name k).1 ≡ ok tt
      → Persisted driver
          (target_slot k.active_slot)
          (next_generation k.generation)
          (renamed driver name k)
          (persist_config driver (renamed driver name k))
        × ((set_name driver name k).0 ≡ (persist_config driver (renamed driver name k)).0)
  unfolding set_name
  set_name-ok k name ne success =
      let (value, made) = store_name-made (make_name name) k success in
      let valid = made ∙ ap (λ (t : List ℕ). ok t) (sym (make_name-ok name made)) in
      let differs : same_bytes k.config.name.value name ≡ false =
        elim (Bool-cases (same_bytes k.config.name.value name)) [
          | inl same ↦ absurd (ne ((same_bytes_iff k.config.name.value name).0 same))
          | inr differs ↦ differs
        ] in
      let run : store_name driver (make_name name) k
          ≡ roll_back driver k.config (persist_config driver (renamed driver name k)) =
        rw (valid, differs) refl in
      let (persisted, same) =
        roll_back-ok (renamed driver name k) k.config
          (sym (ap (λ (r : System F × Result SystemError (Unit {0})). r.1) run) ∙ success) in
      (persisted, ap (λ (r : System F × Result SystemError (Unit {0})). r.0) run ∙ same)

  -- The slots after a success: the target holds the new name, the other slot what it held.
  set_name-slots :
      FlashLaws driver
      → (k : System F) (name : List ℕ) → k.config.name.value ≢ name
      → (set_name driver name k).1 ≡ ok tt
      → (read_slot driver (set_name driver name k).0.flash (target_slot k.active_slot)
          ≡ some (stored (target_slot k.active_slot) (next_generation k.generation) name))
        × (read_slot driver (set_name driver name k).0.flash (other (target_slot k.active_slot))
            ≡ read_slot driver k.flash (other (target_slot k.active_slot)))
  set_name-slots laws k name ne success =
      let ((flash, result, read), same) = set_name-ok k name ne success in
      let kept = read_slot-persist_config driver laws (renamed driver name k) in
      let at : (set_name driver name k).0.flash ≡ flash =
        ap (λ (s : System F). s.flash) same
        ∙ ap (λ (r : System F × Result SystemError (Unit {0})). r.0.flash) result in
      (
        ap (λ (f : F). read_slot driver f (target_slot k.active_slot)) at ∙ read,
        ap (λ (s : System F). read_slot driver s.flash (other (target_slot k.active_slot))) same
            ∙ kept,
      )

  -- The slots, by the active slot.
  stored_config-set_name :
      (k : System F) (flash : F) (active : Option ConfigSlot) (name : List ℕ)
      → k.generation + 1 < 2 ^ 32
      → Holds driver k.flash k.generation k.config.name.value active
      → read_slot driver flash (target_slot active)
        ≡ some (stored (target_slot active) (next_generation k.generation) name)
      → read_slot driver flash (other (target_slot active))
        ≡ read_slot driver k.flash (other (target_slot active))
      → stored_config driver flash
        ≡ some (stored (target_slot active) (next_generation k.generation) name)
  stored_config-set_name k flash none name fits holds read kept =
      newest_slot-only flash slot_a _ read (kept ∙ holds.1)
  stored_config-set_name k flash (some slot_a) name fits holds read kept =
      newest_slot-later flash slot_b (next_generation k.generation) k.generation name
        k.config.name.value read (kept ∙ holds) (omega arith)
  stored_config-set_name k flash (some slot_b) name fits holds read kept =
      newest_slot-later flash slot_a (next_generation k.generation) k.generation name
        k.config.name.value read (kept ∙ holds) (omega arith)

  -- After `set_name` has succeeded with a new name, on a device whose generation is below the last
  -- one, the next boot loads that name, from the slot that was not the active one, with the next
  -- generation.
  pub init-set_name :
      FlashLaws driver
      → (k : System F) (name : List ℕ) (system_id : ℕ) (firmware : List ℕ) → Inv driver k
      → k.generation + 1 < 2 ^ 32
      → k.config.name.value ≢ name
      → (set_name driver name k).1 ≡ ok tt
      → init driver system_id firmware (set_name driver name k).0.flash
        ≡ loaded system_id firmware
            (set_name driver name k).0.flash
            (target_slot k.active_slot)
            (k.generation + 1)
            name
  init-set_name laws k name system_id firmware inv fits ne success =
      let flash = (set_name driver name k).0.flash in
      let (read, kept) = set_name-slots laws k name ne success in
      let next : next_generation k.generation ≡ k.generation + 1 = omega arith in
      init-loaded system_id firmware flash (target_slot k.active_slot)
        (next_generation k.generation) name
        (stored_config-set_name k flash k.active_slot name fits inv.holds read kept)
      ∙ ap (λ (g : ℕ). loaded system_id firmware flash (target_slot k.active_slot) g name) next

  newest_slot-wrapped :
      (k : System F) (flash : F) (slot : ConfigSlot) (name : List ℕ)
      → k.generation ≡ 2 ^ 32 - 1
      → Holds driver k.flash k.generation k.config.name.value (some slot)
      → read_slot driver flash (other slot)
        ≡ some (stored (other slot) (next_generation k.generation) name)
      → read_slot driver flash (other (other slot)) ≡ read_slot driver k.flash (other (other slot))
      → stored_config driver flash ≡ some (stored slot k.generation k.config.name.value)
  newest_slot-wrapped k flash slot_a name last holds read kept =
      newest_slot-later flash slot_a k.generation (next_generation k.generation) k.config.name.value
        name (kept ∙ holds) read (omega arith)
  newest_slot-wrapped k flash slot_b name last holds read kept =
      newest_slot-later flash slot_b k.generation (next_generation k.generation) k.config.name.value
        name (kept ∙ holds) read (omega arith)

  -- At the last generation, 2^32 - 1, `set_name` reports success for a new name, but the next boot
  -- loads the old name: the generation wraps to 1, and the slots are compared by generation.
  pub init-set_name_wrapped :
      FlashLaws driver
      → (k : System F) (slot : ConfigSlot) (name : List ℕ) (system_id : ℕ) (firmware : List ℕ)
      → Inv driver k
      → k.active_slot ≡ some slot
      → k.generation ≡ 2 ^ 32 - 1
      → k.config.name.value ≢ name
      → (set_name driver name k).1 ≡ ok tt
      → (init driver system_id firmware (set_name driver name k).0.flash).config
        ≡ config_of k.config.name.value
  init-set_name_wrapped laws k slot name system_id firmware inv active last ne success =
      let flash = (set_name driver name k).0.flash in
      let (read, kept) = set_name-slots laws k name ne success in
      let P : Option ConfigSlot → Type 0 = λ a.
        (read_slot driver flash (target_slot a)
          ≡ some (stored (target_slot a) (next_generation k.generation) name))
        × (read_slot driver flash (other (target_slot a))
            ≡ read_slot driver k.flash (other (target_slot a)))
        × Holds driver k.flash k.generation k.config.name.value a in
      let at : P (some slot) = subst P active (read, kept, inv.holds) in
      ap (λ (s : System F). s.config)
        (init-loaded system_id firmware flash slot k.generation k.config.name.value
          (newest_slot-wrapped k flash slot name last at.2 at.0 at.1))
