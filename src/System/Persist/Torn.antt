-- ===== src/System/Persist/Torn.antt =====
-- What a boot finds after `set_name` of firmware/golfer/src/system.rs when the flash fails in it, or the
-- power.
use golfer.Prelude.{
  ℕ, ◌≡◌, refl, ap, subst, ◌∙◌, arith, Option, none, some, List, inl, inr, Bool-cases, ◌≤◌, ◌⊎◌,
  ltb, ltb→lt, if-both,
}
use golfer.Prelude.Results.{Result, ok, err}
use golfer.Prelude.Bytes.{same_bytes}
use golfer.System.{
  FlashDriver, System, SystemConfig, ConfigSlot, slot_a, slot_b, other, StoredConfig, SystemError,
  make_name,
}
use golfer.System.Persist.{
  target_slot, read_slot, persist_config, set_name, store_name, roll_back, renamed, stored_config,
  init,
}
use golfer.System.Persist.Flash.{FlashLaws}
use golfer.System.Persist.Outcome.{stored, read_slot-stored}
use golfer.System.Persist.Invariant.{Inv, Holds, read_slot-persist_config}
use golfer.System.Persist.Reload.{loaded, init-loaded, newest_slot-later, newest_slot-only}

-- A record that a boot may prefer to one of that generation.
abbrev pub Supersedes : ℕ → Option StoredConfig → Type 0
Supersedes generation none = ⊥
Supersedes generation (some found) = generation ≤ found.generation

module _ {F : Type 0} (driver : FlashDriver F) where
  roll_back-flash :
      (previous : SystemConfig) (r : System F × Result SystemError (Unit {0}))
      → (roll_back driver previous r).0.flash ≡ r.0.flash
  roll_back-flash previous (k, ok u) = refl
  roll_back-flash previous (k, err e) = refl

  store_name-active :
      FlashLaws driver
      → (k : System F) (made : Result SystemError (List ℕ))
      → read_slot driver (store_name driver made k).0.flash (other (target_slot k.active_slot))
        ≡ read_slot driver k.flash (other (target_slot k.active_slot))
  store_name-active laws k (err e) = refl
  store_name-active laws k (ok name) =
      let slot = other (target_slot k.active_slot) in
      if-both
        (λ (r : System F × Result SystemError (Unit {0})).
          read_slot driver r.0.flash slot ≡ read_slot driver k.flash slot)
        (same_bytes k.config.name.value name) refl
        (ap (λ (f : F). read_slot driver f slot)
            (roll_back-flash k.config (persist_config driver (renamed driver name k)))
          ∙ read_slot-persist_config driver laws (renamed driver name k))

  other_target : (slot : ConfigSlot) → other (target_slot (some slot)) ≡ slot
  other_target slot_a = refl
  other_target slot_b = refl

  -- Whatever the other slot holds, unless it is a record with a generation that is not earlier.
  newest_slot-kept :
      (flash : F) (slot : ConfigSlot) (generation : ℕ) (name : List ℕ) (found : Option StoredConfig)
      → read_slot driver flash slot ≡ some (stored slot generation name)
      → read_slot driver flash (other slot) ≡ found
      → (stored_config driver flash ≡ some (stored slot generation name))
        ⊎ Supersedes generation found
  newest_slot-kept flash slot generation name none h e =
      inl (newest_slot-only driver flash slot _ h e)
  newest_slot-kept flash slot generation name (some found) h e =
      elim (Bool-cases (ltb found.generation generation)) [
        | inl earlier ↦
            let (old, shape, _) = read_slot-stored driver flash (other slot) e in
            inl (
              newest_slot-later driver flash slot generation found.generation name old h
                (e ∙ ap (λ (t : StoredConfig). some t) shape)
                (ltb→lt found.generation generation earlier))
        | inr late ↦ inr (ground arith)
      ]

  -- Whatever name is asked for and however the operations on the flash end, also when they leave
  -- anything at all in the sector that they work on, as at a loss of power: on a device with an
  -- active slot, after `set_name` the next boot loads the name that the device had before, from
  -- that slot and with its generation, unless the other slot then holds a readable record with a
  -- generation that is not earlier.
  pub init-set_name_torn :
      FlashLaws driver
      → (k : System F) (slot : ConfigSlot) (name : List ℕ) (system_id : ℕ) (firmware : List ℕ)
      → Inv driver k
      → k.active_slot ≡ some slot
      → let flash = (set_name driver name k).0.flash in
        (init driver system_id firmware flash
          ≡ loaded driver system_id firmware flash slot k.generation k.config.name.value)
        ⊎ Supersedes k.generation (read_slot driver flash (other slot))
  unfolding set_name
  init-set_name_torn laws k slot name system_id firmware inv active =
      let flash = (set_name driver name k).0.flash in
      let P : Option ConfigSlot → Type 0 = λ a.
        (read_slot driver flash (other (target_slot a))
          ≡ read_slot driver k.flash (other (target_slot a)))
        × Holds driver k.flash k.generation k.config.name.value a in
      let (kept, held) : P (some slot) =
        subst P active (store_name-active laws k (make_name name), inv.holds) in
      let same =
        subst (λ (t : ConfigSlot). read_slot driver flash t ≡ read_slot driver k.flash t)
          (other_target slot) kept in
      elim (newest_slot-kept flash slot k.generation k.config.name.value _ (same ∙ held) refl) [
        | inl newest ↦ inl (
            init-loaded driver system_id firmware flash slot k.generation k.config.name.value
              newest)
        | inr later ↦ inr later
      ]
