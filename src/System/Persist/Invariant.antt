-- ===== src/System/Persist/Invariant.antt =====
-- The invariant of the device's configuration (firmware/golfer/src/system.rs).
use golfer.Prelude.Format.{hex_digit, hex_upper}
use golfer.Prelude.{
  ℕ, ◌≡◌, refl, ap, sym, subst, ◌∙◌, arith, Option, none, some, List, ◌⊎◌, inl, inr, Bool-cases,
  ◌+◌, zero, suc, ◌/◌, ◌%◌, ◌^◌, ◌<◌, All, u32_mod, ltb,
}
use golfer.Prelude.Results.{Result, ok, err}
use golfer.Prelude.Bytes.{same_bytes}
use golfer.Prelude.Utf8.{from_utf8}
use golfer.Prelude.Utf8.Ascii.{
  Graphic, from_utf8-Graphic, chars-Graphic, is_whitespace-Graphic, any_char-Graphic,
}
use golfer.System.{
  FlashDriver, System, ConfigSlot, slot_a, slot_b, offset, other, StoredConfig, SystemError, IsName,
  make_name, SystemInfo,
}
use golfer.System.Record.Decoded.{make_name-ok}
use golfer.System.Persist.{
  target_slot, read_slot, persist_config, set_name, store_name, roll_back, renamed, newest_slot,
  stored_config, booted, init, default_name, info_of, factory_fresh,
}
use golfer.System.Persist.Flash.{FlashLaws, Outside, persist_config-target}
use golfer.System.Persist.Outcome.{stored, read_slot-stored, persist_config-Outcome}

hex_digit-Graphic : (d : ℕ) → d < 16 → Graphic (hex_digit d)
hex_digit-Graphic d h = ground arith

hex_upper-Graphic : (width n : ℕ) → All Graphic (hex_upper width n)
hex_upper-Graphic zero n = tt
hex_upper-Graphic (suc width) n =
    let d = n / 16 ^ width in (hex_digit-Graphic (d % 16) (omega arith), hex_upper-Graphic width n)

default_name-IsName : (system_id : ℕ) → IsName (default_name system_id)
unfolding default_name make_name
default_name-IsName system_id =
    let name = hex_upper 8 (system_id % u32_mod) in
    let graphic = hex_upper-Graphic 8 (system_id % u32_mod) in
    record {
      utf8 = from_utf8-Graphic name graphic;
      valid =
          rw
            (
              chars-Graphic name graphic,
              any_char-Graphic name graphic,
              is_whitespace-Graphic _ graphic.0,
            )
            refl;
    }

-- A slot lies outside the sector of the other one.
pub apart :
    (slot : ConfigSlot)
    → Outside (offset (other slot)) (offset (other slot) + 4096) (offset slot) 256
apart slot_a = omega arith
apart slot_b = omega arith

module _ {F : Type 0} (driver : FlashDriver F) where
  -- What the flash holds for the device: the active slot has its name and generation, and without
  -- one slot B is empty.
  abbrev pub Holds : F → ℕ → List ℕ → Option ConfigSlot → Type 0
  Holds flash generation name none = (generation ≡ 0) × (read_slot driver flash slot_b ≡ none)
  Holds flash generation name (some slot) =
      read_slot driver flash slot ≡ some (stored slot generation name)

  pub record Inv (k : System F) : Type 0 where
    pub name : IsName k.config.name.value
    pub holds : Holds k.flash k.generation k.config.name.value k.active_slot

  pub read_slot-same :
      (before after : F) (slot : ConfigSlot)
      → driver.read after (offset slot) 256 ≡ driver.read before (offset slot) 256
      → read_slot driver after slot ≡ read_slot driver before slot
  unfolding read_slot
  read_slot-same before after slot e = rw e refl

  -- `persist_config` leaves the other slot as it is.
  pub read_slot-persist_config :
      FlashLaws driver
      → (k : System F)
      → read_slot driver (persist_config driver k).0.flash (other (target_slot k.active_slot))
        ≡ read_slot driver k.flash (other (target_slot k.active_slot))
  read_slot-persist_config laws k =
      let slot = other (target_slot k.active_slot) in
      read_slot-same k.flash (persist_config driver k).0.flash slot
        (persist_config-target driver laws k (offset slot) 256 (apart' (target_slot k.active_slot)))
    where
      apart' :
          (target : ConfigSlot)
          → Outside (offset target) (offset target + 4096) (offset (other target)) 256
      apart' slot_a = omega arith
      apart' slot_b = omega arith

  Holds-other :
      (before after : F) (generation : ℕ) (name : List ℕ) (active : Option ConfigSlot)
      → read_slot driver after (other (target_slot active))
        ≡ read_slot driver before (other (target_slot active))
      → Holds before generation name active
      → Holds after generation name active
  Holds-other before after generation name none e h = (h.0, e ∙ h.1)
  Holds-other before after generation name (some slot_a) e h = e ∙ h
  Holds-other before after generation name (some slot_b) e h = e ∙ h

  persist_config-Inv : FlashLaws driver → (k : System F) → Inv k → Inv (persist_config driver k).0
  persist_config-Inv laws k inv =
      let r = persist_config driver k in
      let kept =
        Holds-other k.flash r.0.flash k.generation k.config.name.value k.active_slot
          (read_slot-persist_config laws k) inv.holds in
      elim (persist_config-Outcome driver k) [
        | inl (flash, e, same) ↦
            subst (λ (r : System F × Result SystemError (Unit {0})). Inv r.0) (sym same)
              (record {
                name = inv.name;
                holds =
                    subst
                      (λ (r : System F × Result SystemError (Unit {0})).
                        Holds r.0.flash k.generation k.config.name.value k.active_slot)
                      same kept;
              })
        | inr (flash, same, read) ↦
            subst (λ (r : System F × Result SystemError (Unit {0})). Inv r.0) (sym same)
              (record { name = inv.name; holds = read })
      ]

  -- The same for a new name, which is taken back on a failure.
  renamed-Inv :
      FlashLaws driver
      → (k : System F) (name : List ℕ) → IsName name
      → Inv k
      → Inv (roll_back driver k.config (persist_config driver (renamed driver name k))).0
  renamed-Inv laws k name valid inv =
      let r = persist_config driver (renamed driver name k) in
      let kept =
        Holds-other k.flash r.0.flash k.generation k.config.name.value k.active_slot
          (read_slot-persist_config laws (renamed driver name k)) inv.holds in
      elim (persist_config-Outcome driver (renamed driver name k)) [
        | inl (flash, e, same) ↦
            subst
              (λ (r : System F × Result SystemError (Unit {0})).
                Inv (roll_back driver k.config r).0)
              (sym same)
              (record {
                name = inv.name;
                holds =
                    subst
                      (λ (r : System F × Result SystemError (Unit {0})).
                        Holds r.0.flash k.generation k.config.name.value k.active_slot)
                      same kept;
              })
        | inr (flash, same, read) ↦
            subst
              (λ (r : System F × Result SystemError (Unit {0})).
                Inv (roll_back driver k.config r).0)
              (sym same) (record { name = valid; holds = read })
      ]

  store_name-Inv :
      FlashLaws driver
      → (k : System F) (made : Result SystemError (List ℕ))
      → ((name : List ℕ) → made ≡ ok name → IsName name)
      → Inv k
      → Inv (store_name driver made k).0
  store_name-Inv laws k (err e) valid inv = inv
  store_name-Inv laws k (ok name) valid inv =
      elim (Bool-cases (same_bytes k.config.name.value name)) [
        | inl same ↦ rw same inv
        | inr differs ↦ rw differs (renamed-Inv laws k name (valid name refl) inv)
      ]

  -- `set_name`, whatever its outcome and whatever the flash did, keeps the invariant: the name is
  -- valid, and the active slot reads back as that name with the generation that the device holds.
  pub set_name-Inv :
      FlashLaws driver
      → (k : System F) (name : List ℕ) → from_utf8 name ≡ some name
      → Inv k
      → Inv (set_name driver name k).0
  unfolding set_name
  set_name-Inv laws k name utf8 inv =
      store_name-Inv laws k (make_name name)
        (λ value made.
          subst (λ (t : List ℕ). IsName t) (make_name-ok name made)
            (record {
              utf8 = utf8;
              valid = made ∙ ap (λ (t : List ℕ). ok t) (sym (make_name-ok name made));
            }))
        inv

  newest_slot-cases :
      (a b : Option StoredConfig)
      → ((a ≡ none) × (b ≡ none) × (newest_slot a b ≡ none))
        ⊎ ((found : StoredConfig) × (newest_slot a b ≡ some found)
            × ((a ≡ some found) ⊎ (b ≡ some found)))
  unfolding newest_slot
  newest_slot-cases none none = inl (refl, refl, refl)
  newest_slot-cases (some a) none = inr (a, refl, inl refl)
  newest_slot-cases none (some b) = inr (b, refl, inr refl)
  newest_slot-cases (some a) (some b) = elim (Bool-cases (ltb a.generation b.generation)) [
    | inl later ↦ rw later (inr (b, refl, inr refl))
    | inr not_later ↦ rw not_later (inr (a, refl, inl refl))
  ]

  booted-Inv :
      (info : SystemInfo) (flash : F) (slot : ConfigSlot) (found : StoredConfig)
      → read_slot driver flash slot ≡ some found
      → Inv (booted driver info flash (some found))
  booted-Inv info flash slot found h =
      let (name, shape, valid) = read_slot-stored driver flash slot h in
      subst (λ (t : StoredConfig). Inv (booted driver info flash (some t))) (sym shape)
        (record { name = valid; holds = h ∙ ap (λ (t : StoredConfig). some t) shape })

  -- After `init` the invariant holds, on a flash with any content, for any hardware ID.
  pub init-Inv :
      FlashLaws driver
      → (system_id : ℕ) (firmware : List ℕ) (flash : F) → Inv (init driver system_id firmware flash)
  unfolding init stored_config
  init-Inv laws system_id firmware flash =
      let info = info_of system_id firmware in
      elim (newest_slot-cases (read_slot driver flash slot_a) (read_slot driver flash slot_b)) [
        | inl (_, empty, e) ↦ rw e (
            persist_config-Inv laws (factory_fresh driver info flash)
              (record { name = default_name-IsName system_id; holds = (refl, empty) }))
        | inr (found, e, inl in_a) ↦ rw e (booted-Inv info flash slot_a found in_a)
        | inr (found, e, inr in_b) ↦ rw e (booted-Inv info flash slot_b found in_b)
      ]
