-- ===== src/System/Tests.antt =====
-- The configuration of firmware/golfer/src/system.rs at concrete inputs.
mod ArrayFlash
use golfer.Prelude.{
  ℕ, ◌≡◌, ◌≢◌, ◌⊎◌, ◌∙◌, ◌≤◌, refl, ap, arith, Bool, true, Option, none, some, List, [], ◌∷◌, ◌+◌,
  ◌-◌, ◌^◌, length, ◌<◌, tabulate, inl, inr,
}
use golfer.Prelude.Results.{ok, err}
use golfer.Prelude.Utf8.{from_utf8, chars}
use golfer.Crc.{crc32_ieee}
use golfer.System.{
  System, IsName, make_name, ConfigSlot, slot_a, slot_b, name_empty, name_contains_control, offset,
}
use golfer.System.Record.{config_of, decode_config_record, encode_config_record, check_record}
use golfer.System.Record.RoundTrip.{decode-encode_config_record}
use golfer.System.Persist.{
  read_slot, persist_config, set_name, init, default_name, factory_fresh, info_of, target_slot,
}
use golfer.System.Persist.Flash.{persist_config-elsewhere}
use golfer.Prelude.Bytes.{same_bytes}
use golfer.System.Persist.Invariant.{Inv, set_name-Inv, init-Inv}
use golfer.System.Persist.Reload.{init-set_name, init-set_name_wrapped}
use golfer.System.Persist.Torn.{Supersedes, init-set_name_torn}
use golfer.System.Persist.Healthy.{set_name-Healthy, set_name_succeeds, read_slot-written}
use golfer.System.Persist.Outcome.{stored}
use ArrayFlash.{
  array_flash, torn_flash, torn_flash-FlashLaws, blank, array_flash-FlashLaws, array_flash-Healthy,
}

-- `Zoë`, and `Ann`.
abbrev zoe : List ℕ
zoe = 0x5A ∷ 0x6F ∷ 0xC3 ∷ 0xAB ∷ []

abbrev ann : List ℕ
ann = 0x41 ∷ 0x6E ∷ 0x6E ∷ []

zoe-IsName : IsName zoe
unfolding from_utf8 make_name chars
zoe-IsName = record { utf8 = refl; valid = refl }

ann-IsName : IsName ann
unfolding from_utf8 make_name chars
ann-IsName = record { utf8 = refl; valid = refl }

blank_name : make_name (0x20 ∷ 0x09 ∷ []) ≡ err name_empty
unfolding make_name chars
blank_name = refl

control_in_name : make_name (0x41 ∷ 0x1B ∷ []) ≡ err name_contains_control
unfolding make_name chars
control_in_name = refl

overlong_form : from_utf8 (0xC0 ∷ 0x80 ∷ []) ≡ none
unfolding from_utf8
overlong_form = refl

default_of :
    default_name 0xFFFF_0012_3456_ABCD ≡ b'3' ∷ b'4' ∷ b'5' ∷ b'6' ∷ b'A' ∷ b'B' ∷ b'C' ∷ b'D' ∷ []
unfolding default_name
default_of = refl

decode-encode_config_record_example :
    decode_config_record (encode_config_record (config_of zoe) 7) ≡ some (7, config_of zoe)
decode-encode_config_record_example =
    decode-encode_config_record (config_of zoe) 7 zoe-IsName (omega arith)

-- A device that has a name in slot A, with a generation, and nothing in slot B.
abbrev named_flash : ℕ → ℕ → ℕ
named_flash generation =
    (array_flash.write (array_flash.erase blank (offset slot_a) (offset slot_a + 4096)).0
      (offset slot_a) (encode_config_record (config_of zoe) generation)).0

abbrev named : ℕ → System (ℕ → ℕ)
named generation = record {
  info = info_of 0x1234_5678 [];
  config = config_of zoe;
  flash = named_flash generation;
  active_slot = some slot_a;
  generation = generation;
}

abbrev fresh : System (ℕ → ℕ)
fresh = record (named 0) { flash = blank; active_slot = none; generation = 0 }

named-Inv : (generation : ℕ) → generation < 2 ^ 32 → Inv array_flash (named generation)
named-Inv generation h = record {
  name = zoe-IsName;
  holds =
      read_slot-written array_flash array_flash-Healthy slot_a generation
        (record (named generation) { flash = blank }) zoe-IsName h refl;
}

torn-Inv : Inv torn_flash (named 5)
unfolding read_slot
torn-Inv = let inv = named-Inv 5 (omega arith) in record { name = inv.name; holds = inv.holds }

other_name : zoe ≢ ann
other_name e = cc

set_name-Inv_example : Inv array_flash (set_name array_flash ann (named 5)).0
set_name-Inv_example =
    set_name-Inv array_flash array_flash-FlashLaws (named 5) ann (ann-IsName.utf8)
      (named-Inv 5 (omega arith))

set_name-Healthy_example :
    let (after, outcome) = set_name array_flash ann (named 5) in
    let next = init array_flash 1 [] after.flash in
    (outcome ≡ ok tt)
    × (after.config.name.value ≡ ann)
    × (next.config.name.value ≡ ann)
    × (next.active_slot ≡ some slot_b)
    × (next.generation ≡ 6)
set_name-Healthy_example =
    set_name-Healthy array_flash array_flash-Healthy array_flash-FlashLaws (named 5) ann 1 []
      (named-Inv 5 (omega arith)) ann-IsName (omega arith) other_name

renamed_ok : (generation : ℕ) → (set_name array_flash ann (named generation)).1 ≡ ok tt
renamed_ok generation =
    (set_name_succeeds array_flash array_flash-Healthy (named generation) ann ann-IsName).0

init-set_name_example :
    init array_flash 1 [] (set_name array_flash ann (named 5)).0.flash ≡ record {
      info = info_of 1 [];
      config = config_of ann;
      flash = (set_name array_flash ann (named 5)).0.flash;
      active_slot = some slot_b;
      generation = 6;
    }
init-set_name_example =
    init-set_name array_flash array_flash-FlashLaws (named 5) ann 1 [] (named-Inv 5 (omega arith))
      (omega arith) other_name (renamed_ok 5)

init-set_name_wrapped_example :
    (init array_flash 1 [] (set_name array_flash ann (named 0xFFFF_FFFF)).0.flash).config
    ≡ config_of zoe
init-set_name_wrapped_example =
    init-set_name_wrapped array_flash array_flash-FlashLaws (named 0xFFFF_FFFF) slot_a ann 1 []
      (named-Inv 0xFFFF_FFFF (omega arith)) refl refl other_name (renamed_ok 0xFFFF_FFFF)

-- A flash on which power is lost after the first eight bytes of a record.
init-set_name_torn_example :
    let flash = (set_name torn_flash ann (named 5)).0.flash in
    (init torn_flash 1 [] flash ≡ record {
      info = info_of 1 [];
      config = config_of zoe;
      flash = flash;
      active_slot = some slot_a;
      generation = 5;
    })
    ⊎ Supersedes 5 (read_slot torn_flash flash slot_b)
init-set_name_torn_example =
    init-set_name_torn torn_flash torn_flash-FlashLaws (named 5) slot_a ann 1 [] torn-Inv refl

persist_config-elsewhere_example :
    array_flash.read (persist_config array_flash (named 5)).0.flash (offset slot_a) 256
    ≡ array_flash.read (named 5).flash (offset slot_a) 256
persist_config-elsewhere_example =
    persist_config-elsewhere array_flash array_flash-FlashLaws (named 5) (offset slot_a) 256
      (inr (omega arith))
