-- ===== src/System/Tests/ArrayFlash.antt =====
-- A flash that is an array of bytes and never fails, for the tests of the configuration.
use golfer.Prelude.{
  ℕ, zero, suc, ◌+◌, ◌≤◌, ◌<◌, ◌≡◌, refl, ap, arith, true, ◌&&◌, some, false, List, [], ◌∷◌, length,
  tabulate, ltb, leb, ◌==◌, if◌then◌else◌, inl, inr, ==_ne, ◌∙◌, ◌⊎◌, take,
}
use golfer.System.{FlashDriver}
use golfer.System.Record.RoundTrip.{same_number}
use golfer.System.Persist.Flash.{FlashLaws, Healthy}

-- The array after a write of `bytes` at `start`.
abbrev overlay : (ℕ → ℕ) → ℕ → List ℕ → ℕ → ℕ
overlay flash start [] i = flash i
overlay flash start (b ∷ bytes) i = if i == start then b else overlay flash (suc start) bytes i

abbrev erased : (ℕ → ℕ) → ℕ → ℕ → ℕ → ℕ
erased flash start stop i = if leb start i && ltb i stop then 0xFF else flash i

abbrev pub array_flash : FlashDriver (ℕ → ℕ)
array_flash = record {
  erase = λ flash start stop. (erased flash start stop, true);
  write = λ flash start bytes. (overlay flash start bytes, true);
  read = λ flash i n. some (tabulate n i flash);
}

abbrev pub blank : ℕ → ℕ
blank i = 0xFF

tabulate-same :
    (n i : ℕ) (f g : ℕ → ℕ)
    → ((j : ℕ) → i ≤ j → j < i + n → f j ≡ g j)
    → tabulate n i f ≡ tabulate n i g
tabulate-same zero i f g h = refl
tabulate-same (suc n) i f g h =
    rw
      (
        h i (omega arith) (omega arith),
        tabulate-same n (suc i) f g (λ j from to. h j (omega arith) (omega arith)),
      )
      refl

erased-elsewhere :
    (flash : ℕ → ℕ) (start stop j : ℕ)
    → (j < start) ⊎ (stop ≤ j)
    → erased flash start stop j ≡ flash j
erased-elsewhere flash start stop j h = ground arith

overlay-elsewhere :
    (flash : ℕ → ℕ) (start : ℕ) (bytes : List ℕ) (j : ℕ)
    → (j < start) ⊎ (start + length bytes ≤ j)
    → overlay flash start bytes j ≡ flash j
overlay-elsewhere flash start [] j h = refl
overlay-elsewhere flash start (b ∷ bytes) j h =
    let ne : (j == start) ≡ false = ==_ne j start (λ e. omega arith) in
    rw ne (
      overlay-elsewhere flash (suc start) bytes j
        (elim h [ inl before ↦ inl (omega arith) | inr behind ↦ inr (omega arith) ]))

overlay_behind :
    (flash : ℕ → ℕ) (start b : ℕ) (bytes : List ℕ) (j : ℕ)
    → suc start ≤ j
    → overlay flash start (b ∷ bytes) j ≡ overlay flash (suc start) bytes j
overlay_behind flash start b bytes j h = rw (==_ne j start (λ e. omega arith)) refl

overlay-read :
    (flash : ℕ → ℕ) (start : ℕ) (bytes : List ℕ)
    → tabulate (length bytes) start (overlay flash start bytes) ≡ bytes
overlay-read flash start [] = refl
overlay-read flash start (b ∷ bytes) =
    let rest : tabulate (length bytes) (suc start) (overlay flash start (b ∷ bytes)) ≡ bytes =
      tabulate-same (length bytes) (suc start) (overlay flash start (b ∷ bytes))
        (overlay flash (suc start) bytes) (λ j from to. overlay_behind flash start b bytes j from)
      ∙ overlay-read flash (suc start) bytes in
    rw (same_number start start refl, rest) refl

pub array_flash-FlashLaws : FlashLaws array_flash
array_flash-FlashLaws = record {
  erase_elsewhere = λ flash start stop i n outside. ap some (
      tabulate-same n i (erased flash start stop) flash (λ j from to.
        erased-elsewhere flash start stop j
          (elim outside [ inl before ↦ inl (omega arith) | inr behind ↦ inr (omega arith) ])));
  write_elsewhere = λ flash start bytes i n outside. ap some (
      tabulate-same n i (overlay flash start bytes) flash (λ j from to.
        overlay-elsewhere flash start bytes j
          (elim outside [ inl before ↦ inl (omega arith) | inr behind ↦ inr (omega arith) ])));
}

pub array_flash-Healthy : Healthy array_flash
array_flash-Healthy = record {
  erase_succeeds = λ flash start stop h h' h'' fits. refl;
  write_succeeds = λ flash start bytes fits. refl;
  write_read =
      λ flash start stop bytes h fits. ap some (overlay-read (erased flash start stop) start bytes);
}

-- The same, but every write stops with a failure after eight bytes.
abbrev pub torn_flash : FlashDriver (ℕ → ℕ)
torn_flash = record array_flash {
  write = λ flash start bytes. (overlay flash start (take 8 bytes), false);
}

take-le : (n : ℕ) (bytes : List ℕ) → length (take n bytes) ≤ length bytes
take-le zero bytes = omega arith
take-le (suc n) [] = omega arith
take-le (suc n) (b ∷ bytes) = omega (arith, take-le n bytes)

pub torn_flash-FlashLaws : FlashLaws torn_flash
torn_flash-FlashLaws = record {
  erase_elsewhere = array_flash-FlashLaws.erase_elsewhere;
  write_elsewhere = λ flash start bytes i n outside.
      array_flash-FlashLaws.write_elsewhere flash start (take 8 bytes) i n (elim outside [
        | inl before ↦ inl before
        | inr behind ↦ inr (omega (arith, take-le 8 bytes))
      ]);
}
