-- ===== src/Prelude/Options.antt =====
-- Chains of fallible steps: Rust's `?` on an `Option`, and the checked operations of `u16`, `u32`
-- and `u64`, each with the limit of its type.
use Prim.Native.Nat.{ℕ, ◌+◌, ◌-◌, ◌*◌, ◌<◌}
use mathlib.Core.Path.{◌≡◌, refl}
use mathlib.Core.Bool.{Bool, true, false}
use mathlib.Core.Option.{Option, none, some}
use Prim.Native.Nat.{◌<◌}
use native.Mathlib.Omega.{arith}
use golfer.Prelude.Tests.{ltb, if◌then◌else◌}

infixl 5 ◌>>=◌ ◌>>◌
abbrev pub ◌>>=◌ {ℓ κ} : {A : Type ℓ} {B : Type κ} → Option A → (A → Option B) → Option B
none >>= f = none
some a >>= f = f a

abbrev pub ◌>>◌ {ℓ} : {B : Type ℓ} → Option (Unit {0}) → Option B → Option B
m >> k = m >>= λ _. k

-- An early `return None`, unless the test holds.
abbrev pub guard : Bool → Option (Unit {0})
guard true = some tt
guard false = none

-- `modulus` is 2 ^ 16, 2 ^ 32 or 2 ^ 64.
abbrev pub checked_add : ℕ → ℕ → ℕ → Option ℕ
checked_add modulus a b = if ltb (a + b) modulus then some (a + b) else none

abbrev pub checked_mul : ℕ → ℕ → ℕ → Option ℕ
checked_mul modulus a b = if ltb (a * b) modulus then some (a * b) else none

abbrev pub saturating_add : ℕ → ℕ → ℕ → ℕ
saturating_add modulus a b = if ltb (a + b) modulus then a + b else modulus - 1

abbrev pub saturating_mul : ℕ → ℕ → ℕ → ℕ
saturating_mul modulus a b = if ltb (a * b) modulus then a * b else modulus - 1

abbrev pub u16_mod : ℕ
u16_mod = 0x1_0000

abbrev pub u32_mod : ℕ
u32_mod = 0x1_0000_0000

abbrev pub u64_mod : ℕ
u64_mod = 0x1_0000_0000_0000_0000

-- What a successful chain says of its first step and of the rest.
pub >>=-eq-some {ℓ κ} :
    {A : Type ℓ} {B : Type κ} (m : Option A) (f : A → Option B) {b : B}
    → (m >>= f) ≡ some b
    → (a : A) × (m ≡ some a) × (f a ≡ some b)
>>=-eq-some none f h = cc
>>=-eq-some (some a) f h = (a, refl, h)

pub some-eq {ℓ} : {A : Type ℓ} {a b : A} → some a ≡ some b → a ≡ b
some-eq h = cc

pub none-some {ℓ} : {A : Type ℓ} {a : A} → none ≡ some a → ⊥
none-some h = cc

pub guard-eq-some : (b : Bool) {u : Unit {0}} → guard b ≡ some u → b ≡ true
guard-eq-some true h = refl
guard-eq-some false h = cc

pub checked_add-eq-some :
    (modulus a b : ℕ) {c : ℕ} → checked_add modulus a b ≡ some c → (a + b ≡ c) × (c < modulus)
checked_add-eq-some modulus a b h = ground arith

in_range-eq-some :
    (limit n : ℕ) {c : ℕ} → (if ltb n limit then some n else none) ≡ some c → (n ≡ c) × (c < limit)
in_range-eq-some limit n h = ground arith

pub checked_mul-eq-some :
    (modulus a b : ℕ) {c : ℕ} → checked_mul modulus a b ≡ some c → (a * b ≡ c) × (c < modulus)
checked_mul-eq-some modulus a b h = in_range-eq-some modulus (a * b) h

-- A predicate on what is there.
abbrev pub Each {ℓ κ} : {A : Type ℓ} → (A → Type κ) → Option A → Type κ
Each P none = Unit
Each P (some a) = P a

pub Each-intro {ℓ κ} :
    {A : Type ℓ} (P : A → Type κ) (o : Option A) → ((a : A) → o ≡ some a → P a) → Each P o
Each-intro P none h = tt
Each-intro P (some a) h = h a refl

pub Each-bind {ℓ κ} :
    {A : Type ℓ} {B : Type κ} (P : B → Type 0) (m : Option A) (f : A → Option B)
    → ((a : A) → Each P (f a))
    → Each P (m >>= f)
Each-bind P none f h = tt
Each-bind P (some a) f h = h a
