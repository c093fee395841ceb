-- ===== src/Storage/Session/Numbers.antt =====
-- The numbers in the names and in the counter of firmware/golfer/src/storage.rs: reading back what was
-- written.
use golfer.Prelude.Format.{padded}
use mathlib.Core.List.{append_assoc}
use native.Mathlib.Nat.{pow-suc}
use golfer.Prelude.{
  ℕ, zero, suc, ◌+◌, ◌*◌, ◌/◌, ◌%◌, ◌^◌, ◌<◌, ◌≡◌, refl, ap, arith, Bool, true, false, List, [],
  ◌∷◌, ◌++◌, ◌∙◌, u32_mod, lt→ltb, map,
}
use golfer.Storage.Session.{kind, digit, counter_loop, session_loop}

kind-digit : (d : ℕ) → d < 10 → kind (0x30 + d) ≡ digit d
unfolding kind
kind-digit d h = ground arith

counter_loop-digit :
    (saw_digit : Bool) (value d : ℕ) (rest : List ℕ)
    → d < 10
    → value * 10 + d < u32_mod
    → counter_loop saw_digit value (map kind ((0x30 + d) ∷ rest))
      ≡ counter_loop true (value * 10 + d) (map kind rest)
counter_loop-digit saw_digit value d rest h fits =
    rw
      (
        kind-digit d h,
        lt→ltb (value * 10) u32_mod (omega arith),
        lt→ltb (value * 10 + d) u32_mod fits,
      )
      refl

session_loop-digit :
    (value d : ℕ) (rest : List ℕ)
    → d < 10
    → value * 10 + d < u32_mod
    → session_loop value (map kind ((0x30 + d) ∷ rest))
      ≡ session_loop (value * 10 + d) (map kind rest)
session_loop-digit value d rest h fits =
    rw
      (
        kind-digit d h,
        lt→ltb (value * 10) u32_mod (omega arith),
        lt→ltb (value * 10 + d) u32_mod fits,
      )
      refl

-- A printed number is read back.
pub counter_loop-padded :
    (width n : ℕ) (rest : List ℕ)
    → n < 10 ^ suc width
    → n < u32_mod
    → counter_loop false 0 (map kind (padded (suc width) n ++ rest))
      ≡ counter_loop true n (map kind rest)
counter_loop-padded zero n rest h fits =
    let last : 0 * 10 + n % 10 ≡ n = omega arith in
    counter_loop-digit false 0 (n % 10) rest (omega arith) (omega arith)
    ∙ ap (λ v. counter_loop true v (map kind rest)) last
counter_loop-padded (suc width) n rest h fits =
    let last : n / 10 * 10 + n % 10 ≡ n = omega arith in
    ap (λ (t : List ℕ). counter_loop false 0 (map kind t))
      (append_assoc (padded (suc width) (n / 10)) ((0x30 + n % 10) ∷ []) rest)
    ∙ counter_loop-padded width (n / 10) ((0x30 + n % 10) ∷ rest)
        (omega (arith, pow-suc 10 (suc width))) (omega arith)
    ∙ counter_loop-digit true (n / 10) (n % 10) rest (omega arith) (omega arith)
    ∙ ap (λ v. counter_loop true v (map kind rest)) last

pub session_loop-padded :
    (width n : ℕ) (rest : List ℕ)
    → n < 10 ^ width
    → n < u32_mod
    → session_loop 0 (map kind (padded width n ++ rest)) ≡ session_loop n (map kind rest)
session_loop-padded zero n rest h fits =
    let none_left : 0 ≡ n = omega arith in ap (λ v. session_loop v (map kind rest)) none_left
session_loop-padded (suc width) n rest h fits =
    let last : n / 10 * 10 + n % 10 ≡ n = omega arith in
    ap (λ (t : List ℕ). session_loop 0 (map kind t))
      (append_assoc (padded width (n / 10)) ((0x30 + n % 10) ∷ []) rest)
    ∙ session_loop-padded width (n / 10) ((0x30 + n % 10) ∷ rest) (omega (arith, pow-suc 10 width))
        (omega arith)
    ∙ session_loop-digit (n / 10) (n % 10) rest (omega arith) (omega arith)
    ∙ ap (λ v. session_loop v (map kind rest)) last
