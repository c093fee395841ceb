-- ===== src/Prelude/Updates.antt =====
-- Writes into a list, seen through reads, prefixes and suffixes.
use Prim.Native.Nat.{ℕ, zero, suc, ◌+◌, ◌-◌, ◌≤◌, ◌<◌}
use mathlib.Core.Path.{◌≡◌, refl, ap, sym}
use mathlib.Core.Logic.{◌≢◌}
use mathlib.Core.List.{List, [], ◌∷◌, ◌++◌}
use native.Mathlib.Omega.{arith}
use native.Mathlib.Nat.{suc-sub-suc, sub-zero}
use golfer.Prelude.Lists.{length, get_or, set, take, drop, copy_at, take-append-drop, length-set}

module _ {ℓ} {A : Type ℓ} where
  pub get_or-set_self :
      (xs : List A) (i : ℕ) (v d : A) → i < length xs → get_or (set xs i v) i d ≡ v
  get_or-set_self [] i v d h = absurd (omega arith)
  get_or-set_self (x ∷ xs) zero v d h = refl
  get_or-set_self (x ∷ xs) (suc i) v d h = get_or-set_self xs i v d (omega arith)

  pub get_or-set_ne :
      (xs : List A) (i j : ℕ) (v d : A) → i ≢ j → get_or (set xs i v) j d ≡ get_or xs j d
  get_or-set_ne [] i j v d ne = refl
  get_or-set_ne (x ∷ xs) zero zero v d ne = absurd (ne refl)
  get_or-set_ne (x ∷ xs) zero (suc j) v d ne = refl
  get_or-set_ne (x ∷ xs) (suc i) zero v d ne = refl
  get_or-set_ne (x ∷ xs) (suc i) (suc j) v d ne = get_or-set_ne xs i j v d (λ e. ne (ap suc e))

  pub take-set_lt :
      (n : ℕ) (xs : List A) (i : ℕ) (v : A) → i < n → take n (set xs i v) ≡ set (take n xs) i v
  take-set_lt zero xs i v h = absurd (omega arith)
  take-set_lt (suc n) [] i v h = refl
  take-set_lt (suc n) (x ∷ xs) zero v h = refl
  take-set_lt (suc n) (x ∷ xs) (suc i) v h = ap (◌∷◌ x) (take-set_lt n xs i v (omega arith))

  pub take-set_ge : (n : ℕ) (xs : List A) (i : ℕ) (v : A) → n ≤ i → take n (set xs i v) ≡ take n xs
  take-set_ge zero xs i v h = refl
  take-set_ge (suc n) [] i v h = refl
  take-set_ge (suc n) (x ∷ xs) zero v h = absurd (omega arith)
  take-set_ge (suc n) (x ∷ xs) (suc i) v h = ap (◌∷◌ x) (take-set_ge n xs i v (omega arith))

  pub drop-set_lt : (n : ℕ) (xs : List A) (i : ℕ) (v : A) → i < n → drop n (set xs i v) ≡ drop n xs
  drop-set_lt zero xs i v h = absurd (omega arith)
  drop-set_lt (suc n) [] i v h = refl
  drop-set_lt (suc n) (x ∷ xs) zero v h = refl
  drop-set_lt (suc n) (x ∷ xs) (suc i) v h = drop-set_lt n xs i v (omega arith)

  pub drop-set_ge :
      (n : ℕ) (xs : List A) (i : ℕ) (v : A)
      → n ≤ i
      → drop n (set xs i v) ≡ set (drop n xs) (i - n) v
  drop-set_ge zero xs i v h = rw (sub-zero i)
  drop-set_ge (suc n) [] i v h = refl
  drop-set_ge (suc n) (x ∷ xs) zero v h = absurd (omega arith)
  drop-set_ge (suc n) (x ∷ xs) (suc i) v h =
      rw (suc-sub-suc i n) (drop-set_ge n xs i v (omega arith))

  pub get_or-take : (xs : List A) (n i : ℕ) (d : A) → i < n → get_or (take n xs) i d ≡ get_or xs i d
  get_or-take xs zero i d h = absurd (omega arith)
  get_or-take [] (suc n) i d h = refl
  get_or-take (x ∷ xs) (suc n) zero d h = refl
  get_or-take (x ∷ xs) (suc n) (suc i) d h = get_or-take xs n i d (omega arith)

  pub get_or-drop :
      (xs : List A) (n i : ℕ) (d : A) → n ≤ i → get_or (drop n xs) (i - n) d ≡ get_or xs i d
  get_or-drop xs zero i d h = rw (sub-zero i)
  get_or-drop [] (suc n) i d h = refl
  get_or-drop (x ∷ xs) (suc n) zero d h = absurd (omega arith)
  get_or-drop (x ∷ xs) (suc n) (suc i) d h =
      rw (suc-sub-suc i n) (get_or-drop xs n i d (omega arith))

  pub take_all : (xs : List A) (n : ℕ) → length xs ≡ n → take n xs ≡ xs
  take_all [] zero e = refl
  take_all [] (suc n) e = refl
  take_all (x ∷ xs) zero e = absurd (omega arith)
  take_all (x ∷ xs) (suc n) e = ap (◌∷◌ x) (take_all xs n (omega arith))

  -- A slice that is copied over the list, written as a sum of three parts.
  set-append :
      (xs : List A) (i : ℕ) (v : A) (rest : List A)
      → i < length xs
      → set (take (suc i) xs ++ rest) i v ≡ take i xs ++ v ∷ rest
  set-append [] i v rest h = absurd (omega arith)
  set-append (x ∷ xs) zero v rest h = refl
  set-append (x ∷ xs) (suc i) v rest h = ap (◌∷◌ x) (set-append xs i v rest (omega arith))

  pub copy_at-parts :
      (xs : List A) (i : ℕ) (ys : List A)
      → i + length ys ≤ length xs
      → copy_at xs i ys ≡ take i xs ++ (ys ++ drop (i + length ys) xs)
  copy_at-parts xs i [] h = let e : i + 0 ≡ i = omega arith in rw e (sym (take-append-drop i xs))
  copy_at-parts xs i (y ∷ ys) h =
      let e : i + suc (length ys) ≡ suc i + length ys = omega arith in
      rw (copy_at-parts xs (suc i) ys (omega arith), e)
        (set-append xs i y (ys ++ drop (suc i + length ys) xs) (omega arith))

  pub take-append : (n : ℕ) (xs ys : List A) → length xs ≡ n → take n (xs ++ ys) ≡ xs
  take-append zero [] ys e = refl
  take-append (suc n) [] ys e = absurd (omega arith)
  take-append zero (x ∷ xs) ys e = absurd (omega arith)
  take-append (suc n) (x ∷ xs) ys e = ap (◌∷◌ x) (take-append n xs ys (omega arith))

  pub drop-append : (n : ℕ) (xs ys : List A) → length xs ≡ n → drop n (xs ++ ys) ≡ ys
  drop-append zero [] ys e = refl
  drop-append (suc n) [] ys e = absurd (omega arith)
  drop-append zero (x ∷ xs) ys e = absurd (omega arith)
  drop-append (suc n) (x ∷ xs) ys e = drop-append n xs ys (omega arith)

  pub take-append_ge :
      (n : ℕ) (xs ys : List A) → length xs ≤ n → take n (xs ++ ys) ≡ xs ++ take (n - length xs) ys
  take-append_ge n [] ys h = rw (sub-zero n)
  take-append_ge zero (x ∷ xs) ys h = absurd (omega arith)
  take-append_ge (suc n) (x ∷ xs) ys h =
      rw (suc-sub-suc n (length xs)) (ap (◌∷◌ x) (take-append_ge n xs ys (omega arith)))

  pub length-copy_at : (xs : List A) (i : ℕ) (ys : List A) → length (copy_at xs i ys) ≡ length xs
  length-copy_at xs i [] = refl
  length-copy_at xs i (y ∷ ys) =
      omega (arith, length-set (copy_at xs (suc i) ys) i y, length-copy_at xs (suc i) ys)

  pub drop-drop : (n m : ℕ) (xs : List A) → drop (n + m) xs ≡ drop m (drop n xs)
  drop-drop zero m xs = let e : 0 + m ≡ m = omega arith in rw e refl
  drop-drop (suc n) zero [] = let e : suc n + 0 ≡ suc n = omega arith in rw e refl
  drop-drop (suc n) (suc m) [] = let e : suc n + suc m ≡ suc (n + suc m) = omega arith in rw e refl
  drop-drop (suc n) m (x ∷ xs) =
      let e : suc n + m ≡ suc (n + m) = omega arith in rw e (drop-drop n m xs)
