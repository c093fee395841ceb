-- ===== src/Prelude/Lists.antt =====
-- Lists measured and indexed by native numbers, under the library's names.
use Prim.Native.Nat.{ℕ, zero, suc, ◌+◌, ◌-◌, min}
use mathlib.Core.Path.{◌≡◌, refl, ap₂, ap}
use mathlib.Core.List.{List, [], ◌∷◌, ◌++◌}
use native.Mathlib.Omega.{arith}

module _ {ℓ} {A : Type ℓ} where
  abbrev pub length : List A → ℕ
  length [] = 0
  length (x ∷ xs) = suc (length xs)

  abbrev pub get_or : List A → ℕ → A → A
  get_or [] i d = d
  get_or (x ∷ xs) zero d = x
  get_or (x ∷ xs) (suc i) d = get_or xs i d

  -- A write out of bounds changes nothing.
  abbrev pub set : List A → ℕ → A → List A
  set [] i v = []
  set (x ∷ xs) zero v = v ∷ xs
  set (x ∷ xs) (suc i) v = x ∷ set xs i v

  abbrev pub take : ℕ → List A → List A
  take zero xs = []
  take (suc n) [] = []
  take (suc n) (x ∷ xs) = x ∷ take n xs

  abbrev pub drop : ℕ → List A → List A
  drop zero xs = xs
  drop (suc n) [] = []
  drop (suc n) (x ∷ xs) = drop n xs

  abbrev pub replicate : ℕ → A → List A
  replicate zero a = []
  replicate (suc n) a = a ∷ replicate n a

  -- `xs[i..i+length ys].copy_from_slice(ys)`.
  abbrev pub copy_at : List A → ℕ → List A → List A
  copy_at xs i [] = xs
  copy_at xs i (y ∷ ys) = set (copy_at xs (suc i) ys) i y

  abbrev pub All {κ} : (A → Type κ) → List A → Type κ
  All P [] = Unit {κ}
  All P (x ∷ xs) = P x × All P xs

module _ {ℓ} {A : Type ℓ} where
  pub append_nil : (xs : List A) → xs ++ [] ≡ xs
  append_nil [] = refl
  append_nil (x ∷ xs) = ap (λ (t : List A). x ∷ t) (append_nil xs)

  pub append_snoc : (xs : List A) (x : A) (ys : List A) → (xs ++ x ∷ []) ++ ys ≡ xs ++ x ∷ ys
  append_snoc [] x ys = refl
  append_snoc (w ∷ xs) x ys = ap (λ (t : List A). w ∷ t) (append_snoc xs x ys)

  pub length-append : (xs ys : List A) → length (xs ++ ys) ≡ length xs + length ys
  length-append [] ys = omega arith
  length-append (x ∷ xs) ys = omega (arith, length-append xs ys)

  pub take-append-drop : (n : ℕ) (xs : List A) → take n xs ++ drop n xs ≡ xs
  take-append-drop zero xs = refl
  take-append-drop (suc n) [] = refl
  take-append-drop (suc n) (x ∷ xs) = rw (take-append-drop n xs)

  pub length-take : (n : ℕ) (xs : List A) → length (take n xs) ≡ min n (length xs)
  length-take zero xs = omega arith
  length-take (suc n) [] = omega arith
  length-take (suc n) (x ∷ xs) = omega (arith, length-take n xs)

  pub length-drop : (n : ℕ) (xs : List A) → length (drop n xs) ≡ length xs - n
  length-drop zero xs = omega arith
  length-drop (suc n) [] = omega arith
  length-drop (suc n) (x ∷ xs) = omega (arith, length-drop n xs)

  pub All-take {κ} : (P : A → Type κ) (n : ℕ) (xs : List A) → All P xs → All P (take n xs)
  All-take P zero xs h = tt
  All-take P (suc n) [] h = tt
  All-take P (suc n) (x ∷ xs) h = (h.0, All-take P n xs h.1)

  pub All-drop {κ} : (P : A → Type κ) (n : ℕ) (xs : List A) → All P xs → All P (drop n xs)
  All-drop P zero xs h = h
  All-drop P (suc n) [] h = tt
  All-drop P (suc n) (x ∷ xs) h = All-drop P n xs h.1

  pub All-get_or {κ} :
      (P : A → Type κ) (xs : List A) (i : ℕ) (d : A) → All P xs → P d → P (get_or xs i d)
  All-get_or P [] i d h e = e
  All-get_or P (x ∷ xs) zero d h e = h.0
  All-get_or P (x ∷ xs) (suc i) d h e = All-get_or P xs i d h.1 e

  -- The list of the elements at the first `n` places from `i` on.
  abbrev pub tabulate : ℕ → ℕ → (ℕ → A) → List A
  tabulate zero i f = []
  tabulate (suc n) i f = f i ∷ tabulate n (suc i) f

  -- A list of known length is the list of its elements.
  pub tabulate-get_or :
      (d : A) (xs : List A) (n : ℕ) → length xs ≡ n → tabulate n 0 (λ i. get_or xs i d) ≡ xs
  tabulate-get_or d [] zero e = refl
  tabulate-get_or d [] (suc n) e = absurd (omega arith)
  tabulate-get_or d (x ∷ xs) zero e = absurd (omega arith)
  tabulate-get_or d (x ∷ xs) (suc n) e =
      ap₂ ◌∷◌ refl (shift n 0 xs (tabulate-get_or d xs n (omega arith)))
    where
      shift_body :
          (n i : ℕ) (ys : List A)
          → tabulate n (suc i) (λ j. get_or (x ∷ ys) j d) ≡ tabulate n i (λ j. get_or ys j d)
      shift_body zero i ys = refl
      shift_body (suc n) i ys = ap₂ ◌∷◌ refl (shift_body n (suc i) ys)

      shift :
          (n i : ℕ) (ys : List A)
          → tabulate n i (λ j. get_or ys j d) ≡ ys
          → tabulate n (suc i) (λ j. get_or (x ∷ ys) j d) ≡ ys
      shift n i ys e = rw (shift_body n i ys) e

  pub All-set {κ} :
      (P : A → Type κ) (xs : List A) (i : ℕ) (v : A) → All P xs → P v → All P (set xs i v)
  All-set P [] i v h hv = tt
  All-set P (x ∷ xs) zero v h hv = (hv, h.1)
  All-set P (x ∷ xs) (suc i) v h hv = (h.0, All-set P xs i v h.1 hv)

  pub length-set : (xs : List A) (i : ℕ) (v : A) → length (set xs i v) ≡ length xs
  length-set [] i v = refl
  length-set (x ∷ xs) zero v = refl
  length-set (x ∷ xs) (suc i) v = omega (arith, length-set xs i v)

  pub All-tabulate {κ} :
      (P : A → Type κ) (n i : ℕ) (f : ℕ → A) → ((j : ℕ) → P (f j)) → All P (tabulate n i f)
  All-tabulate P zero i f h = tt
  All-tabulate P (suc n) i f h = (h i, All-tabulate P n (suc i) f h)
