-- ===== src/Display/Changes.antt =====
-- What the change tests of the updates of `Display` say (firmware/golfer/src/display/mod.rs).
use golfer.Prelude.{
  ◌≡◌, refl, ap, Bool, true, false, Option, some, none, List, [], ==_iff, not, ◌||◌, ◌&&◌,
  if◌then◌else◌,
}
use golfer.Prelude.Int.{ℤ, pos, negsuc, equal_ints}
use golfer.Display.{RadioLinkState, waiting, connected, lost}
use golfer.Display.Target.{Draw}
use golfer.Display.Facade.{unless_same, same_link, same_bool, same_option}

-- What the tests of the updates say.
pub same_link-eq : (a b : RadioLinkState) → same_link a b ≡ true → a ≡ b
same_link-eq waiting waiting h = refl
same_link-eq waiting connected h = cc
same_link-eq waiting lost h = cc
same_link-eq connected waiting h = cc
same_link-eq connected connected h = refl
same_link-eq connected lost h = cc
same_link-eq lost waiting h = cc
same_link-eq lost connected h = cc
same_link-eq lost lost h = refl

pub same_bool-eq : (a b : Bool) → same_bool a b ≡ true → a ≡ b
same_bool-eq true true h = refl
same_bool-eq true false h = cc
same_bool-eq false true h = cc
same_bool-eq false false h = refl

pub equal_ints-eq : (a b : ℤ) → equal_ints a b ≡ true → a ≡ b
equal_ints-eq (pos m) (pos n) h = ap pos ((==_iff m n).0 h)
equal_ints-eq (pos m) (negsuc n) h = cc
equal_ints-eq (negsuc m) (pos n) h = cc
equal_ints-eq (negsuc m) (negsuc n) h = ap negsuc ((==_iff m n).0 h)

pub same_option-eq :
    {A : Type 0} (same : A → A → Bool)
    → ((a b : A) → same a b ≡ true → a ≡ b)
    → (o o' : Option A) → same_option same o o' ≡ true
    → o ≡ o'
same_option-eq same eq none none h = refl
same_option-eq same eq (some a) (some b) h = ap some (eq a b h)
same_option-eq same eq none (some b) h = cc
same_option-eq same eq (some a) none h = cc

pub fix-change :
    (a b : Bool) (draws : List Draw)
    → (if not a || not b then draws else []) ≡ unless_same (a && b) draws
fix-change true true draws = refl
fix-change true false draws = refl
fix-change false true draws = refl
fix-change false false draws = refl

pub both : (a b : Bool) → (a && b) ≡ true → (a ≡ true) × (b ≡ true)
both true true h = (refl, refl)
both true false h = cc
both false b h = cc
