-- ===== src/Buttons/Debounce.antt =====
-- What the debouncing of a button lets through (firmware/golfer/src/buttons.rs).
use golfer.Buttons.{poll, same, poll_all, released}
use golfer.Prelude.{
  ℕ, Bool, List, [], arith, false, if◌then◌else◌, lt→ltb, max, none, not, refl, some, true, ◌+◌,
  ◌<◌, ◌∷◌, ◌≡◌, inl, inr, ◌≤◌, ◌⊎◌, subst, ◌↔◌,
}

-- How many of the first samples show the level.
abbrev pub leading : Bool → List Bool → ℕ
leading level [] = 0
leading level (sampled ∷ rest) = if same sampled level then 1 + leading level rest else 0

-- The length of the longest row of samples at the level.
abbrev pub longest : Bool → List Bool → ℕ
longest level [] = 0
longest level (sampled ∷ rest) = max (leading level (sampled ∷ rest)) (longest level rest)

-- A press after a release and a release after a press.
abbrev pub Alternate : Bool → List Bool → Type 0
Alternate stable [] = Unit
Alternate stable (pressed ∷ later) = (pressed ≡ not stable) × Alternate pressed later

poll-same :
    (b : Bool) (n : ℕ)
    → poll b (record { stable_pressed = b; differing_samples = n })
      ≡ (record { stable_pressed = b; differing_samples = 0 }, none)
unfolding poll
poll-same true n = refl
poll-same false n = refl

poll-early :
    (b : Bool) (n : ℕ)
    → n < 3
    → poll (not b) (record { stable_pressed = b; differing_samples = n })
      ≡ (record { stable_pressed = b; differing_samples = n + 1 }, none)
unfolding poll
poll-early true n h = rw (lt→ltb n 255 (omega arith), lt→ltb (n + 1) 4 (omega arith)) refl
poll-early false n h = rw (lt→ltb n 255 (omega arith), lt→ltb (n + 1) 4 (omega arith)) refl

poll-fourth :
    (b : Bool)
    → poll (not b) (record { stable_pressed = b; differing_samples = 3 })
      ≡ (record { stable_pressed = not b; differing_samples = 0 }, some (not b))
unfolding poll
poll-fourth true = refl
poll-fourth false = refl

-- What a button sends, from a state on.
abbrev events : Bool → ℕ → List Bool → List Bool
events b n samples = (poll_all samples (record { stable_pressed = b; differing_samples = n })).1

events-same : (b : Bool) (n : ℕ) (rest : List Bool) → events b n (b ∷ rest) ≡ events b 0 rest
unfolding poll_all
events-same b n rest = rw (poll-same b n) refl

events-early :
    (b : Bool) (n : ℕ) (rest : List Bool)
    → n < 3
    → events b n (not b ∷ rest) ≡ events b (n + 1) rest
unfolding poll_all
events-early b n rest h = rw (poll-early b n h) refl

events-fourth :
    (b : Bool) (rest : List Bool) → events b 3 (not b ∷ rest) ≡ not b ∷ events (not b) 0 rest
unfolding poll_all
events-fourth b rest = rw (poll-fourth b) refl

-- A sample is the stable level or the other one; the count is at the last round or before.
level : (sampled b : Bool) → (b ≡ sampled) ⊎ (not b ≡ sampled)
level true true = inl refl
level true false = inr refl
level false true = inr refl
level false false = inl refl

last_round : (n : ℕ) → n ≤ 3 → (n < 3) ⊎ (3 ≡ n)
last_round n h = ground arith

Alternate-differs :
    (b : Bool) (n : ℕ) (rest : List Bool)
    → n ≤ 3
    → ((b' : Bool) (m : ℕ) → m ≤ 3 → Alternate b' (events b' m rest))
    → Alternate b (events b n (not b ∷ rest))
Alternate-differs b n rest h ih = elim (last_round n h) [
  | inl early ↦ rw (events-early b n rest early) (ih b (n + 1) (omega arith))
  | inr last ↦
      subst (λ (m : ℕ). Alternate b (events b m (not b ∷ rest))) last
        (rw (events-fourth b rest) (refl, ih (not b) 0 (omega arith)))
]

events-Alternate :
    (samples : List Bool) (b : Bool) (n : ℕ) → n ≤ 3 → Alternate b (events b n samples)
events-Alternate [] b n h = unfold poll_all in tt
events-Alternate (sampled ∷ rest) b n h = elim (level sampled b) [
  | inl same_level ↦
      subst (λ (s : Bool). Alternate b (events b n (s ∷ rest))) same_level
        (rw (events-same b n rest) (events-Alternate rest b 0 (omega arith)))
  | inr differs ↦
      subst (λ (s : Bool). Alternate b (events b n (s ∷ rest))) differs
        (Alternate-differs b n rest h (events-Alternate rest))
]

leading-same : (b : Bool) (rest : List Bool) → leading (not b) (b ∷ rest) ≡ 0
leading-same true rest = refl
leading-same false rest = refl

leading-differs :
    (b : Bool) (rest : List Bool) → leading (not b) (not b ∷ rest) ≡ 1 + leading (not b) rest
leading-differs true rest = refl
leading-differs false rest = refl

leading-le : (b : Bool) (samples : List Bool) → leading b samples ≤ longest b samples
leading-le b [] = omega arith
leading-le b (sampled ∷ rest) = omega arith

-- No row of differing samples is long enough, the samples that were counted already included.
abbrev Short : Bool → ℕ → List Bool → Type 0
Short b n samples = (n + leading (not b) samples < 4) × (longest (not b) samples < 4)

quiet-same :
    (b : Bool) (n : ℕ) (rest : List Bool)
    → n ≤ 3
    → ((events b 0 rest ≡ []) ↔ Short b 0 rest)
    → ((events b n (b ∷ rest) ≡ []) ↔ Short b n (b ∷ rest))
quiet-same b n rest h ih =
    rw (events-same b n rest, leading-same b rest)
      (
        λ e. let short = ih.0 e in (omega arith, omega (arith, short)),
        λ short. ih.1 (omega (arith, short, leading-le (not b) rest), omega (arith, short)),
      )

quiet-differs :
    (b : Bool) (n : ℕ) (rest : List Bool)
    → n ≤ 3
    → ((m : ℕ) → m ≤ 3 → (events b m rest ≡ []) ↔ Short b m rest)
    → ((events b n (not b ∷ rest) ≡ []) ↔ Short b n (not b ∷ rest))
quiet-differs b n rest h ih = elim (last_round n h) [
  | inl early ↦
      let next = ih (n + 1) (omega arith) in
      rw (events-early b n rest early, leading-differs b rest)
        (
          λ e. let short = next.0 e in (omega (arith, short), omega (arith, short)),
          λ short. next.1 (omega (arith, short), omega (arith, short)),
        )
  | inr last ↦
      subst (λ (m : ℕ). (events b m (not b ∷ rest) ≡ []) ↔ Short b m (not b ∷ rest)) last
        (rw (events-fourth b rest, leading-differs b rest)
          (λ e. cc, λ short. absurd (omega (arith, short))))
]

quiet :
    (samples : List Bool) (b : Bool) (n : ℕ) → n ≤ 3 → (events b n samples ≡ []) ↔ Short b n samples
quiet [] b n h = unfold poll_all in (λ e. (omega arith, omega arith), λ short. refl)
quiet (sampled ∷ rest) b n h = elim (level sampled b) [
  | inl same_level ↦
      subst (λ (s : Bool). (events b n (s ∷ rest) ≡ []) ↔ Short b n (s ∷ rest)) same_level
        (quiet-same b n rest h (quiet rest b 0 (omega arith)))
  | inr differs ↦
      subst (λ (s : Bool). (events b n (s ∷ rest) ≡ []) ↔ Short b n (s ∷ rest)) differs
        (quiet-differs b n rest h (quiet rest b))
]

-- A button that is stable sends nothing exactly when no four samples in a row show the other level.
pub poll_all-nil_iff :
    (samples : List Bool) (b : Bool)
    → ((poll_all samples (record { stable_pressed = b; differing_samples = 0 })).1 ≡ [])
      ↔ (longest (not b) samples < 4)
poll_all-nil_iff samples b =
    let (there, back) = quiet samples b 0 (omega arith) in
    (λ e. (there e).1, λ h. back (omega (arith, leading-le (not b) samples), h))

-- What a button sends after power on is a press, a release, a press, and so on.
pub poll_all-Alternate : (samples : List Bool) → Alternate false (poll_all samples released).1
poll_all-Alternate samples = events-Alternate samples false 0 (omega arith)
