-- ===== src/Buttons/AudioTest/Invariant.antt =====
-- The tone that plays is that of a held button (firmware/golfer/src/main.rs).
use golfer.Buttons.AudioTest.{
  AudioCommand, AudioTest, held, set_held, stop, tone_of, is_active, fallback, resume, on_event,
  on_events, latest, silent,
}
use golfer.Prelude.{
  List, [], ◌∷◌, Bool, Option, Bool-cases, false, inl, inr, none, refl, some, subst, sym, true,
  ◌==◌, ◌≡◌, ◌⊎◌, ◌∙◌,
}
use golfer.Buttons.{Button, one, two, three, four, ButtonEvent, index}

-- The active button is held, and without one no button is held.
abbrev Owned : Option Button → AudioTest → Type 0
Owned (some button) s = held button s ≡ true
Owned none s = (b : Button) → held b s ≡ false

-- What the speaker does is what the active button asks for; before the first event it is silent.
abbrev Playing : Option Button → Option AudioCommand → Type 0
Playing (some button) playing = playing ≡ some (tone_of button)
Playing none playing = (playing ≡ none) ⊎ (playing ≡ some stop)

pub record AudioInv (s : AudioTest) (playing : Option AudioCommand) : Type 0 where
  pub owned : Owned s.active s
  pub heard : Playing s.active playing

held-set_other :
    (a b : Button) (v : Bool) (s : AudioTest)
    → (index a == index b) ≡ false
    → held a (set_held b v s) ≡ held a s
held-set_other one one v s h = cc
held-set_other two two v s h = cc
held-set_other three three v s h = cc
held-set_other four four v s h = cc
held-set_other _ _ v s h = refl

held-set_false :
    (a b : Button) (s : AudioTest) → held a s ≡ false → held a (set_held b false s) ≡ false
held-set_false one one s h = refl
held-set_false two two s h = refl
held-set_false three three s h = refl
held-set_false four four s h = refl
held-set_false _ _ s h = h

active-set_held : (b : Button) (v : Bool) (s : AudioTest) → (set_held b v s).active ≡ s.active
active-set_held one v s = refl
active-set_held two v s = refl
active-set_held three v s = refl
active-set_held four v s = refl

pressed-Inv :
    (b : Button) (s : AudioTest)
    → AudioInv (record (set_held b true s) { active = some b }) (some (tone_of b))
pressed-Inv one s = record { owned = refl; heard = refl }
pressed-Inv two s = record { owned = refl; heard = refl }
pressed-Inv three s = record { owned = refl; heard = refl }
pressed-Inv four s = record { owned = refl; heard = refl }

abbrev resumed : Bool → Bool → Bool → Bool → Option Button → AudioTest
resumed h1 h2 h3 h4 a = record { held_1 = h1; held_2 = h2; held_3 = h3; held_4 = h4; active = a }

pub silent-Owned : (b : Button) → held b silent ≡ false
silent-Owned one = refl
silent-Owned two = refl
silent-Owned three = refl
silent-Owned four = refl

-- The tone that takes over, by the buttons that are still held.
resumed-Inv :
    (h1 h2 h3 h4 : Bool) (a : Option Button)
    → let next = fallback (resumed h1 h2 h3 h4 a) in
      AudioInv (resumed h1 h2 h3 h4 next) (some (resume next))
resumed-Inv h1 h2 h3 true a = record { owned = refl; heard = refl }
resumed-Inv h1 h2 true false a = record { owned = refl; heard = refl }
resumed-Inv h1 true false false a = record { owned = refl; heard = refl }
resumed-Inv true false false false a = record { owned = refl; heard = refl }
resumed-Inv false false false false a = record { owned = silent-Owned; heard = inr refl }

-- Releasing a button that is not active leaves the owner of the tone.
Owned-released :
    (a : Option Button) (b : Button) (s : AudioTest)
    → is_active a b ≡ false
    → Owned a s
    → Owned a (set_held b false s)
Owned-released none b s h o = λ c. held-set_false c b s (o c)
Owned-released (some c) b s h o = held-set_other c b false s h ∙ o

released-Inv :
    (b : Button) (s : AudioTest) (playing : Option AudioCommand)
    → is_active s.active b ≡ false
    → AudioInv s playing
    → AudioInv (set_held b false s) playing
released-Inv b s playing h v =
    let kept = sym (active-set_held b false s) in
    record {
      owned =
          subst (λ a. Owned a (set_held b false s)) kept (Owned-released s.active b s h v.owned);
      heard = subst (λ a. Playing a playing) kept v.heard;
    }

on_event-Inv :
    (e : ButtonEvent) (s : AudioTest) (playing : Option AudioCommand)
    → AudioInv s playing
    → AudioInv (on_event e s).0 (latest (on_event e s).1 playing)
unfolding on_event
on_event-Inv e s playing v = elim (Bool-cases e.pressed) [
  | inl down ↦ rw down (pressed-Inv e.button s)
  | inr up ↦ elim (Bool-cases (is_active s.active e.button)) [
    | inl its ↦
        let t = set_held e.button false s in
        rw (up, its) (resumed-Inv t.held_1 t.held_2 t.held_3 t.held_4 t.active)
    | inr other ↦ rw (up, other) (released-Inv e.button s playing other v)
  ]
]

-- Whatever is pressed and released, from a state where it holds on: the active button is held, no
-- button is held when none is active, and the last command to the audio task asks for the tone of the
-- active button, or for silence when there is none.
pub on_events-Inv :
    (es : List ButtonEvent) (s : AudioTest) (playing : Option AudioCommand)
    → AudioInv s playing
    → AudioInv (on_events es s playing).0 (on_events es s playing).1
unfolding on_events
on_events-Inv [] s playing v = v
on_events-Inv (e ∷ rest) s playing v =
    on_events-Inv rest (on_event e s).0 (latest (on_event e s).1 playing)
      (on_event-Inv e s playing v)
