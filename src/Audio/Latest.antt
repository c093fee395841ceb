-- ===== src/Audio/Latest.antt =====
-- The audio task of firmware/golfer/src/audio.rs and the newest routine request.
use golfer.Prelude.{
  ◌≡◌, refl, ap, sym, ◌∙◌, Option, none, some, List, [], ◌∷◌, ◌++◌, if-both, ltb, length,
}
use golfer.Audio.{
  Tone, UiSound, AudioTask, started, signal, signal_all, send, take_request, take_and_apply,
  apply_routine, turn, Event, routine, queued, turned, step, run, last_applied, ui_sequence,
}

-- The last of the requests, if there is one.
abbrev last_request : Option Tone → List (Option Tone) → Option Tone
last_request wish [] = wish
last_request wish (next ∷ tones) = last_request next tones

-- The newest request among the events.
abbrev pub newest : Option Tone → List Event → Option Tone
newest wish [] = wish
newest wish (routine next ∷ events) = newest next events
newest wish (queued sound ∷ events) = newest wish events
newest wish (turned meanwhile ∷ events) = newest (last_request wish meanwhile) events

-- The tone that the task is to play: the request that it has not taken, or the one that it has.
abbrev pub wanted : Option (Option Tone) → Option Tone → Option Tone
wanted none wish = wish
wanted (some next) wish = next

-- The task wants this tone, and what it applied last is its routine tone.
abbrev Wants : Option Tone → AudioTask → Type 0
Wants wish k = (wanted k.routine_request k.routine_tone ≡ wish) × (k.applied ≡ k.routine_tone)

wanted-signal_all :
    (tones : List (Option Tone)) (k : AudioTask)
    → wanted (signal_all tones k).routine_request (signal_all tones k).routine_tone
      ≡ last_request (wanted k.routine_request k.routine_tone) tones
wanted-signal_all [] k = refl
wanted-signal_all (wish ∷ tones) k = wanted-signal_all tones (signal wish k)

applied-signal_all :
    (tones : List (Option Tone)) (k : AudioTask)
    → k.applied ≡ k.routine_tone
    → (signal_all tones k).applied ≡ (signal_all tones k).routine_tone
applied-signal_all [] k h = h
applied-signal_all (wish ∷ tones) k h = applied-signal_all tones (signal wish k) h

signal_all-Wants :
    (wish : Option Tone) (tones : List (Option Tone)) (k : AudioTask)
    → Wants wish k
    → Wants (last_request wish tones) (signal_all tones k)
signal_all-Wants wish tones k (want, heard) = (
  wanted-signal_all tones k ∙ ap (λ t. last_request t tones) want,
  applied-signal_all tones k heard,
)

-- Taking the request and applying the routine tone leaves the wanted tone applied.
take_request-applied :
    (request : Option (Option Tone)) (k : AudioTask)
    → k.routine_request ≡ request
    → (wanted
          (apply_routine (take_request request k)).routine_request
          (apply_routine (take_request request k)).routine_tone
        ≡ wanted request k.routine_tone)
      × ((apply_routine (take_request request k)).applied ≡ wanted request k.routine_tone)
take_request-applied none k e = (ap (λ r. wanted r k.routine_tone) e, refl)
take_request-applied (some latest) k e = (refl, refl)

turn-Wants :
    (wish : Option Tone) (meanwhile : List (Option Tone)) (sounds : List UiSound) (k : AudioTask)
    → Wants wish k
    → Wants (last_request wish meanwhile) (turn meanwhile sounds k)
turn-Wants wish meanwhile [] k h =
    signal_all-Wants wish meanwhile (take_and_apply k.routine_request k)
      (idle k.routine_request refl)
  where
    idle :
        (request : Option (Option Tone))
        → k.routine_request ≡ request
        → Wants wish (take_and_apply request k)
    idle none e = h
    idle (some latest) e = (sym (ap (λ r. wanted r k.routine_tone) e) ∙ h.0, refl)
turn-Wants wish meanwhile (sound ∷ sounds) k h =
    let silenced : AudioTask = record k {
      ui_sounds = sounds;
      applied = last_applied k.applied (ui_sequence sound);
    } in
    let played = signal_all meanwhile silenced in
    let want = wanted-signal_all meanwhile silenced ∙ ap (λ t. last_request t meanwhile) h.0 in
    let (kept, heard) = take_request-applied played.routine_request played refl in
    (kept ∙ want, same played.routine_request played)
  where
    same :
        (request : Option (Option Tone)) (k : AudioTask)
        → (apply_routine (take_request request k)).applied
          ≡ (apply_routine (take_request request k)).routine_tone
    same none k = refl
    same (some latest) k = refl

step-Wants :
    (wish : Option Tone) (event : Event) (k : AudioTask)
    → Wants wish k
    → Wants (newest wish (event ∷ [])) (step event k)
step-Wants wish (routine next) k h = (refl, h.1)
step-Wants wish (queued sound) k h = if-both (Wants wish) (ltb (length k.ui_sounds) 4) h h
step-Wants wish (turned meanwhile) k h = turn-Wants wish meanwhile k.ui_sounds k h

run-Wants :
    (wish : Option Tone) (events : List Event) (k : AudioTask)
    → Wants wish k
    → Wants (newest wish events) (run events k)
unfolding run
run-Wants wish [] k h = h
run-Wants wish (routine next ∷ events) k h =
    run-Wants next events (signal next k) (step-Wants wish (routine next) k h)
run-Wants wish (queued sound ∷ events) k h =
    run-Wants wish events (send sound k) (step-Wants wish (queued sound) k h)
run-Wants wish (turned meanwhile ∷ events) k h =
    run-Wants (last_request wish meanwhile) events (turn meanwhile k.ui_sounds k)
      (step-Wants wish (turned meanwhile) k h)

-- A turn in which nothing arrives leaves no request behind.
turn-taken : (sounds : List UiSound) (k : AudioTask) → (turn [] sounds k).routine_request ≡ none
turn-taken [] k = idle k.routine_request refl
  where
    idle :
        (request : Option (Option Tone))
        → k.routine_request ≡ request
        → (take_and_apply request k).routine_request ≡ none
    idle none e = e
    idle (some latest) e = refl
turn-taken (sound ∷ sounds) k =
    taken k.routine_request
      (record k { ui_sounds = sounds; applied = last_applied k.applied (ui_sequence sound) }) refl
  where
    taken :
        (request : Option (Option Tone)) (k : AudioTask)
        → k.routine_request ≡ request
        → (take_request request k).routine_request ≡ none
    taken none k e = e
    taken (some latest) k e = refl

run-last :
    (events : List Event) (event : Event) (k : AudioTask)
    → run (events ++ (event ∷ [])) k ≡ step event (run events k)
unfolding run
run-last [] event k = refl
run-last (first ∷ events) event k = run-last events event (step first k)

-- Whatever requests, UI sounds and turns of the task's loop came before, after one more turn in which
-- no request arrives the task plays the newest routine request, or silence if there was none or the
-- newest one was to stop. In particular the newest request, and no older one, resumes when a UI
-- sound ends.
pub run-newest :
    (events : List Event) → (run (events ++ (turned [] ∷ [])) started).applied ≡ newest none events
run-newest events =
    let k = run events started in
    let (want, heard) =
      turn-Wants (newest none events) [] k.ui_sounds k
        (run-Wants none events started (refl, refl)) in
    let next = turn [] k.ui_sounds k in
    ap (λ (s : AudioTask). s.applied) (run-last events (turned []) started)
    ∙ heard
    ∙ sym (ap (λ r. wanted r next.routine_tone) (turn-taken k.ui_sounds k))
    ∙ want
