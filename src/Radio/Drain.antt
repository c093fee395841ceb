-- ===== src/Radio/Drain.antt =====
-- That the radio manager of firmware/golfer/src/radio.rs gets to every command that waits.
use golfer.Prelude.{
  ℕ, zero, suc, ◌≤◌, ◌≡◌, refl, sym, ap, ◌∙◌, List, [], ◌∷◌, ◌++◌, length, replicate, arith,
  append_nil, subst, true, leb, length-append,
}
use mathlib.Core.List.{append_assoc}
use golfer.Radio.{
  RadioCommand, TxEvent, goes, step, LoraPhy, Place, draining, standby, window, Task,
  handle_command, prepare_receive_window, resume, advance, Event, goes_on, run,
}
use golfer.Radio.Manager.{
  asked, event_ids, asked-append, Handles, handle_command-Handles, opened-Listened,
}

-- The steps of the task until it has handled commands that wait.
abbrev steps_to : Place → List RadioCommand → ℕ
steps_to draining commands = length commands
steps_to standby commands = length commands
steps_to window commands = suc (length commands)

steps_to-le :
    (at : Place) (commands : List RadioCommand) → steps_to at commands ≤ suc (length commands)
steps_to-le draining commands = omega arith
steps_to-le standby commands = omega arith
steps_to-le window commands = omega arith

length-event_ids : (events : List TxEvent) → length (event_ids events) ≡ length events
length-event_ids [] = refl
length-event_ids (e ∷ events) = ap suc (length-event_ids events)

leb-true : (a b : ℕ) → a ≤ b → leb a b ≡ true
leb-true a b h = ground arith

module _ {H L M R T S E : Type 0} (phy : LoraPhy H L M R T S E) where
  -- No command waits, and the transmissions that were asked for have their events.
  abbrev pub Drained : List (ℕ × ℕ) → Task L M R T S → Type 0
  Drained ids k = (k.commands ≡ []) × (event_ids k.tx_events ≡ ids)

  abbrev pub steps : ℕ → List (Event phy)
  steps n = replicate n goes_on

  goes-room :
      (k : Task L M R T S) (later : List (ℕ × ℕ))
      → length (event_ids k.tx_events ++ later) ≤ 4
      → goes phy k ≡ true
  goes-room k later room =
      leb-true (length k.tx_events) 4
        (omega (arith, length-append (event_ids k.tx_events) later, length-event_ids k.tx_events))

  step-advance :
      (k : Task L M R T S) (later : List (ℕ × ℕ))
      → length (event_ids k.tx_events ++ later) ≤ 4
      → step phy goes_on k ≡ advance phy k
  step-advance k later room = rw (goes-room k later room) refl

  idle-Drained :
      (at : Place) (k : Task L M R T S) (ids : List (ℕ × ℕ))
      → Drained ids k
      → Drained ids (resume phy at [] k)
  idle-Drained draining k ids h = h
  idle-Drained standby k ids h = h
  idle-Drained window k ids (none_left, e) =
      let (l0, l1, l2) = opened-Listened phy k (prepare_receive_window phy k.radio) in
      (l2 ∙ none_left, ap event_ids l0 ∙ e)

  run-idle :
      (n : ℕ) (k : Task L M R T S) (ids : List (ℕ × ℕ))
      → length ids ≤ 4
      → Drained ids k
      → Drained ids (run phy (steps n) k)
  unfolding run advance
  run-idle zero k ids room h = h
  run-idle (suc n) k ids room h =
      let fits : length (event_ids k.tx_events ++ []) ≤ 4 =
        subst (λ xs. length xs ≤ 4) (sym h.1 ∙ sym (append_nil (event_ids k.tx_events))) room in
      run-idle n (step phy goes_on k) ids room (
        subst (Drained ids) (sym (step-advance k [] fits)) (
          subst (λ commands. Drained ids (resume phy k.at commands k)) (sym h.0)
            (idle-Drained k.at k ids h)))

  step-at :
      (at : Place) (commands : List RadioCommand) (k : Task L M R T S)
      → k.at ≡ at
      → k.commands ≡ commands
      → length (event_ids k.tx_events ++ asked commands) ≤ 4
      → step phy goes_on k ≡ resume phy at commands k
  unfolding advance
  step-at at commands k ea ec room =
      step-advance k (asked commands) room
      ∙ ap (λ a. resume phy a k.commands k) ea
      ∙ ap (λ cs. resume phy at cs k) ec

  ids_after :
      (k next : Task L M R T S) (command : RadioCommand) (rest : List RadioCommand)
      → Handles phy command k next
      → event_ids next.tx_events ++ asked rest ≡ event_ids k.tx_events ++ asked (command ∷ rest)
  ids_after k next command rest h =
      ap (λ ids. ids ++ asked rest) h.0
      ∙ append_assoc (event_ids k.tx_events) (asked (command ∷ [])) (asked rest)
      ∙ ap (λ ids. event_ids k.tx_events ++ ids) (sym (asked-append (command ∷ []) rest))

  run-Drained_from :
      (n : ℕ) (at : Place) (commands : List RadioCommand) (k : Task L M R T S)
      → k.at ≡ at
      → k.commands ≡ commands
      → steps_to at commands ≤ n
      → length (event_ids k.tx_events ++ asked commands) ≤ 4
      → Drained (event_ids k.tx_events ++ asked commands) (run phy (steps n) k)
  unfolding run advance
  run-Drained_from n at [] k ea ec h room =
      run-idle n k (event_ids k.tx_events ++ []) room (ec, sym (append_nil (event_ids k.tx_events)))
  run-Drained_from (suc n) draining (command ∷ rest) k ea ec h room =
      let waiting = record k { commands = rest } in
      let next = handle_command phy command waiting in
      let done = handle_command-Handles phy command waiting in
      subst (λ t. Drained (event_ids k.tx_events ++ asked (command ∷ rest)) (run phy (steps n) t))
        (sym (step-at draining (command ∷ rest) k ea ec room))
        (subst (λ ids. Drained ids (run phy (steps n) next))
          (ids_after waiting next command rest done)
          (run-Drained_from n draining rest next (done.2 ∙ ea) done.3 (omega arith)
            (subst (λ ids. length ids ≤ 4) (sym (ids_after waiting next command rest done)) room)))
  run-Drained_from (suc n) standby (command ∷ rest) k ea ec h room =
      let waiting = record k { commands = rest; at = draining } in
      let next = handle_command phy command waiting in
      let done = handle_command-Handles phy command waiting in
      subst (λ t. Drained (event_ids k.tx_events ++ asked (command ∷ rest)) (run phy (steps n) t))
        (sym (step-at standby (command ∷ rest) k ea ec room))
        (subst (λ ids. Drained ids (run phy (steps n) next))
          (ids_after waiting next command rest done)
          (run-Drained_from n draining rest next done.2 done.3 (omega arith)
            (subst (λ ids. length ids ≤ 4) (sym (ids_after waiting next command rest done)) room)))
  run-Drained_from (suc n) window (command ∷ rest) k ea ec h room =
      let next = resume phy window (command ∷ rest) k in
      let (l0, l1, l2) = opened-Listened phy k (prepare_receive_window phy k.radio) in
      subst (λ t. Drained (event_ids k.tx_events ++ asked (command ∷ rest)) (run phy (steps n) t))
        (sym (step-at window (command ∷ rest) k ea ec room))
        (subst (λ ids. Drained ids (run phy (steps n) next))
          (ap (λ events. event_ids events ++ asked (command ∷ rest)) l0)
          (run-Drained_from n draining (command ∷ rest) next refl (l2 ∙ ec) (omega arith) (
            subst (λ events. length (event_ids events ++ asked (command ∷ rest)) ≤ 4) (sym l0)
              room)))
  run-Drained_from zero draining (command ∷ rest) k ea ec h room = absurd (omega arith)
  run-Drained_from zero standby (command ∷ rest) k ea ec h room = absurd (omega arith)
  run-Drained_from zero window (command ∷ rest) k ea ec h room = absurd (omega arith)

  -- Whatever the radio does, as long as the events of all transmissions, those that were made and
  -- those that wait, fit the channel of four that nothing reads, the task gets to every command that
  -- waits: after as many steps as commands, and one more, none waits, and every transmission that
  -- was asked for has its event, after those that were there and in order.
  pub run-Drained :
      (k : Task L M R T S)
      → length (event_ids k.tx_events ++ asked k.commands) ≤ 4
      → Drained
          (event_ids k.tx_events ++ asked k.commands)
          (run phy (steps (suc (length k.commands))) k)
  run-Drained k room =
      run-Drained_from (suc (length k.commands)) k.at k.commands k refl refl
        (steps_to-le k.at k.commands) room
