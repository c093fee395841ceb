-- ===== src/Radio/Quiet.antt =====
-- The radio manager of firmware/golfer/src/radio.rs while reception is disabled.
use golfer.Prelude.{
  ◌≡◌, refl, sym, ◌∙◌, Bool, true, false, List, [], ◌∷◌, ◌++◌, All, length, ltb, if-both, subst,
}
use golfer.Radio.{
  RadioCommand, set_receive_enabled, transmit, LoraPhy, Place, draining, standby, window, Task,
  handle_command, resume, advance, goes, Event, arrives, goes_on, step, run, command_channel_depth,
}
use golfer.Radio.Manager.{listens, handle_command-Handles}

-- A command after which the radio does not listen.
abbrev Disables : RadioCommand → Type 0
Disables command = listens true (command ∷ []) ≡ false

abbrev pub Elsewhere : Place → Type 0
Elsewhere draining = Unit
Elsewhere standby = Unit
Elsewhere window = ⊥

All-snoc :
    (commands : List RadioCommand) (command : RadioCommand)
    → All Disables commands
    → Disables command
    → All Disables (commands ++ (command ∷ []))
All-snoc [] command h hc = (hc, tt)
All-snoc (c ∷ commands) command h hc = (h.0, All-snoc commands command h.1 hc)

module _ {H L M R T S E : Type 0} (phy : LoraPhy H L M R T S E) where
  -- Reception is disabled, no window is open, and no command that waits enables it.
  abbrev pub Disabled : Task L M R T S → Type 0
  Disabled k = (k.rx_enabled ≡ false) × Elsewhere k.at × All Disables k.commands

  abbrev pub DisablesEvent : Event phy → Type 0
  DisablesEvent (arrives command) = Disables command
  DisablesEvent goes_on = Unit

  abbrev pub Silent : Task L M R T S → Task L M R T S → Type 0
  Silent k next = (next.received ≡ k.received) × Disabled next

  listens_either :
      (enabled : Bool) (command : RadioCommand)
      → Disables command
      → listens enabled (command ∷ []) ≡ false
  listens_either enabled (set_receive_enabled next) h = h
  listens_either enabled (transmit request) h = h

  handled-Silent :
      (command : RadioCommand) (rest : List RadioCommand) (k : Task L M R T S)
      → Disables command
      → All Disables rest
      → Elsewhere k.at
      → k.commands ≡ rest
      → Silent k (handle_command phy command k)
  handled-Silent command rest k hc hs at e =
      let (h0, h1, h2, h3, h4) = handle_command-Handles phy command k in
      (
        h4,
        (h1 ∙ listens_either k.rx_enabled command hc, subst Elsewhere (sym h2) at, rw (h3 ∙ e) hs),
      )

  resume-Silent :
      (at : Place) (commands : List RadioCommand) (k : Task L M R T S)
      → k.at ≡ at
      → k.commands ≡ commands
      → All Disables commands
      → Disabled k
      → Silent k (resume phy at commands k)
  resume-Silent draining (command ∷ rest) k ea ec hs (off, at, h) =
      handled-Silent command rest (record k { commands = rest }) hs.0 hs.1 at refl
  resume-Silent draining [] k ea ec hs (off, at, h) = (refl, (off, rw off tt, h))
  resume-Silent standby (command ∷ rest) k ea ec hs (off, at, h) =
      handled-Silent command rest (record k { commands = rest; at = draining }) hs.0 hs.1 tt refl
  resume-Silent standby [] k ea ec hs h = (refl, h)
  resume-Silent window commands k ea ec hs (off, at, h) = absurd (subst Elsewhere ea at)

  step-Silent :
      (event : Event phy) (k : Task L M R T S)
      → DisablesEvent event
      → Disabled k
      → Silent k (step phy event k)
  unfolding advance
  step-Silent (arrives command) k hc (off, at, h) =
      if-both (Silent k) (ltb (length k.commands) command_channel_depth)
        (refl, (off, at, All-snoc k.commands command h hc)) (refl, (off, at, h))
  step-Silent goes_on k hc h =
      if-both (Silent k) (goes phy k) (resume-Silent k.at k.commands k refl refl h.2 h) (refl, h)

  -- From the time that reception is disabled, and while no command enables it again, nothing is
  -- received, whatever the radio does, and reception stays disabled.
  pub run-Silent :
      (events : List (Event phy)) (k : Task L M R T S)
      → All DisablesEvent events
      → Disabled k
      → Silent k (run phy events k)
  unfolding run
  run-Silent [] k hs h = (refl, h)
  run-Silent (event ∷ events) k hs h =
      let (same, off) = step-Silent event k hs.0 h in
      let (later, still) = run-Silent events (step phy event k) hs.1 off in (later ∙ same, still)
