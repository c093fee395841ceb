-- ===== src/Radio/Manager.antt =====
-- The task of firmware/golfer/src/radio.rs over any history: the commands are served in their order,
-- each once, and the radio listens when the last of them says so.
use golfer.Prelude.{
  if-both, ℕ, ◌≡◌, refl, sym, ap, ◌∙◌, Bool, true, false, List, [], ◌∷◌, ◌++◌, length, ltb,
  if◌then◌else◌, append_nil, append_snoc, take,
}
use mathlib.Core.List.{append_assoc}
use golfer.Prelude.Results.{Result, ok, err}
use golfer.Radio.{
  TxRequest, RadioCommand, set_receive_enabled, transmit, TxEvent, LoraPhy, Radio, Place, draining,
  standby, window, Task, completion, completed, handle_command, transmit_packet, forwarded,
  Reception, frame, receive_timeout, rx_error, opened, resume, advance, prepare_receive_window,
  started, send, goes, Event, arrives, goes_on, step, run, command_channel_depth,
}

-- Which transmission an event or a command is about: its token and its length.
abbrev pub event_id : TxEvent → ℕ × ℕ
event_id e = (e.token, e.len)

abbrev pub event_ids : List TxEvent → List (ℕ × ℕ)
event_ids [] = []
event_ids (e ∷ events) = event_id e ∷ event_ids events

-- The transmissions that commands ask for.
abbrev pub asked : List RadioCommand → List (ℕ × ℕ)
asked [] = []
asked (set_receive_enabled enabled ∷ commands) = asked commands
asked (transmit request ∷ commands) = (request.token, request.len) ∷ asked commands

-- Whether the radio listens after commands.
abbrev pub listens : Bool → List RadioCommand → Bool
listens enabled [] = enabled
listens enabled (set_receive_enabled next ∷ commands) = listens next commands
listens enabled (transmit request ∷ commands) = listens request.resume_receive commands

event_ids-append : (xs ys : List TxEvent) → event_ids (xs ++ ys) ≡ event_ids xs ++ event_ids ys
event_ids-append [] ys = refl
event_ids-append (x ∷ xs) ys = ap (λ (t : List (ℕ × ℕ)). event_id x ∷ t) (event_ids-append xs ys)

pub asked-append : (xs ys : List RadioCommand) → asked (xs ++ ys) ≡ asked xs ++ asked ys
asked-append [] ys = refl
asked-append (set_receive_enabled enabled ∷ xs) ys = asked-append xs ys
asked-append (transmit request ∷ xs) ys =
    ap (λ (t : List (ℕ × ℕ)). (request.token, request.len) ∷ t) (asked-append xs ys)

listens-append :
    (enabled : Bool) (xs ys : List RadioCommand)
    → listens enabled (xs ++ ys) ≡ listens (listens enabled xs) ys
listens-append enabled [] ys = refl
listens-append enabled (set_receive_enabled next ∷ xs) ys = listens-append next xs ys
listens-append enabled (transmit request ∷ xs) ys = listens-append request.resume_receive xs ys

completion-id :
    {E : Type 0} (request : TxRequest) (result : Result E ℕ)
    → event_id (completion request result) ≡ (request.token, request.len)
completion-id request (ok us) = refl
completion-id request (err e) = refl

module _ {H L M R T S E : Type 0} (phy : LoraPhy H L M R T S E) where
  -- A command adds its event, and sets the mode; nothing else of the task changes but its radio.
  abbrev pub Handles : RadioCommand → Task L M R T S → Task L M R T S → Type 0
  Handles command k next =
      (event_ids next.tx_events ≡ event_ids k.tx_events ++ asked (command ∷ []))
      × (next.rx_enabled ≡ listens k.rx_enabled (command ∷ []))
      × (next.at ≡ k.at)
      × (next.commands ≡ k.commands)
      × (next.received ≡ k.received)

  completed-Handles :
      (request : TxRequest) (k : Task L M R T S) (sent : Radio L M R T × Result E ℕ)
      → Handles (transmit request) k (completed phy request k sent)
  completed-Handles request k (radio, result) = (
    event_ids-append k.tx_events (completion request result ∷ [])
        ∙ ap (λ id. event_ids k.tx_events ++ (id ∷ [])) (completion-id request result),
    refl,
    refl,
    refl,
    refl,
  )

  pub handle_command-Handles :
      (command : RadioCommand) (k : Task L M R T S)
      → Handles command k (handle_command phy command k)
  unfolding handle_command
  handle_command-Handles (set_receive_enabled enabled) k =
      (sym (append_nil (event_ids k.tx_events)), refl, refl, refl, refl)
  handle_command-Handles (transmit request) k =
      completed-Handles request k
        (transmit_packet phy k.radio (take request.len request.data_bytes) request.power_dbm)

  -- What a window leaves alone.
  abbrev pub Listened : Task L M R T S → Task L M R T S → Type 0
  Listened k next =
      (next.tx_events ≡ k.tx_events)
      × (next.rx_enabled ≡ k.rx_enabled)
      × (next.commands ≡ k.commands)

  forwarded-Listened :
      (k : Task L M R T S) (end : L × Reception S) → Listened k (forwarded phy k end)
  forwarded-Listened k (lora, frame len bytes status) = (refl, refl, refl)
  forwarded-Listened k (lora, receive_timeout) = (refl, refl, refl)
  forwarded-Listened k (lora, rx_error) = (refl, refl, refl)

  pub opened-Listened :
      (k : Task L M R T S) (prepared : Radio L M R T × Result E (Unit {0}))
      → Listened k (opened phy k prepared)
  opened-Listened k (radio, ok done) = forwarded-Listened (record k { radio = radio }) _
  opened-Listened k (radio, err e) = (refl, refl, refl)

  -- Where the task is agrees with the mode.
  abbrev pub Placed : Place → Bool → Type 0
  Placed draining enabled = Unit
  Placed standby enabled = enabled ≡ false
  Placed window enabled = enabled ≡ true

  -- Of the commands that were accepted, those that were handled are the first, each transmission among
  -- them has its event, in order, and the mode is that of the last of them.
  abbrev pub Served : List RadioCommand → Task L M R T S → Type 0
  Served accepted k =
      (handled : List RadioCommand) × (handled ++ k.commands ≡ accepted)
      × (event_ids k.tx_events ≡ asked handled)
      × (k.rx_enabled ≡ listens true handled)
      × Placed k.at k.rx_enabled

  after_command :
      (accepted handled rest : List RadioCommand) (command : RadioCommand) (k next : Task L M R T S)
      → handled ++ (command ∷ rest) ≡ accepted
      → event_ids k.tx_events ≡ asked handled
      → k.rx_enabled ≡ listens true handled
      → k.at ≡ draining
      → k.commands ≡ rest
      → Handles command k next
      → Served accepted next
  after_command accepted handled rest command k next e ids mode at commands (h0, h1, h2, h3, h4) = (
    handled ++ (command ∷ []),
    ap (λ cs. (handled ++ (command ∷ [])) ++ cs) (h3 ∙ commands)
        ∙ append_snoc handled command rest
        ∙ e,
    h0 ∙ ap (λ xs. xs ++ asked (command ∷ [])) ids ∙ sym (asked-append handled (command ∷ [])),
    h1 ∙ ap (λ b. listens b (command ∷ [])) mode ∙ sym (listens-append true handled (command ∷ [])),
    rw (h2 ∙ at) tt,
  )

  Placed-next : (enabled : Bool) → Placed (if enabled then window else standby) enabled
  Placed-next true = refl
  Placed-next false = refl

  resume-Served :
      (accepted : List RadioCommand) (at : Place) (commands : List RadioCommand)
      (k : Task L M R T S)
      → k.at ≡ at
      → k.commands ≡ commands
      → Served accepted k
      → Served accepted (resume phy at commands k)
  resume-Served accepted draining (command ∷ rest) k ea ec (handled, e, ids, mode, h) =
      after_command accepted handled rest command (record k { commands = rest })
        (handle_command phy command (record k { commands = rest }))
        (ap (λ cs. handled ++ cs) (sym ec) ∙ e) ids mode ea refl
        (handle_command-Handles command (record k { commands = rest }))
  resume-Served accepted draining [] k ea ec (handled, e, ids, mode, h) =
      (handled, e, ids, mode, Placed-next k.rx_enabled)
  resume-Served accepted standby (command ∷ rest) k ea ec (handled, e, ids, mode, h) =
      after_command accepted handled rest command (record k { commands = rest; at = draining })
        (handle_command phy command (record k { commands = rest; at = draining }))
        (ap (λ cs. handled ++ cs) (sym ec) ∙ e) ids mode refl refl
        (handle_command-Handles command (record k { commands = rest; at = draining }))
  resume-Served accepted standby [] k ea ec h = h
  resume-Served accepted window commands k ea ec (handled, e, ids, mode, h) =
      let (l0, l1, l2) = opened-Listened k (prepare_receive_window phy k.radio) in
      (handled, ap (λ cs. handled ++ cs) l2 ∙ e, ap event_ids l0 ∙ ids, l1 ∙ mode, tt)

  -- What an event adds to the commands that were accepted.
  abbrev pub entry : Event phy → Task L M R T S → List RadioCommand
  entry (arrives command) k =
      if ltb (length k.commands) command_channel_depth then command ∷ [] else []
  entry goes_on k = []

  abbrev pub accepted_in : List (Event phy) → Task L M R T S → List RadioCommand
  accepted_in [] k = []
  accepted_in (event ∷ events) k = entry event k ++ accepted_in events (step phy event k)

  arrives-Served :
      (room : Bool) (command : RadioCommand) (accepted : List RadioCommand) (k : Task L M R T S)
      → Served accepted k
      → Served
          (accepted ++ (if room then command ∷ [] else []))
          (if room then send phy command k else k)
  arrives-Served true command accepted k (handled, e, ids, mode, h) = (
    handled,
    sym (append_assoc handled k.commands (command ∷ [])) ∙ ap (λ cs. cs ++ (command ∷ [])) e,
    ids,
    mode,
    h,
  )
  arrives-Served false command accepted k h = rw (append_nil accepted) h

  step-Served :
      (event : Event phy) (accepted : List RadioCommand) (k : Task L M R T S)
      → Served accepted k
      → Served (accepted ++ entry event k) (step phy event k)
  unfolding advance
  step-Served (arrives command) accepted k h =
      arrives-Served (ltb (length k.commands) command_channel_depth) command accepted k h
  step-Served goes_on accepted k h = rw (append_nil accepted) (
      if-both (Served accepted) (goes phy k) (resume-Served accepted k.at k.commands k refl refl h)
        h)

  run-Served_from :
      (events : List (Event phy)) (accepted : List RadioCommand) (k : Task L M R T S)
      → Served accepted k
      → Served (accepted ++ accepted_in events k) (run phy events k)
  unfolding run
  run-Served_from [] accepted k h = rw (append_nil accepted) h
  run-Served_from (event ∷ events) accepted k h =
      rw (sym (append_assoc accepted (entry event k) (accepted_in events (step phy event k)))) (
        run-Served_from events (accepted ++ entry event k) (step phy event k)
          (step-Served event accepted k h))

  -- After any history of commands that arrive and steps of the task, with a radio that may fail at any
  -- time: the commands that were handled are the first of those that the channel took, in order, and
  -- the others wait; each transmission among them has exactly one event, with its token and length, in
  -- order, of which the last may still wait for room in the channel; and the mode for what follows is
  -- to listen exactly if the last of them says so.
  pub run-Served :
      (radio : Radio L M R T) (events : List (Event phy))
      → Served (accepted_in events (started phy radio)) (run phy events (started phy radio))
  run-Served radio events = run-Served_from events [] (started phy radio) ([], refl, refl, refl, tt)
