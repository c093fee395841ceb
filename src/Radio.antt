-- ===== src/Radio.antt =====
-- The radio's owner, firmware/golfer/src/radio.rs: `Radio` over the driver of lora-phy, which is a
-- parameter, the commands and the task that serves them between the windows of reception. The channel
-- of events has a depth of four and nothing in the firmware receives from it: once it is full the
-- task waits in `send` for ever. The main loop receives the packets, so there the task only waits for
-- a while, and what it has sent is a list of any length.
pub mod Requests
pub mod Manager
mod Quiet
mod Drain
mod Tests
use golfer.Prelude.{
  ℕ, ◌-◌, ◌%◌, ◌^◌, Bool, true, false, Option, none, some, List, [], ◌∷◌, ◌++◌, length, take,
  replicate, copy_at, ltb, leb, if◌then◌else◌,
}
use golfer.Prelude.Int.{ℤ, pos}
use golfer.Prelude.Results.{Result, ok, err, ◌>>=◌}

abbrev rx_buffer_size : ℕ
rx_buffer_size = 255

abbrev pub tx_buffer_size : ℕ
tx_buffer_size = 255

abbrev lora_frequency_hz : ℕ
lora_frequency_hz = 915_000_000

abbrev default_tx_power_dbm : ℤ
default_tx_power_dbm = pos 14

abbrev rx_slice_symbols : ℕ
rx_slice_symbols = 248

abbrev pub command_channel_depth : ℕ
command_channel_depth = 4

abbrev pub tx_event_channel_depth : ℕ
tx_event_channel_depth = 4

pub record TxRequest : Type 0 where
  pub token : ℕ
  pub len : ℕ
  pub data_bytes : List ℕ
  pub power_dbm : ℤ
  pub resume_receive : Bool

unfoldable pub new_request : ℕ → List ℕ → ℤ → Bool → Option TxRequest
new_request token payload power_dbm resume_receive =
    if ltb tx_buffer_size (length payload)
    then none
    else some (record {
      token = token;
      len = length payload % 2 ^ 8;
      data_bytes = copy_at (replicate tx_buffer_size 0) 0 payload;
      power_dbm = power_dbm;
      resume_receive = resume_receive;
    })

abbrev pub new_default : ℕ → List ℕ → Bool → Option TxRequest
new_default token payload resume_receive =
    new_request token payload default_tx_power_dbm resume_receive

pub data RadioCommand : Type 0 where
  set_receive_enabled : Bool → RadioCommand
  transmit : TxRequest → RadioCommand

pub record TxEvent : Type 0 where
  pub token : ℕ
  pub len : ℕ
  pub success : Bool
  pub tx_duration_us : ℕ

pub record RxPacket (S : Type 0) : Type 0 where
  pub len : ℕ
  pub data_bytes : List ℕ
  pub status : S

-- How a reception ends: a frame with the buffer that it leaves, `RadioError::ReceiveTimeout`, or
-- another error.
pub data Reception (S : Type 0) : Type 0 where
  frame : ℕ → List ℕ → S → Reception S
  receive_timeout : Reception S
  rx_error : Reception S

-- The driver: `H` is what it is made of, `L` its state with the radio's and the clock's, `M`, `R`
-- and `T` its parameters, `S` the status of a packet, `E` its errors.
pub record LoraPhy (H L M R T S E : Type 0) : Type 0 where
  pub new_lora : H → Bool → Result E L
  -- For SF7, 125 kHz and 4/5, at a frequency.
  pub create_modulation_params : L → ℕ → Result E (L × M)
  pub create_rx_packet_params : L → ℕ → Bool → ℕ → Bool → Bool → M → Result E (L × R)
  pub create_tx_packet_params : L → ℕ → Bool → Bool → Bool → M → Result E (L × T)
  -- For `RxMode::Single` of a number of symbols.
  pub prepare_for_rx : L → ℕ → M → R → L × Result E (Unit {0})
  pub rx : L → R → List ℕ → L × Reception S
  pub prepare_for_tx : L → M → T → ℤ → List ℕ → L × T × Result E (Unit {0})
  pub tx : L → L × Result E (Unit {0})
  pub now_us : L → ℕ

pub record Radio (L M R T : Type 0) : Type 0 where
  pub lora : L
  pub modulation_params : M
  pub rx_packet_params : R
  pub tx_packet_params : T

-- Where the task is: at `try_receive`, waiting at `receive`, or about to open a window.
pub data Place : Type 0 where
  draining standby window : Place

pub record Task (L M R T S : Type 0) : Type 0 where
  pub radio : Radio L M R T
  pub rx_enabled : Bool
  pub at : Place
  -- The command channel, and what was sent to the other two. Of the events the first four are in the
  -- channel, and a fifth is the one whose `send` waits.
  pub commands : List RadioCommand
  pub received : List (RxPacket S)
  pub tx_events : List TxEvent

-- What a transmission comes to, for the application.
abbrev pub completion : {E : Type 0} → TxRequest → Result E ℕ → TxEvent
completion request (ok us) = record {
  token = request.token;
  len = request.len;
  success = true;
  tx_duration_us = us;
}
completion request (err e) = record {
  token = request.token;
  len = request.len;
  success = false;
  tx_duration_us = 0;
}

module _ {H L M R T S E : Type 0} (phy : LoraPhy H L M R T S E) where
  unfoldable pub prepare_receive_window : Radio L M R T → Radio L M R T × Result E (Unit {0})
  prepare_receive_window radio =
      let (lora, outcome) =
        phy.prepare_for_rx radio.lora rx_slice_symbols radio.modulation_params
          radio.rx_packet_params in
      (record radio { lora = lora }, outcome)

  abbrev prepared_radio : Radio L M R T × Result E (Unit {0}) → Result E (Radio L M R T)
  prepared_radio (radio, ok done) = ok radio
  prepared_radio (radio, err e) = err e

  unfoldable pub new_radio : H → Result E (Radio L M R T)
  new_radio chip = do
    lora ← phy.new_lora chip false
    (lora, modulation) ← phy.create_modulation_params lora lora_frequency_hz
    (lora, rx_params) ←
        phy.create_rx_packet_params lora 8 false rx_buffer_size true false modulation
    (lora, tx_params) ← phy.create_tx_packet_params lora 8 false true false modulation
    prepared_radio (
        prepare_receive_window (record {
          lora = lora;
          modulation_params = modulation;
          rx_packet_params = rx_params;
          tx_packet_params = tx_params;
        }))

  -- `self.lora.tx().await?`, and the time that it took.
  abbrev timed : Radio L M R T → ℕ → L × Result E (Unit {0}) → Radio L M R T × Result E ℕ
  timed radio started (lora, ok done) =
      (record radio { lora = lora }, ok (phy.now_us lora - started))
  timed radio started (lora, err e) = (record radio { lora = lora }, err e)

  abbrev when_prepared : Radio L M R T → Result E (Unit {0}) → Radio L M R T × Result E ℕ
  when_prepared radio (ok done) = timed radio (phy.now_us radio.lora) (phy.tx radio.lora)
  when_prepared radio (err e) = (radio, err e)

  unfoldable pub transmit_packet : Radio L M R T → List ℕ → ℤ → Radio L M R T × Result E ℕ
  transmit_packet radio payload power_dbm =
      let (lora, tx_params, outcome) =
        phy.prepare_for_tx radio.lora radio.modulation_params radio.tx_packet_params power_dbm
          payload in
      when_prepared (record radio { lora = lora; tx_packet_params = tx_params }) outcome

  -- The code sets `rx_enabled` after `send`; nothing looks at it while `send` waits.
  abbrev completed : TxRequest → Task L M R T S → Radio L M R T × Result E ℕ → Task L M R T S
  completed request k (radio, result) = record k {
    radio = radio;
    rx_enabled = request.resume_receive;
    tx_events = k.tx_events ++ (completion request result ∷ []);
  }

  unfoldable pub handle_command : RadioCommand → Task L M R T S → Task L M R T S
  handle_command (set_receive_enabled enabled) k = record k { rx_enabled = enabled }
  handle_command (transmit request) k =
      completed request k
        (transmit_packet k.radio (take request.len request.data_bytes) request.power_dbm)

  -- What the task does with the end of a reception.
  abbrev pub forwarded : Task L M R T S → L × Reception S → Task L M R T S
  forwarded k (lora, frame len bytes status) = record k {
    radio = record k.radio { lora = lora };
    received = k.received ++ (record { len = len; data_bytes = bytes; status = status } ∷ []);
  }
  forwarded k (lora, receive_timeout) = record k { radio = record k.radio { lora = lora } }
  forwarded k (lora, rx_error) = record k { radio = record k.radio { lora = lora } }

  abbrev receive_window : Task L M R T S → Task L M R T S
  receive_window k =
      forwarded k (phy.rx k.radio.lora k.radio.rx_packet_params (replicate rx_buffer_size 0))

  abbrev pub opened : Task L M R T S → Radio L M R T × Result E (Unit {0}) → Task L M R T S
  opened k (radio, ok done) = receive_window (record k { radio = radio })
  opened k (radio, err e) = record k { radio = radio }

  -- The task up to its next look at the command channel, or at `rx_enabled`.
  abbrev pub resume : Place → List RadioCommand → Task L M R T S → Task L M R T S
  resume draining (command ∷ rest) k = handle_command command (record k { commands = rest })
  resume draining [] k = record k { at = if k.rx_enabled then window else standby }
  resume standby (command ∷ rest) k =
      handle_command command (record k { commands = rest; at = draining })
  resume standby [] k = k
  resume window commands k = record (opened k (prepare_receive_window k.radio)) { at = draining }

  unfoldable pub advance : Task L M R T S → Task L M R T S
  advance k = resume k.at k.commands k

  abbrev pub started : Radio L M R T → Task L M R T S
  started radio = record {
    radio = radio;
    rx_enabled = true;
    at = draining;
    commands = [];
    received = [];
    tx_events = [];
  }

  -- A command is sent when the channel has room: the sender waits until then.
  abbrev pub send : RadioCommand → Task L M R T S → Task L M R T S
  send command k = record k { commands = k.commands ++ (command ∷ []) }

  -- What happens: a command arrives, or the task goes on.
  pub data Event : Type 0 where
    arrives : RadioCommand → Event
    goes_on : Event

  -- Nothing takes an event out of the channel: a task whose last event found no room stays there.
  abbrev pub goes : Task L M R T S → Bool
  goes k = leb (length k.tx_events) tx_event_channel_depth

  abbrev pub step : Event → Task L M R T S → Task L M R T S
  step (arrives command) k =
      if ltb (length k.commands) command_channel_depth then send command k else k
  step goes_on k = if goes k then advance k else k

  unfoldable pub run : List Event → Task L M R T S → Task L M R T S
  run [] k = k
  run (event ∷ events) k = run events (step event k)
