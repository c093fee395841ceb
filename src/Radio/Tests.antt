-- ===== src/Radio/Tests.antt =====
-- The radio's owner at concrete inputs: a radio that transmits 1 ms for each byte and that receives
-- the same frame in every window.
use golfer.Prelude.{
  arith, ℕ, Bool, ◌+◌, ◌≡◌, refl, true, false, some, none, List, [], ◌∷◌, length, replicate, set,
}
use golfer.Prelude.Int.{pos}
use golfer.Prelude.Results.{ok}
use golfer.Radio.{
  TxRequest, set_receive_enabled, transmit, LoraPhy, Radio, Task, standby, frame, new_radio,
  new_request, new_default, started, Event, arrives, goes_on, run, handle_command, transmit_packet,
  prepare_receive_window, advance,
}
use golfer.Radio.Manager.{Served, run-Served, accepted_in}
use golfer.Radio.Quiet.{run-Silent, Silent}
use golfer.Radio.Drain.{run-Drained, Drained}

-- The state of the driver is its clock.
abbrev prompt : LoraPhy (Unit {0}) ℕ (Unit {0}) (Unit {0}) ℕ ℕ ℕ
prompt = record {
  new_lora = λ chip sync_word. ok 0;
  create_modulation_params = λ lora frequency. ok (lora, tt);
  create_rx_packet_params = λ lora preamble implicit max crc iq modulation. ok (lora, tt);
  create_tx_packet_params = λ lora preamble implicit crc iq modulation. ok (lora, 0);
  prepare_for_rx = λ lora symbols modulation params. (lora + 100, ok tt);
  rx = λ lora params buffer. (lora + 250_000, frame 2 (set (set buffer 0 0x47) 1 0x50) 9);
  prepare_for_tx = λ lora modulation params power payload. (lora + 100, length payload, ok tt);
  tx = λ lora. (lora + 46_000, ok tt);
  now_us = λ lora. lora;
}

abbrev radio : Radio ℕ (Unit {0}) (Unit {0}) ℕ
radio = record { lora = 100; modulation_params = tt; rx_packet_params = tt; tx_packet_params = 0 }

initialized : new_radio prompt tt ≡ ok radio
unfolding new_radio prepare_receive_window
initialized = refl

abbrev request : ℕ → Bool → TxRequest
request token resume_receive = record {
  token = token;
  len = 2;
  data_bytes = 7 ∷ 9 ∷ replicate 253 0;
  power_dbm = pos 14;
  resume_receive = resume_receive;
}

requested : new_default 5 (7 ∷ 9 ∷ []) true ≡ some (request 5 true)
unfolding new_request
requested = refl

too_long : new_default 5 (replicate 256 1) true ≡ none
unfolding new_request
too_long = refl

-- A frame is received, and then a packet is sent and reception stops.
abbrev history : List (Event prompt)
history =
    goes_on ∷ goes_on ∷ arrives (transmit (request 5 false)) ∷ goes_on ∷ goes_on ∷ goes_on ∷ []

abbrev last : Task ℕ (Unit {0}) (Unit {0}) ℕ ℕ
last = run prompt history (started prompt radio)

one_event :
    last.tx_events ≡ (record { token = 5; len = 2; success = true; tx_duration_us = 46_000 } ∷ [])
unfolding run advance handle_command transmit_packet prepare_receive_window
one_event = refl

one_frame : length last.received ≡ 1
unfolding run advance handle_command transmit_packet prepare_receive_window
one_frame = refl

stopped : last.at ≡ standby
unfolding run advance handle_command transmit_packet prepare_receive_window
stopped = refl

run-Served_example : Served prompt (accepted_in prompt history (started prompt radio)) last
run-Served_example = run-Served prompt radio history

-- Reception is disabled, with one more transmission waiting.
abbrev off : Task ℕ (Unit {0}) (Unit {0}) ℕ ℕ
off = record (started prompt radio) {
  rx_enabled = false;
  at = standby;
  commands = transmit (request 6 false) ∷ [];
}

abbrev later : List (Event prompt)
later = goes_on ∷ arrives (set_receive_enabled false) ∷ goes_on ∷ goes_on ∷ []

run-Silent_example : Silent prompt off (run prompt later off)
run-Silent_example = run-Silent prompt later off (tt, (refl, (tt, (tt, tt)))) (refl, tt, (refl, tt))

run-Drained_example : Drained prompt ((6, 2) ∷ []) (run prompt (goes_on ∷ goes_on ∷ []) off)
run-Drained_example = run-Drained prompt off (omega arith)
