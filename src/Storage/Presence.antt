-- ===== src/Storage/Presence.antt =====
-- The probe for an SD card, `card_present` of firmware/golfer/src/storage.rs, with
-- `send_sd_startup_clocks` of firmware/golfer/src/spi0_bus.rs. The shared SPI bus with
-- the chip select of the card is a record of the operations that the code calls on them.
pub mod Released
use Prim.Native.Nat.{bit_and}
use golfer.Prelude.{
  ℕ, zero, suc, Bool, true, false, Option, none, some, List, [], ◌∷◌, ◌==◌, if◌then◌else◌,
  replicate,
}

abbrev sd_cmd0 : List ℕ
sd_cmd0 = 0x40 ∷ 0x00 ∷ 0x00 ∷ 0x00 ∷ 0x00 ∷ 0x95 ∷ []

abbrev sd_presence_attempts : ℕ
sd_presence_attempts = 8

-- `set_cs true` is `set_high`; the other operations leave the bus with an outcome, true for `Ok`, and
-- `transfer` gives the byte that came back.
pub record SpiBus (S : Type 0) : Type 0 where
  pub set_cs : S → Bool → S
  pub write : S → List ℕ → S × Bool
  pub transfer : S → ℕ → S × Option ℕ

module _ {S : Type 0} (bus : SpiBus S) where
  abbrev pub send_sd_startup_clocks : S → S × Bool
  send_sd_startup_clocks s = bus.write s (replicate 10 0xFF)

  -- A byte that came back: a failure ends the probe, an R1 response ends the loop.
  abbrev pub answered : S × Option ℕ → S × Option ℕ → S × Option ℕ
  answered (s, none) rest = (s, none)
  answered (s, some byte) rest = if bit_and byte 0x80 == 0 then (s, some byte) else rest

  unfoldable pub response_loop : ℕ → S → S × Option ℕ
  response_loop zero s = (s, some 0xFF)
  response_loop (suc n) s =
      let reply = bus.transfer s 0xFF in let rest = response_loop n reply.0 in answered reply rest

  -- A byte of clocks, and CMD0.
  abbrev pub command : S × Bool → S × Bool
  command (s, false) = (s, false)
  command (s, true) = bus.write s sd_cmd0

  -- What follows the response: the card is released, and clocked once more.
  abbrev pub released : S → S
  released s = (bus.write (bus.set_cs s true) (0xFF ∷ [])).0

  -- The end of an attempt, before the rest of them.
  abbrev pub decided : S × Option ℕ → S × Bool → S × Bool
  decided (s, none) rest = (bus.set_cs s true, false)
  decided (s, some response) rest = if response == 0x01 then (released s, true) else rest

  abbrev pub after_response : S × Option ℕ → S
  after_response (s, none) = s
  after_response (s, some response) = released s

  abbrev pub tried : S × Bool → S × Bool → S × Bool
  tried (s, false) rest = (bus.set_cs s true, false)
  tried (s, true) rest = decided (response_loop 16 s) rest

  unfoldable pub attempt_loop : ℕ → S → S × Bool
  attempt_loop zero s = (s, false)
  attempt_loop (suc n) s =
      let sent = command (bus.write (bus.set_cs s false) (0xFF ∷ [])) in
      let rest = attempt_loop n (after_response (response_loop 16 sent.0)) in tried sent rest

  abbrev pub probed : S × Bool → S × Bool
  probed (s, false) = (s, false)
  probed (s, true) = attempt_loop sd_presence_attempts s

  unfoldable pub card_present : S → S × Bool
  card_present s = probed (send_sd_startup_clocks (bus.set_cs s true))
