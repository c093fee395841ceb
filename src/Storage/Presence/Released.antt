-- ===== src/Storage/Presence/Released.antt =====
-- The probe of firmware/golfer/src/storage.rs leaves the shared bus free.
use golfer.Prelude.{
  ℕ, zero, suc, Bool, true, false, ◌≡◌, refl, ◌∙◌, Option, none, some, List, [], ◌∷◌, ◌==◌, if-both,
}
use golfer.Storage.Presence.{
  SpiBus, response_loop, command, released, decided, after_response, tried, attempt_loop, probed,
  card_present, send_sd_startup_clocks,
}

-- The chip select is what it was set to last; transfers do not move it.
pub record CsLaws {S : Type 0} (bus : SpiBus S) (cs : S → Bool) : Type 0 where
  pub set : (s : S) (level : Bool) → cs (bus.set_cs s level) ≡ level
  pub write_keeps : (s : S) (bytes : List ℕ) → cs (bus.write s bytes).0 ≡ cs s

module _ {S : Type 0} (bus : SpiBus S) (cs : S → Bool) where
  released-high : CsLaws bus cs → (s : S) → cs (released bus s) ≡ true
  released-high laws s = laws.write_keeps (bus.set_cs s true) (0xFF ∷ []) ∙ laws.set s true

  decided-high :
      CsLaws bus cs
      → (r : S × Option ℕ) (rest : S × Bool)
      → ((response : ℕ) → r.1 ≡ some response → cs rest.0 ≡ true)
      → cs (decided bus r rest).0 ≡ true
  decided-high laws (s, none) rest h = laws.set s true
  decided-high laws (s, some response) rest h =
      if-both (λ (p : S × Bool). cs p.0 ≡ true) (response == 0x01) (released-high laws s)
        (h response refl)

  after_response-high :
      CsLaws bus cs
      → (r : S × Option ℕ) (response : ℕ) → r.1 ≡ some response
      → cs (after_response bus r) ≡ true
  after_response-high laws (s, none) response h = cc
  after_response-high laws (s, some found) response h = released-high laws s

  tried-high :
      CsLaws bus cs
      → (sent : S × Bool) (further : S → S × Bool)
      → ((s : S) → cs s ≡ true → cs (further s).0 ≡ true)
      → cs (tried bus sent (further (after_response bus (response_loop bus 16 sent.0)))).0 ≡ true
  tried-high laws (s, false) further h = laws.set s true
  tried-high laws (s, true) further h =
      let r = response_loop bus 16 s in
      decided-high laws r (further (after_response bus r))
        (λ response e. h (after_response bus r) (after_response-high laws r response e))

  attempt_loop-high :
      CsLaws bus cs → (n : ℕ) (s : S) → cs s ≡ true → cs (attempt_loop bus n s).0 ≡ true
  unfolding attempt_loop
  attempt_loop-high laws zero s high = high
  attempt_loop-high laws (suc n) s high =
      tried-high laws (command bus (bus.write (bus.set_cs s false) (0xFF ∷ [])))
        (attempt_loop bus n) (λ s' high'. attempt_loop-high laws n s' high')

  -- Whatever the card answers, and at whatever step an operation of the bus fails, the probe ends
  -- with the card deselected; on a bus whose other operations leave the chip select alone.
  pub card_present-high : CsLaws bus cs → (s : S) → cs (card_present bus s).0 ≡ true
  unfolding card_present
  card_present-high laws s =
      started-high (send_sd_startup_clocks bus (bus.set_cs s true))
        (laws.write_keeps (bus.set_cs s true) _ ∙ laws.set s true)
    where
      started-high : (r : S × Bool) → cs r.0 ≡ true → cs (probed bus r).0 ≡ true
      started-high (s, false) high = high
      started-high (s, true) high = attempt_loop-high laws 8 s high
