-- ===== src/Gps/State/Line.antt =====
-- A sentence that arrives byte by byte (firmware/golfer/src/gps.rs, `receive_task`).
use golfer.Gps.State.{Receiver, apply, end_of_line, nmea_line_capacity, on_byte, on_bytes, GpsState}
use golfer.Prelude.{
  ℕ, ==_ne, All, List, [], if◌then◌else◌, length, lt→ltb, ◌++◌, ◌+◌, ◌<◌, ◌∷◌, ◌≡◌, ◌≢◌, ◌≤◌,
  append_nil, ap, append_snoc, arith, length-append, ◌∙◌, refl,
}

-- A byte of a sentence: ASCII, and neither end of the line.
abbrev IsText : ℕ → Type 0
IsText byte = (byte < 128) × (byte ≢ 0x0a) × (byte ≢ 0x0d)

abbrev pub waiting : List ℕ → GpsState → List GpsState → Receiver
waiting line state signals = record { line = line; state = state; signals = signals }

on_bytes-cons :
    (byte : ℕ) (rest : List ℕ) (r : Receiver)
    → on_bytes (byte ∷ rest) r ≡ on_bytes rest (on_byte byte r)
unfolding on_bytes
on_bytes-cons byte rest r = refl

module _ (state : GpsState) (signals : List GpsState) where
  on_byte-text :
      (byte : ℕ) (line : List ℕ)
      → IsText byte
      → length line < nmea_line_capacity
      → on_byte byte (waiting line state signals) ≡ waiting (line ++ byte ∷ []) state signals
  unfolding on_byte
  on_byte-text byte line (ascii, lf, cr) room = rw (
    ==_ne byte 0x0a lf,
    ==_ne byte 0x0d cr,
    lt→ltb byte 128 ascii,
    lt→ltb (length line) nmea_line_capacity room,
  )

  on_bytes-text :
      (bytes line : List ℕ)
      → All IsText bytes
      → length line + length bytes ≤ nmea_line_capacity
      → on_bytes (bytes ++ 0x0a ∷ []) (waiting line state signals)
        ≡ end_of_line (line ++ bytes) (waiting (line ++ bytes) state signals)
  on_bytes-text [] line h room = unfold on_bytes on_byte in rw (append_nil line)
  on_bytes-text (byte ∷ rest) line h room =
      let next = line ++ byte ∷ [] in
      let longer = length-append line (byte ∷ []) in
      let ih = on_bytes-text rest next h.1 (omega (arith, longer)) in
      let step = on_byte-text byte line h.0 (omega arith) in
      let joined : next ++ rest ≡ line ++ byte ∷ rest = append_snoc line byte rest in
      on_bytes-cons byte (rest ++ 0x0a ∷ []) (waiting line state signals)
      ∙ ap (on_bytes (rest ++ 0x0a ∷ [])) step
      ∙ ih
      ∙ ap (λ (l : List ℕ). end_of_line l (waiting l state signals)) {x = next ++ rest}
          {y = line ++ byte ∷ rest} joined

-- A sentence of at most 160 bytes that arrives at an empty line buffer, and is ended by a line feed,
-- is applied to the state as a whole, and the new state is signalled exactly when it was updated.
pub on_bytes-sentence :
    (first : ℕ) (rest : List ℕ) (state : GpsState) (signals : List GpsState)
    → All IsText (first ∷ rest)
    → length (first ∷ rest) ≤ nmea_line_capacity
    → on_bytes (first ∷ rest ++ 0x0a ∷ []) (waiting [] state signals)
      ≡ waiting [] (apply (first ∷ rest) state).1 (
          if (apply (first ∷ rest) state).0
          then (apply (first ∷ rest) state).1 ∷ signals
          else signals)
on_bytes-sentence first rest state signals h room =
    on_bytes-text state signals (first ∷ rest) [] h (omega (arith, room))
