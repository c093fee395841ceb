-- ===== src/Packet/Canonical.antt =====
-- `encode` after `decode` (firmware/golfer/src/packet.rs): a frame has one form.
use Prim.Native.Nat.{bit_and, bit_or}
use golfer.Prelude.{
  ℕ, ◌<◌, ◌≡◌, refl, List, [], ◌∷◌, ◌++◌, take, arith, All, length, tabulate, Bool-cases, ◌*◌, ◌/◌,
  ◌^◌, inl, ◌%◌, sym, inr, ap, ◌∙◌, All-tabulate, tabulate-get_or, All-get_or,
}
use golfer.Prelude.Bits.{bit_and_mask, bit_or_fields, bit_or_three}
use golfer.Prelude.Bytes.{
  read_le, IsByte, to_le_bytes, from_le_bytes, to_le_bytes-from_le_bytes, from_le_bytes-lt,
}
use golfer.Prelude.Int.{pos, negsuc, ℤ, to_bits, of_bits, to_bits-of_bits, i16_half, i32_half}
use golfer.Prelude.Results.{◌>>◌, Result, ok, err, map_err}
use golfer.Crc.{crc32_ieee}
use golfer.Packet.{
  TelemetryV1, fix_class_bits, validate, is_int, protocol_marker, protocol_version, true,
  unknown_u32, unknown_i32, unknown_i16, unknown_u16, unknown_u8, DecodeError, telemetry_v1_len,
  EncodeError, packet_type_telemetry, telemetry_v1_crc_offset, invalid_field,
}
use golfer.Packet.Codec.{
  fields_written, with_crc, encode, fields_read, check_frame, decode, decode_optional,
  decode_optional_int, or_unknown, from_bits, byte_at,
}

-- The 44 protected bytes, field by field.
fields_written-layout :
    (p : TelemetryV1)
    → fields_written p
      ≡ protocol_marker
        ∷ protocol_version
        ∷ bit_or 16 (bit_and p.sender_mode 0x0F)
        ∷ (to_le_bytes 8 p.sender_system_id
            ++ (to_le_bytes 4 p.survey_id
                ++ (take 3 (to_le_bytes 4 p.sequence)
                    ++ (to_le_bytes 4 (or_unknown unknown_u32 p.gps_unix_time)
                        ++ (to_le_bytes 4 (to_bits i32_half (or_unknown unknown_i32 p.latitude_e7))
                            ++ (to_le_bytes 4
                                  (to_bits i32_half (or_unknown unknown_i32 p.longitude_e7))
                                ++ (to_le_bytes 2
                                      (to_bits i16_half (or_unknown unknown_i16 p.altitude_half_m))
                                    ++ (to_le_bytes 2 (or_unknown unknown_u16 p.speed_cm_s)
                                        ++ (to_le_bytes 2 (or_unknown unknown_u16 p.course_cdeg)
                                            ++ (bit_or
                                                  (fix_class_bits p.gps_fix_class * 2 ^ 6 % 2 ^ 8)
                                                  (bit_and p.satellites 0x3F)
                                                ∷ or_unknown unknown_u8 p.hdop_tenths
                                                ∷ (to_le_bytes 2 (
                                                      to_bits i16_half (
                                                        or_unknown unknown_i16
                                                          p.temperature_centi_c))
                                                    ++ (to_le_bytes 2
                                                          (or_unknown unknown_u16 p.pressure_10pa)
                                                        ++ (or_unknown unknown_u8
                                                            p.humidity_half_percent
                                                            ∷ or_unknown unknown_u8
                                                            p.battery_soc_percent
                                                            ∷ 0
                                                            ∷ 0
                                                            ∷ 0
                                                            ∷ 0
                                                            ∷ [])))))))))))))
unfolding fields_written
fields_written-layout p = refl

or_unknown-decode_optional : (unknown a : ℕ) → or_unknown unknown (decode_optional unknown a) ≡ a
unfolding decode_optional
or_unknown-decode_optional unknown a = ground arith

is_int-cases : (a b : ℤ) → (is_int a b ≡ true) → a ≡ b
is_int-cases (pos m) (pos n) h = ground arith
is_int-cases (negsuc m) (negsuc n) h = ground arith
is_int-cases (pos m) (negsuc n) h = cc
is_int-cases (negsuc m) (pos n) h = cc

or_unknown-decode_optional_int :
    (unknown a : ℤ) → or_unknown unknown (decode_optional_int unknown a) ≡ a
unfolding decode_optional_int
or_unknown-decode_optional_int unknown a = elim (Bool-cases (is_int a unknown)) [
  | inl h ↦ rw h (sym (is_int-cases a unknown h))
  | inr h ↦ rw h
]

-- A field of a frame is written back as it was read.
write_number :
    (xs : List ℕ)
    → All IsByte xs
    → (unknown : ℕ)
    → to_le_bytes (length xs) (or_unknown unknown (decode_optional unknown (from_le_bytes xs))) ≡ xs
write_number xs h unknown =
    rw (or_unknown-decode_optional unknown (from_le_bytes xs)) (to_le_bytes-from_le_bytes xs h)

write_int :
    (half : ℕ) (xs : List ℕ)
    → All IsByte xs
    → 256 ^ length xs ≡ 2 * half
    → (unknown : ℤ)
    → to_le_bytes (length xs) (
        to_bits half
          (or_unknown unknown (decode_optional_int unknown (of_bits half (from_le_bytes xs)))))
      ≡ xs
write_int half xs h e unknown =
    rw
      (
        or_unknown-decode_optional_int unknown (of_bits half (from_le_bytes xs)),
        to_bits-of_bits half (from_le_bytes xs) (omega (arith, from_le_bytes-lt xs h)),
      )
      (to_le_bytes-from_le_bytes xs h)

write_mode : (b : ℕ) → b / 2 ^ 4 ≡ 1 → bit_or 16 (bit_and (bit_and b 0x0F) 0x0F) ≡ b
write_mode b h =
    ground (arith, bit_and_mask 4 b, bit_and_mask 4 (b % 2 ^ 4), bit_or_fields 4 1 (b % 2 ^ 4))

fix_class_bits-from_bits : (c : ℕ) → c < 4 → fix_class_bits (from_bits c) ≡ c
unfolding fix_class_bits from_bits
fix_class_bits-from_bits c h = ground (arith, bit_and_mask 2 c)

write_meta :
    (b : ℕ)
    → IsByte b
    → bit_or
        (fix_class_bits (from_bits (b / 2 ^ 6)) * 2 ^ 6 % 2 ^ 8)
        (bit_and (bit_and b 0x3F) 0x3F)
      ≡ b
write_meta b h =
    let top : b / 64 * 64 % 256 ≡ b / 64 * 2 ^ 6 = omega arith in
    let low : b % 64 % 64 ≡ b % 64 = omega arith in
    rw
      (
        fix_class_bits-from_bits (b / 64) (omega arith),
        bit_and_mask 6 b,
        bit_and_mask 6 (b % 64),
        top,
        low,
      )
      (omega (arith, bit_or_fields 6 (b / 64) (b % 64) (omega arith)))

three_bytes :
    (x y z : ℕ)
    → IsByte x
    → IsByte y
    → IsByte z
    → take 3 (to_le_bytes 4 (bit_or (bit_or x (y * 2 ^ 8)) (z * 2 ^ 16))) ≡ x ∷ y ∷ z ∷ []
three_bytes x y z hx hy hz =
    let n = bit_or (bit_or x (y * 2 ^ 8)) (z * 2 ^ 16) in
    let joined = bit_or_three x y z hx hy in
    let e1 : n % 256 ≡ x = omega arith in
    let e2 : n / 256 % 256 ≡ y = omega arith in
    let e3 : n / 256 / 256 % 256 ≡ z = omega arith in λ i. e1 i ∷ e2 i ∷ e3 i ∷ []

module _ (f : ℕ → ℕ) (bytes : (i : ℕ) → IsByte (f i)) where
  all : (n i : ℕ) → All IsByte (tabulate n i f)
  all n i = All-tabulate IsByte n i f bytes

  fields_written-fields_read :
      f 0 ≡ protocol_marker
      → f 1 ≡ protocol_version
      → f 2 / 2 ^ 4 ≡ 1
      → fields_written (fields_read (tabulate 48 0 f)) ≡ tabulate 44 0 f ++ (0 ∷ 0 ∷ 0 ∷ 0 ∷ [])
  unfolding fields_read
  fields_written-fields_read marker version kind =
      fields_written-layout (fields_read (tabulate 48 0 f)) ∙ (λ i.
        sym marker i
        ∷ sym version i
        ∷ write_mode (f 2) kind i
        ∷ (to_le_bytes-from_le_bytes (tabulate 8 3 f) (all 8 3) i
            ++ (to_le_bytes-from_le_bytes (tabulate 4 11 f) (all 4 11) i
                ++ (three_bytes (f 15) (f 16) (f 17) (bytes 15) (bytes 16) (bytes 17) i
                    ++ (write_number (tabulate 4 18 f) (all 4 18) unknown_u32 i
                        ++ (write_int i32_half (tabulate 4 22 f) (all 4 22) refl unknown_i32 i
                            ++ (write_int i32_half (tabulate 4 26 f) (all 4 26) refl unknown_i32 i
                                ++ (write_int i16_half (tabulate 2 30 f) (all 2 30) refl unknown_i16
                                      i
                                    ++ (write_number (tabulate 2 32 f) (all 2 32) unknown_u16 i
                                        ++ (write_number (tabulate 2 34 f) (all 2 34) unknown_u16 i
                                            ++ (write_meta (f 36) (bytes 36) i
                                                ∷ or_unknown-decode_optional unknown_u8 (f 37) i
                                                ∷ (write_int i16_half (tabulate 2 38 f) (all 2 38)
                                                      refl unknown_i16 i
                                                    ++ (write_number (tabulate 2 40 f) (all 2 40)
                                                          unknown_u16 i
                                                        ++ (or_unknown-decode_optional unknown_u8
                                                            (f 42) i
                                                            ∷ or_unknown-decode_optional unknown_u8
                                                            (f 43) i
                                                            ∷ 0
                                                            ∷ 0
                                                            ∷ 0
                                                            ∷ 0
                                                            ∷ []))))))))))))))

  with_crc-tabulate :
      from_le_bytes (tabulate 4 44 f) ≡ crc32_ieee (tabulate 44 0 f)
      → with_crc (tabulate 44 0 f ++ (0 ∷ 0 ∷ 0 ∷ 0 ∷ [])) ≡ tabulate 48 0 f
  unfolding with_crc
  with_crc-tabulate e =
      let stored = to_le_bytes-from_le_bytes (tabulate 4 44 f) (all 4 44) in
      λ i. tabulate 44 0 f ++ ((ap (to_le_bytes 4) (sym e) ∙ stored) i)

-- What a passed frame check says.
pub check_frame-ok :
    (bytes : List ℕ)
    → check_frame bytes ≡ ok tt
    → (length bytes ≡ telemetry_v1_len)
      × (byte_at bytes 0 ≡ protocol_marker)
      × (byte_at bytes 1 ≡ protocol_version)
      × (byte_at bytes 2 / 2 ^ 4 ≡ packet_type_telemetry)
      × (read_le 4 bytes 44 ≡ crc32_ieee (take telemetry_v1_crc_offset bytes))
unfolding check_frame
check_frame-ok bytes h = ground arith

decode_parts :
    {p : TelemetryV1} (c : Result DecodeError (Unit {0})) (v : Result EncodeError (Unit {0}))
    (q : TelemetryV1)
    → (c >> (map_err invalid_field v >> ok q)) ≡ ok p
    → (c ≡ ok tt) × (v ≡ ok tt) × (q ≡ p)
decode_parts (ok _) (ok _) q h = (refl, refl, cc)
decode_parts (ok _) (err e) q h = cc
decode_parts (err e) v q h = cc

decode-ok :
    (bytes : List ℕ) {p : TelemetryV1}
    → decode bytes ≡ ok p
    → (check_frame bytes ≡ ok tt) × (validate (fields_read bytes) ≡ ok tt) × (fields_read bytes ≡ p)
unfolding decode
decode-ok bytes h =
    decode_parts (check_frame bytes) (validate (fields_read bytes)) (fields_read bytes) h

encode-fields_read :
    (f : ℕ → ℕ)
    → ((i : ℕ) → IsByte (f i))
    → check_frame (tabulate 48 0 f) ≡ ok tt
    → validate (fields_read (tabulate 48 0 f)) ≡ ok tt
    → encode (fields_read (tabulate 48 0 f)) ≡ ok (tabulate 48 0 f)
unfolding encode
encode-fields_read f bytes c v =
    let (_, marker, version, kind, crc) = check_frame-ok (tabulate 48 0 f) c in
    rw (v, fields_written-fields_read f bytes marker version kind, with_crc-tabulate f bytes crc)

-- A frame that `decode` accepts is the one that `encode` makes of the packet: no two frames decode
-- to the same packet.
pub encode-decode :
    (bytes : List ℕ) {p : TelemetryV1}
    → All IsByte bytes
    → decode bytes ≡ ok p
    → encode p ≡ ok bytes
encode-decode bytes h e =
    let (c, v, read) = decode-ok bytes e in
    let f = byte_at bytes in
    let same = tabulate-get_or 0 bytes 48 (check_frame-ok bytes c).0 in
    let frame_ok =
      encode-fields_read f (λ i. All-get_or IsByte bytes i 0 h (omega arith)) (rw same c)
        (rw same v) in
    rw (same, read) at frame_ok
