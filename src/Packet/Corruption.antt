-- ===== src/Packet/Corruption.antt =====
-- A frame with one byte changed on its way (firmware/golfer/src/packet.rs, `decode`).
use golfer.Prelude.{
  zero, suc, ℕ, ◌<◌, ◌≡◌, refl, List, set, take, drop, arith, dec_lt, All, length, if◌then◌else◌,
  ◌==◌, ◌&&◌, not, get_or, ◌≢◌, All-set, sym, ◌/◌, ◌^◌, ◌∙◌, length-set, ap, get_or-set_self,
  All-take, get_or-set_ne, length-take, take-set_lt, drop-set_lt, get_or-take, take-set_ge,
  drop-set_ge, All-drop, length-drop, take_all, ◌-◌, get_or-drop, suc,
}
use golfer.Prelude.Bytes.{read_le, IsByte, from_le_bytes, to_le_bytes-from_le_bytes}
use golfer.Prelude.Results.{◌>>◌, Result, ok, err}
use golfer.Crc.{crc32_ieee}
use golfer.Crc.Injective.{crc32_ieee_changed}
use golfer.Packet.{
  DecodeError, bad_marker, unsupported_version, packet_type_telemetry, unsupported_packet_type,
  crc_mismatch, protocol_marker, protocol_version, reject, telemetry_v1_len, wrong_length,
}
use golfer.Packet.Codec.{check_frame, decode, byte_at}
use golfer.Packet.Canonical.{check_frame-ok}

-- Words with different bytes differ.
from_le_bytes-set :
    (xs : List ℕ) (j c : ℕ)
    → All IsByte xs
    → IsByte c
    → j < length xs
    → get_or xs j 0 ≢ c
    → from_le_bytes (set xs j c) ≢ from_le_bytes xs
from_le_bytes-set xs j c h hc lt ne e =
    let before = to_le_bytes-from_le_bytes xs h in
    let after = to_le_bytes-from_le_bytes (set xs j c) (All-set IsByte xs j c h hc) in
    let same : set xs j c ≡ xs = sym after ∙ rw (length-set xs j c, e) before in
    ne (ap (λ ys. get_or ys j 0) (sym same) ∙ get_or-set_self xs j c 0 lt)

-- The answer of `decode` when byte `i` became `c`: the first check that reads the byte refuses.
abbrev corruption_error : ℕ → ℕ → DecodeError
corruption_error i c =
    if i == 0
    then bad_marker
    else if i == 1
    then unsupported_version
    else if i == 2 && not (c / 2 ^ 4 == packet_type_telemetry)
    then unsupported_packet_type
    else crc_mismatch

later_error : (j c : ℕ) → corruption_error (suc (suc (suc j))) c ≡ crc_mismatch
later_error j c = ground arith

-- The checks, over what they read.
abbrev checked : ℕ → ℕ → ℕ → ℕ → ℕ → ℕ → Result DecodeError (Unit {0})
checked len marker version kind stored computed = do
  reject (not (len == telemetry_v1_len)) wrong_length
  reject (not (marker == protocol_marker)) bad_marker
  reject (not (version == protocol_version)) unsupported_version
  reject (not (kind / 2 ^ 4 == packet_type_telemetry)) unsupported_packet_type
  reject (not (stored == computed)) crc_mismatch

bad_marker_found : (b v k x y : ℕ) → b ≢ protocol_marker → checked 48 b v k x y ≡ err bad_marker
bad_marker_found b v k x y h = ground arith

bad_version_found :
    (v k x y : ℕ)
    → v ≢ protocol_version
    → checked 48 protocol_marker v k x y ≡ err unsupported_version
bad_version_found v k x y h = ground arith

kind_changed :
    (k x y : ℕ)
    → x ≢ y
    → checked 48 protocol_marker protocol_version k x y ≡ err (corruption_error 2 k)
kind_changed k x y h = ground arith

crc_found :
    (k x y : ℕ)
    → k / 2 ^ 4 ≡ packet_type_telemetry
    → x ≢ y
    → checked 48 protocol_marker protocol_version k x y ≡ err crc_mismatch
crc_found k x y e h = ground arith

module _ (bytes : List ℕ) (i c : ℕ) (h : All IsByte bytes) (hc : IsByte c)
    (passed : check_frame bytes ≡ ok tt) (inside : i < 48) (ne : byte_at bytes i ≢ c) where
  crc_differs : read_le 4 (set bytes i c) 44 ≢ crc32_ieee (take 44 (set bytes i c))
  crc_differs = elim (dec_lt i 44) [
    | yes low ↦
        let (long, _, _, _, crc) = check_frame-ok bytes passed in
        let prefix = All-take IsByte 44 bytes h in
        let long' = length-take 44 bytes in
        let front = take-set_lt 44 bytes i c low in
        let back = drop-set_lt 44 bytes i c low in
        let there : get_or (take 44 bytes) i 0 ≢ c = rw (get_or-take bytes 44 i 0 low) ne in
        let changed = crc32_ieee_changed (take 44 bytes) i c prefix hc (omega arith) there in
        λ e.
          changed
            (sym (ap crc32_ieee front) ∙ sym e ∙ ap (λ t. from_le_bytes (take 4 t)) back ∙ crc)
    | no high ↦
        let (long, _, _, _, crc) = check_frame-ok bytes passed in
        let front = take-set_ge 44 bytes i c (omega arith) in
        let back = drop-set_ge 44 bytes i c (omega arith) in
        let suffix = All-drop IsByte 44 bytes h in
        let short : length (drop 44 bytes) ≡ 4 = omega (arith, length-drop 44 bytes) in
        let all : take 4 (drop 44 bytes) ≡ drop 44 bytes = take_all (drop 44 bytes) 4 short in
        let all' : take 4 (set (drop 44 bytes) (i - 44) c) ≡ set (drop 44 bytes) (i - 44) c =
          take_all _ 4 (length-set (drop 44 bytes) (i - 44) c ∙ short) in
        let there : get_or (drop 44 bytes) (i - 44) 0 ≢ c =
          rw (get_or-drop bytes 44 i 0 (omega arith)) ne in
        λ e. from_le_bytes-set (drop 44 bytes) (i - 44) c suffix hc (omega arith) there (
          ap from_le_bytes (sym all')
          ∙ ap (λ t. from_le_bytes (take 4 t)) (sym back)
          ∙ e
          ∙ ap crc32_ieee front
          ∙ sym crc
          ∙ ap from_le_bytes all)
  ]

  header : (i ≡ 0 → ⊥) → byte_at (set bytes i c) 0 ≡ protocol_marker
  header off = get_or-set_ne bytes i 0 c 0 off ∙ (check_frame-ok bytes passed).1

  version : (i ≡ 1 → ⊥) → byte_at (set bytes i c) 1 ≡ protocol_version
  version off = get_or-set_ne bytes i 1 c 0 off ∙ (check_frame-ok bytes passed).2

  long : length (set bytes i c) ≡ 48
  long = length-set bytes i c ∙ (check_frame-ok bytes passed).0

  changed_at : (j : ℕ) → i ≡ j → byte_at (set bytes i c) j ≡ c
  changed_at j e =
      rw (← e) (get_or-set_self bytes i c 0 (omega (arith, (check_frame-ok bytes passed).0)))

  differs_at : (j : ℕ) → i ≡ j → byte_at bytes j ≢ c
  differs_at j e = rw (← e) ne

  abbrev now : ℕ → ℕ
  now j = byte_at (set bytes i c) j

  abbrev stored : ℕ
  stored = read_le 4 (set bytes i c) 44

  abbrev computed : ℕ
  computed = crc32_ieee (take 44 (set bytes i c))

  at_place : (j : ℕ) → i ≡ j → check_frame (set bytes i c) ≡ err (corruption_error j c)
  unfolding check_frame
  at_place zero e =
      let bad =
        λ (h : c ≡ protocol_marker). differs_at 0 e ((check_frame-ok bytes passed).1 ∙ sym h) in
      rw (long, changed_at 0 e) (bad_marker_found c (now 1) (now 2) stored computed bad)
  at_place (suc zero) e =
      let bad =
        λ (h : c ≡ protocol_version). differs_at 1 e ((check_frame-ok bytes passed).2 ∙ sym h) in
      rw (long, header (omega arith), changed_at 1 e)
        (bad_version_found c (now 2) stored computed bad)
  at_place (suc (suc zero)) e =
      rw (long, header (omega arith), version (omega arith), changed_at 2 e)
        (kind_changed c stored computed crc_differs)
  at_place (suc (suc (suc j))) e =
      let kept = get_or-set_ne bytes i 2 c 0 (omega arith) in
      rw (long, header (omega arith), version (omega arith), kept)
        (crc_found (byte_at bytes 2) stored computed (check_frame-ok bytes passed).3 crc_differs
          ∙ ap err (sym (later_error j c)))

  check_frame-corrupted : check_frame (set bytes i c) ≡ err (corruption_error i c)
  check_frame-corrupted = at_place i refl

  -- A frame that passes its checks, with one byte changed anywhere, is refused.
  pub decode-corrupted : decode (set bytes i c) ≡ err (corruption_error i c)
  unfolding decode
  decode-corrupted = rw check_frame-corrupted
