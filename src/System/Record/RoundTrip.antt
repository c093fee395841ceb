-- ===== src/System/Record/RoundTrip.antt =====
-- `decode_config_record` after `encode_config_record` (firmware/golfer/src/system.rs).
use mathlib.Core.List.{append_assoc}
use golfer.Prelude.{
  ℕ, ◌≡◌, ◌≤◌, ◌<◌, ◌-◌, ◌%◌, ◌==◌, true, refl, ap, arith, some, List, ◌∷◌, ◌++◌, length, take,
  drop, replicate, length-append, copy_at-parts, take-append, drop-append, take-append_ge,
  length-copy_at, length-take, drop-drop, ◌∙◌, length-drop, ==_ne, ge→ltb, ◌^◌,
}
use golfer.Prelude.Bytes.{to_le_bytes, from_le_bytes-to_le_bytes, read_le, same_bytes}
use golfer.Prelude.Results.{ok}
use golfer.Crc.{crc32_ieee}
use golfer.Crc.Injective.{crc32_ieee-lt}
use golfer.System.{SystemConfig, make_name, IsName}
use golfer.System.Record.{
  unsealed, encode_config_record, decode_config_record, check_record, decode_name, config_of,
}

-- A name that `make_name` accepts is neither empty nor too long.
make_name-length :
    (name : List ℕ) {value : List ℕ}
    → make_name name ≡ ok value
    → (1 ≤ length name) × (length name ≤ 32)
unfolding make_name
make_name-length name h = ground arith

abbrev header : ℕ → ℕ → List ℕ
header len generation = 0x47 ∷ 0x4C ∷ 0x46 ∷ 0x43 ∷ 1 ∷ 0 ∷ len % 256 ∷ 1 ∷ to_le_bytes 4 generation

abbrev fill : List ℕ → List ℕ
fill name = drop (length name) (replicate 244 0xFF)

-- The 44 bytes that the CRC covers.
abbrev body : List ℕ → ℕ → List ℕ
body name generation =
    header (length name) generation ++ (name ++ take (32 - length name) (fill name))

unsealed-parts :
    (config : SystemConfig) (generation : ℕ)
    → length config.name.value ≤ 32
    → unsealed config generation
      ≡ header (length config.name.value) generation
        ++ (config.name.value ++ fill config.name.value)
unfolding unsealed
unsealed-parts config generation h =
    let len = length config.name.value in
    let base = header len generation ++ replicate 244 0xFF in
    copy_at-parts base 12 config.name.value (omega arith)
    ∙ ap (λ (t : List ℕ). header len generation ++ (config.name.value ++ t)) (drop-drop 12 len base)

length-unsealed :
    (config : SystemConfig) (generation : ℕ) → length (unsealed config generation) ≡ 256
unfolding unsealed
length-unsealed config generation =
    let len = length config.name.value in
    length-copy_at (header len generation ++ replicate 244 0xFF) 12 config.name.value

take-unsealed :
    (config : SystemConfig) (generation : ℕ)
    → length config.name.value ≤ 32
    → take 44 (unsealed config generation) ≡ body config.name.value generation
take-unsealed config generation h =
    let name = config.name.value in
    rw (unsealed-parts config generation h) (
      ap (λ (t : List ℕ). header (length name) generation ++ t)
        (take-append_ge 32 name (fill name) h))

-- The record in three parts: what the CRC covers, the CRC, and the rest of the page.
abbrev sealed : List ℕ → List ℕ → List ℕ
sealed covered rest = covered ++ (to_le_bytes 4 (crc32_ieee covered) ++ rest)

encode_config_record-sealed :
    (config : SystemConfig) (generation : ℕ)
    → length config.name.value ≤ 32
    → encode_config_record config generation
      ≡ sealed (body config.name.value generation) (drop 48 (unsealed config generation))
unfolding encode_config_record
encode_config_record-sealed config generation h =
    let out = unsealed config generation in
    copy_at-parts out 44 (to_le_bytes 4 (crc32_ieee (take 44 out)))
      (omega (arith, length-unsealed config generation))
    ∙ ap (λ (t : List ℕ). sealed t (drop 48 out)) (take-unsealed config generation h)

length-body :
    (name : List ℕ) (generation : ℕ) → length name ≤ 32 → length (body name generation) ≡ 44
length-body name generation h =
    let pad = fill name in
    omega (
      arith,
      length-append name (take (32 - length name) pad),
      length-take (32 - length name) pad,
      length-drop {A = ℕ} (length name) (replicate 244 0xFF),
    )

pub same_number : (a b : ℕ) → a ≡ b → (a == b) ≡ true
same_number a b e = ground arith

-- The reads of the decoder, from the three parts.
stored_crc :
    (covered rest : List ℕ)
    → length covered ≡ 44
    → (read_le 4 (sealed covered rest) 44 == crc32_ieee (take 44 (sealed covered rest))) ≡ true
stored_crc covered rest e =
    let crc = crc32_ieee covered in
    rw
      (
        take-append 44 covered (to_le_bytes 4 crc ++ rest) e,
        drop-append 44 covered (to_le_bytes 4 crc ++ rest) e,
      )
      (same_number _ crc (from_le_bytes-to_le_bytes 4 crc (crc32_ieee-lt covered)))

stored_name :
    (name : List ℕ) (generation : ℕ) (rest : List ℕ)
    → take (length name) (drop 12 (sealed (body name generation) rest)) ≡ name
stored_name name generation rest =
    let pad = take (32 - length name) (fill name) in
    let crc = to_le_bytes 4 (crc32_ieee (body name generation)) in
    rw (append_assoc name pad (crc ++ rest))
      (take-append (length name) name (pad ++ (crc ++ rest)) refl)

decode_name-some :
    (name bytes : List ℕ)
    → IsName name
    → take (length name) (drop 12 bytes) ≡ name
    → decode_name (length name) bytes ≡ some name
unfolding decode_name
decode_name-some name bytes h found =
    let (low, high) = make_name-length name h.valid in
    rw (==_ne (length name) 0 (omega arith), ge→ltb 32 (length name) high, found, h.utf8, h.valid)
      refl

decode_name-sealed :
    (name : List ℕ) (generation : ℕ) (rest : List ℕ)
    → IsName name
    → decode_name (length name % 256) (sealed (body name generation) rest) ≡ some name
decode_name-sealed name generation rest h =
    let (low, high) = make_name-length name h.valid in
    let small : length name % 256 ≡ length name = omega arith in
    let bytes = sealed (body name generation) rest in
    ap (λ n. decode_name n bytes) small
    ∙ decode_name-some name bytes h (stored_name name generation rest)

decode-sealed :
    (name : List ℕ) (generation : ℕ) (rest : List ℕ)
    → IsName name
    → generation < 2 ^ 32
    → decode_config_record (sealed (body name generation) rest) ≡ some (generation, config_of name)
unfolding decode_config_record check_record same_bytes
decode-sealed name generation rest h fits =
    let (low, high) = make_name-length name h.valid in
    rw
      (
        stored_crc (body name generation) rest (length-body name generation high),
        decode_name-sealed name generation rest h,
        from_le_bytes-to_le_bytes 4 generation fits,
      )
      refl

-- A configuration with a valid name, encoded with a generation of 32 bits, decodes to that name, as a
-- mutable field, and that generation.
pub decode-encode_config_record :
    (config : SystemConfig) (generation : ℕ)
    → IsName config.name.value
    → generation < 2 ^ 32
    → decode_config_record (encode_config_record config generation)
      ≡ some (generation, config_of config.name.value)
decode-encode_config_record config generation h fits =
    let (low, high) = make_name-length config.name.value h.valid in
    rw (encode_config_record-sealed config generation high)
      (decode-sealed config.name.value generation (drop 48 (unsealed config generation)) h fits)
