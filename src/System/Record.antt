-- ===== src/System/Record.antt =====
-- The record of a configuration in the flash: `encode_config_record` and `decode_config_record` of
-- firmware/golfer/src/system.rs.
pub mod RoundTrip
pub mod Decoded
use golfer.Prelude.{
  ℕ, ◌+◌, ◌%◌, ◌||◌, not, Option, some, List, [], ◌∷◌, length, get_or, set, take, drop, replicate,
  copy_at, ◌==◌, ltb, guard, ◌>>◌, ◌>>=◌, none,
}
use golfer.Prelude.Bytes.{to_le_bytes, same_bytes, read_le}
use golfer.Prelude.Results.{Result, ok, err}
use golfer.Prelude.Utf8.{from_utf8}
use golfer.Crc.{crc32_ieee}
use golfer.System.{
  SystemConfig, SystemField, read_write, config_version, max_name_bytes, config_record_size,
  make_name,
}

abbrev config_magic : List ℕ
config_magic = 0x47 ∷ 0x4C ∷ 0x46 ∷ 0x43 ∷ []

abbrev config_record_format : ℕ
config_record_format = 1

abbrev name_offset : ℕ
name_offset = 12

abbrev crc_offset : ℕ
crc_offset = name_offset + max_name_bytes

-- `SystemConfig { name: SystemField::read_write(name) }`
abbrev pub config_of : List ℕ → SystemConfig
config_of name = record { name = record { value = name; access = read_write } }

-- The record before its CRC.
unfoldable pub unsealed : SystemConfig → ℕ → List ℕ
unsealed config generation =
    let name = config.name.value in
    let out = replicate config_record_size 0xFF in
    let out = copy_at out 0 config_magic in
    let out = copy_at out 4 (to_le_bytes 2 config_version) in
    let out = set out 6 (length name % 256) in
    let out = set out 7 config_record_format in
    let out = copy_at out 8 (to_le_bytes 4 generation) in copy_at out name_offset name

unfoldable pub encode_config_record : SystemConfig → ℕ → List ℕ
encode_config_record config generation =
    let out = unsealed config generation in
    copy_at out crc_offset (to_le_bytes 4 (crc32_ieee (take crc_offset out)))

-- `.ok()`
abbrev pub to_option : {E A : Type 0} → Result E A → Option A
to_option (ok a) = some a
to_option (err e) = none

-- The name in the record, if it is one.
unfoldable pub decode_name : ℕ → List ℕ → Option (List ℕ)
decode_name name_len bytes = do
  guard (not (name_len == 0 || ltb max_name_bytes name_len))
  name_text ← from_utf8 (take name_len (drop name_offset bytes))
  to_option (make_name name_text)

-- The checks of the magic, the schema, the format and the CRC.
unfoldable pub check_record : List ℕ → Option (Unit {0})
check_record bytes = do
  guard (same_bytes (take 4 bytes) config_magic)
  guard (
      not (
        not (read_le 2 bytes 4 == config_version)
        || not (get_or bytes 7 0 == config_record_format)))
  guard (read_le 4 bytes crc_offset == crc32_ieee (take crc_offset bytes))

unfoldable pub decode_config_record : List ℕ → Option (ℕ × SystemConfig)
decode_config_record bytes = do
  check_record bytes
  name ← decode_name (get_or bytes 6 0) bytes
  some (read_le 4 bytes 8, config_of name)
