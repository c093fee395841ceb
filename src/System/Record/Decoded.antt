-- ===== src/System/Record/Decoded.antt =====
-- What `decode_config_record` of firmware/golfer/src/system.rs says of the record that it accepts.
use golfer.Prelude.{
  ℕ, ◌≡◌, ap, sym, arith, ◌||◌, ◌==◌, not, ltb, take, drop, guard, ◌>>=◌, get_or, Option, none,
  some, List, >>=-eq-some, some-eq, subst, ◌∙◌,
}
use golfer.Prelude.Bytes.{from_le_bytes}
use golfer.Prelude.Results.{Result, ok, err}
use golfer.Prelude.Utf8.{from_utf8, text_or_none, decode_utf8}
use golfer.System.{SystemConfig, make_name, IsName}
use golfer.System.Record.{decode_config_record, check_record, decode_name, config_of, to_option}

pub make_name-ok : (name : List ℕ) {value : List ℕ} → make_name name ≡ ok value → name ≡ value
unfolding make_name
make_name-ok name h = ground arith

from_utf8-some : (bytes : List ℕ) {text : List ℕ} → from_utf8 bytes ≡ some text → bytes ≡ text
unfolding from_utf8
from_utf8-some bytes {text} h = text_or_none-some bytes (decode_utf8 bytes) h
  where
    text_or_none-some :
        (bytes : List ℕ) (chars : Option (List ℕ)) {text : List ℕ}
        → text_or_none bytes chars ≡ some text
        → bytes ≡ text
    text_or_none-some bytes none h = cc
    text_or_none-some bytes (some chars) h = cc

to_option-some : {E A : Type 0} (r : Result E A) {a : A} → to_option r ≡ some a → r ≡ ok a
to_option-some (ok b) h = cc
to_option-some (err e) h = cc

decode_name-IsName :
    (len : ℕ) (bytes : List ℕ) {name : List ℕ} → decode_name len bytes ≡ some name → IsName name
unfolding decode_name
decode_name-IsName len bytes {name} h =
    let raw = take len (drop 12 bytes) in
    let read : List ℕ → Option (List ℕ) = λ text. to_option (make_name text) in
    let test = not (len == 0 || ltb 32 len) in
    let (u, _, h1) = >>=-eq-some (guard test) (λ _. from_utf8 raw >>= read) h in
    let (text, e, h2) = >>=-eq-some (from_utf8 raw) read h1 in
    let made = to_option-some (make_name text) h2 in
    let same : text ≡ name = make_name-ok text made in
    let raw_text : raw ≡ text = from_utf8-some raw e in
    record {
      utf8 =
          subst (λ (t : List ℕ). from_utf8 t ≡ some name) (raw_text ∙ same)
            (e ∙ ap (λ (t : List ℕ). some t) same);
      valid = subst (λ (t : List ℕ). make_name t ≡ ok name) same made;
    }

-- The configuration of an accepted record is mutable and has a valid name.
pub decode_config_record-config :
    (bytes : List ℕ) {generation : ℕ} {config : SystemConfig}
    → decode_config_record bytes ≡ some (generation, config)
    → (name : List ℕ) × (config ≡ config_of name) × IsName name
unfolding decode_config_record
decode_config_record-config bytes {generation} {config} h =
    let decoded : List ℕ → Option (ℕ × SystemConfig) =
      λ name. some (from_le_bytes (take 4 (drop 8 bytes)), config_of name) in
    let named = decode_name (get_or bytes 6 0) bytes in
    let (u, _, h1) = >>=-eq-some (check_record bytes) (λ _. named >>= decoded) h in
    let (name, e, h2) = >>=-eq-some named decoded h1 in
    (name, sym (ap (λ (p : ℕ × SystemConfig). p.1) (some-eq h2)), decode_name-IsName _ bytes e)
