-- ===== src/Gps/Tests.antt =====
-- The receiver at concrete sentences.
use golfer.Prelude.{ℕ, List, [], ◌∷◌, ◌++◌, some, arith, if◌then◌else◌, ◌≡◌, refl}
use golfer.Prelude.Int.{pos}
use golfer.Prelude.Text.{codes}
use golfer.Gps.Calendar.{is_leap_year, days_in_month, year_loop, month_loop, days_since_unix_epoch}
use golfer.Gps.Calendar.Epoch.{civil_days, days_since_unix_epoch-civil}
use golfer.Gps.Digits.{fraction_loop, pad_loop}
use golfer.Gps.Coordinate.{parse_coordinate_e7}
use golfer.Gps.Coordinate.Bounds.{InHemisphere, parse_coordinate_e7-Within}
use golfer.Gps.State.{on_bytes, powered_on, apply, offline}
use golfer.Gps.State.Invariant.{ReceiverInv, on_bytes-Inv, powered_on-Inv}
use golfer.Gps.State.Line.{waiting, on_bytes-sentence}

-- 29 February 2024.
leap_day : days_since_unix_epoch 2024 2 29 ≡ some 19782
unfolding days_since_unix_epoch days_in_month year_loop month_loop is_leap_year
leap_day = refl

days_since_unix_epoch-civil_example : days_since_unix_epoch 2026 3 23 ≡ some (civil_days 2026 3 23)
days_since_unix_epoch-civil_example =
    unfold days_in_month is_leap_year in
    days_since_unix_epoch-civil 2026 3 23 31 (omega arith) (omega arith) refl (omega arith)
      (omega arith)

-- 34 degrees and 51.5469 minutes north.
-- A latitude is read with the hemisphere of a longitude too.
latitude_east : parse_coordinate_e7 (codes "15000.0000") (codes "E") ≡ some (pos 1_500_000_000)
unfolding parse_coordinate_e7 fraction_loop pad_loop
latitude_east = refl

read_latitude : parse_coordinate_e7 (codes "3451.5469") (codes "N") ≡ some (pos 348591150)
unfolding parse_coordinate_e7 fraction_loop pad_loop
read_latitude = refl

parse_coordinate_e7-Within_example : InHemisphere (codes "N") (pos 348591150)
parse_coordinate_e7-Within_example =
    parse_coordinate_e7-Within (codes "3451.5469") (codes "N") (pos 348591150) read_latitude

abbrev sentence : List ℕ
sentence = codes "$GPGGA,123519,3451.5469,N,08206.9138,W,1,08,0.9,545.4,M"

on_bytes-Inv_example : ReceiverInv (on_bytes (sentence ++ 0x0a ∷ []) powered_on)
on_bytes-Inv_example = on_bytes-Inv (sentence ++ 0x0a ∷ []) powered_on powered_on-Inv

on_bytes-sentence_example :
    on_bytes (sentence ++ 0x0a ∷ []) (waiting [] offline [])
    ≡ waiting []
        (apply sentence offline).1
        (if (apply sentence offline).0 then (apply sentence offline).1 ∷ [] else [])
on_bytes-sentence_example =
    on_bytes-sentence b'$' (codes "GPGGA,123519,3451.5469,N,08206.9138,W,1,08,0.9,545.4,M") offline
      [] (omega arith) (omega arith)
