-- ===== src/Storage/Records/Tests.antt =====
-- The records of a survey at concrete inputs, on a card in RAM.
use golfer.Prelude.{
  ℕ, ◌≡◌, ◌≢◌, refl, ap, sym, ◌∙◌, true, false, some, none, List, [], ◌∷◌, ◌++◌, ◌==◌, ==_ne,
  if◌then◌else◌, if-both, arith,
}
use golfer.Prelude.Text.{codes}
use golfer.Prelude.Format.{digits_within}
use golfer.Prelude.Int.{negsuc}
use golfer.Gps.State.{offline}
use golfer.Storage.RecordLines.{LocalSample, local_line, event_line}
use golfer.Storage.Records.{
  LogFile, rx_log, local_log, event_log, debug_log, VolumeManager, Recording,
}
use golfer.Storage.Records.Checkpoint.{Healthy}
use golfer.Storage.Records.Durable.{Timed, log_all, Recorded, log_all-Recorded}

abbrev number : LogFile → ℕ
number rx_log = 0
number local_log = 1
number event_log = 2
number debug_log = 3

abbrev numbered : ℕ → LogFile
numbered n =
    if n == 0 then rx_log else if n == 1 then local_log else if n == 2 then event_log else debug_log

numbered-number : (f : LogFile) → numbered (number f) ≡ f
numbered-number rx_log = refl
numbered-number local_log = refl
numbered-number event_log = refl
numbered-number debug_log = refl

number_self : (f : LogFile) → (number f == number f) ≡ true
number_self rx_log = refl
number_self local_log = refl
number_self event_log = refl
number_self debug_log = refl

number_other : (f g : LogFile) → g ≢ f → (number g == number f) ≡ false
number_other f g h =
    ==_ne (number g) (number f)
      (λ e. h (sym (numbered-number g) ∙ ap numbered e ∙ numbered-number f))

-- What each file holds, and what of it is durable.
abbrev Card : Type 0
Card = LogFile → List ℕ × List ℕ

abbrev changed : Card → LogFile → (List ℕ × List ℕ → List ℕ × List ℕ) → Card
changed card f change g = if number g == number f then change (card g) else card g

-- A write appends to the content, a flush makes the content durable.
abbrev append_to : List ℕ → List ℕ × List ℕ → List ℕ × List ℕ
append_to bytes (c, d) = (c ++ bytes, d)

abbrev flush_to : List ℕ × List ℕ → List ℕ × List ℕ
flush_to (c, d) = (c, c)

changed_self :
    (card : Card) (f : LogFile) (change : List ℕ × List ℕ → List ℕ × List ℕ)
    → changed card f change f ≡ change (card f)
changed_self card f change = rw (number_self f)

changed_other :
    (card : Card) (f g : LogFile) (change : List ℕ × List ℕ → List ℕ × List ℕ)
    → g ≢ f
    → changed card f change g ≡ card g
changed_other card f g change h = rw (number_other f g h)

abbrev card_manager : VolumeManager Card
card_manager = record {
  write = λ card f bytes. (changed card f (append_to bytes), true);
  flush_file = λ card f. (changed card f flush_to, true);
}

abbrev content : Card → LogFile → List ℕ
content card f = (card f).0

abbrev durable : Card → LogFile → List ℕ
durable card f = (card f).1

card-Healthy : Healthy card_manager content durable
card-Healthy = record {
  write_succeeds = λ v f bytes. refl;
  write_appends =
      λ v f bytes. ap (λ (x : List ℕ × List ℕ). x.0) (changed_self v f (append_to bytes));
  write_content = λ v f g bytes other.
      ap (λ (x : List ℕ × List ℕ). x.0) (changed_other v f g (append_to bytes) other);
  write_durable = λ v f g bytes.
      if-both (λ (x : List ℕ × List ℕ). x.1 ≡ (v g).1) (number g == number f) refl refl;
  flush_succeeds = λ v f. refl;
  flush_content =
      λ v f g. if-both (λ (x : List ℕ × List ℕ). x.0 ≡ (v g).0) (number g == number f) refl refl;
  flush_makes = λ v f. ap (λ (x : List ℕ × List ℕ). x.1) (changed_self v f flush_to);
  flush_durable =
      λ v f g other. ap (λ (x : List ℕ × List ℕ). x.1) (changed_other v f g flush_to other);
}

abbrev blank : Card
blank f = ([], [])

abbrev opened : Recording Card
opened = record {
  survey_logging_active = true;
  diagnostics = record { volume = blank; debug_file = true; debug_buffer = [] };
  local_records_written = 0;
  utc_anchor = some (record { mono_ms = 1_000; unix_ms = 1_700_000_000_000 });
}

abbrev sample : ℕ → LocalSample
sample mono_ms = record {
  mono_ms = mono_ms;
  gps = record offline { online = true; latitude_e7 = some (negsuc 99) };
  link_up = true;
  last_rssi = some (negsuc 96);
  last_snr = none;
  received = 12;
  missed = 3;
  app_crc_failures = 0;
}

a_local_line :
    local_line (some 1_700_000_001_000) (sample 2_000)
    ≡ some (
        codes
          "MONO_MS=2000,UTC_MS=1700000001000,FLAGS=0000000B,GPS_ONLINE=1,GPS_FIX=0,LAT_E7=-100,LON_E7=NA,ALT_HALF_M=NA,SPEED_CM_S=NA,COURSE_CDEG=NA,SATS=NA,HDOP_TENTHS=NA,LINK_UP=1,LAST_RSSI=-97,LAST_SNR=NA,RX=12,MISSED=3,APP_CRC_FAIL=0,TEMP_CENTI_C=NA,PRESSURE_10PA=NA,HUMIDITY_HALF_PCT=NA,BATTERY_SOC=NA"
        ++ (0x0A ∷ []))
unfolding local_line digits_within
a_local_line = refl

-- Empty details leave no trailing comma.
an_event_line :
    event_line 5 none (codes "BOOT") offline []
    ≡ some (
        codes "MONO_MS=5,UTC_MS=NA,EVENT=BOOT,GPS_ONLINE=0,GPS_FIX=0,LAT_E7=NA,LON_E7=NA"
        ++ (0x0A ∷ []))
unfolding event_line digits_within
an_event_line = refl

abbrev samples : List Timed
samples = (800, 9_000, sample 2_000) ∷ (750, 9_000, sample 3_000) ∷ []

log_all-Recorded_example :
    Recorded card_manager content durable card-Healthy samples opened
      (log_all card_manager samples opened)
log_all-Recorded_example =
    log_all-Recorded card_manager content durable card-Healthy samples opened (omega arith) refl
      refl refl
