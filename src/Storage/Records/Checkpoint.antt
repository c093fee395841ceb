-- ===== src/Storage/Records/Checkpoint.antt =====
-- One sample on a healthy card (firmware/golfer/src/storage.rs): what it adds to LOCAL.LOG, and the
-- checkpoint of every tenth.
use golfer.Prelude.{
  ℕ, suc, ◌%◌, ◌<◌, ◌≡◌, ◌≢◌, sym, ap, ◌∙◌, subst, Bool, true, false, Option, List, ◌++◌, arith,
  if◌then◌else◌, ◌==◌, saturating_add, u32_mod,
}
use golfer.Prelude.Text.{codes}
use golfer.Storage.{PersistentLogLevel, debug, error, trace}
use golfer.Storage.Diagnostics.{utc_for_mono_ms, UtcAnchor, flush_debug_buffer}
use golfer.Storage.Diagnostics.Elsewhere.{Untouched, diag-Same, flush_debug_buffer-Same}
use golfer.Storage.RecordLines.{LocalSample, local_pieces, local_line}
use golfer.Storage.Records.{
  LogFile, rx_log, local_log, event_log, debug_log, VolumeManager, Recording, debug_of, recorded,
  on_volume, checkpoint_noted, and_flush, checkpointed, checkpoint, counted, local_written,
  local_appended, log_local_sample, flush_all, append_message,
}
use golfer.Storage.Records.Capacity.{joined, local_line-joined}

-- The content of a file, and what of it is left after a loss of power. A write succeeds and appends,
-- durably or not at once; a flush succeeds and makes the content of its file durable; neither changes
-- another file.
pub record Healthy {V : Type 0} (vm : VolumeManager V) (content durable : V → LogFile → List ℕ)
    : Type 0 where
  pub write_succeeds : (v : V) (f : LogFile) (bytes : List ℕ) → (vm.write v f bytes).1 ≡ true
  pub write_appends :
      (v : V) (f : LogFile) (bytes : List ℕ)
      → content (vm.write v f bytes).0 f ≡ content v f ++ bytes
  pub write_content :
      (v : V) (f g : LogFile) (bytes : List ℕ)
      → g ≢ f
      → content (vm.write v f bytes).0 g ≡ content v g
  pub write_durable :
      (v : V) (f g : LogFile) (bytes : List ℕ) → durable (vm.write v f bytes).0 g ≡ durable v g
  pub flush_succeeds : (v : V) (f : LogFile) → (vm.flush_file v f).1 ≡ true
  pub flush_content : (v : V) (f g : LogFile) → content (vm.flush_file v f).0 g ≡ content v g
  pub flush_makes : (v : V) (f : LogFile) → durable (vm.flush_file v f).0 f ≡ content v f
  pub flush_durable :
      (v : V) (f g : LogFile) → g ≢ f → durable (vm.flush_file v f).0 g ≡ durable v g

-- The lines that samples leave, with the anchor of the time.
unfoldable pub line_of : Option UtcAnchor → LocalSample → List ℕ
line_of anchor s = joined (local_pieces (utc_for_mono_ms anchor s.mono_ms) s)

module _ {V : Type 0} (vm : VolumeManager V) (content durable : V → LogFile → List ℕ)
    (laws : Healthy vm content durable) where
  -- LOCAL.LOG has this content, this part of it durable, after so many records.
  abbrev pub Local : Option UtcAnchor → List ℕ → List ℕ → ℕ → Recording V → Type 0
  Local anchor c d n r =
      (content r.diagnostics.volume local_log ≡ c)
      × (durable r.diagnostics.volume local_log ≡ d)
      × (r.local_records_written ≡ n)
      × (r.survey_logging_active ≡ true)
      × (r.utc_anchor ≡ anchor)

  content-Untouched : Untouched (debug_of vm) (λ v. content v local_log)
  content-Untouched = record {
    by_write = λ v bytes. laws.write_content v debug_log local_log bytes (λ e. cc);
    by_flush = λ v. laws.flush_content v debug_log local_log;
  }

  durable-Untouched : Untouched (debug_of vm) (λ v. durable v local_log)
  durable-Untouched = record {
    by_write = λ v bytes. laws.write_durable v debug_log local_log bytes;
    by_flush = λ v. laws.flush_durable v debug_log local_log (λ e. cc);
  }

  module _ (anchor : Option UtcAnchor) where
    recorded-Local :
        (c d : List ℕ) (n : ℕ) (level : PersistentLogLevel) (uptime_ms : ℕ) (id message : List ℕ)
        (r : Recording V)
        → Local anchor c d n r
        → Local anchor c d n (recorded vm level uptime_ms id message r)
    recorded-Local c d n level uptime_ms id message r (hc, hd, hn, ha, hu) = (
      diag-Same (debug_of vm) (λ v. content v local_log) content-Untouched level _ message
            r.diagnostics
          ∙ hc,
      diag-Same (debug_of vm) (λ v. durable v local_log) durable-Untouched level _ message
            r.diagnostics
          ∙ hd,
      hn,
      ha,
      hu,
    )

    -- After the three flushes.
    abbrev Flushed : List ℕ → V × Bool → Type 0
    Flushed c (v, done) = (content v local_log ≡ c) × (durable v local_log ≡ c)

    and_flush-Flushed :
        (c : List ℕ) (f : LogFile) (w : V × Bool)
        → local_log ≢ f
        → Flushed c w
        → Flushed c (and_flush vm f w)
    and_flush-Flushed c f (v, true) other (hc, hd) =
        (laws.flush_content v f local_log ∙ hc, laws.flush_durable v f local_log other ∙ hd)
    and_flush-Flushed c f (v, false) other (hc, hd) =
        (laws.flush_content v f local_log ∙ hc, laws.flush_durable v f local_log other ∙ hd)

    flush_all-Flushed : (c : List ℕ) (v : V) → content v local_log ≡ c → Flushed c (flush_all vm v)
    flush_all-Flushed c v h =
        and_flush-Flushed c event_log _ (λ e. cc)
          (and_flush-Flushed c rx_log (vm.flush_file v local_log) (λ e. cc)
            (laws.flush_content v local_log local_log ∙ h, laws.flush_makes v local_log ∙ h))

    noted-Local :
        (done : Bool) (c d : List ℕ) (n mono_ms us : ℕ) (r : Recording V)
        → Local anchor c d n r
        → Local anchor c d n (checkpoint_noted vm done mono_ms us r)
    noted-Local true c d n mono_ms us r h = recorded-Local c d n debug mono_ms _ _ r h
    noted-Local false c d n mono_ms us r h = recorded-Local c d n error mono_ms _ _ r h

    checkpointed-Local :
        (w : V × Bool) (c d : List ℕ) (n mono_ms us : ℕ) (r : Recording V)
        → Flushed c w
        → Local anchor c d n r
        → Local anchor c c n (checkpointed vm w mono_ms us r)
    checkpointed-Local (v, done) c d n mono_ms us r (fc, fd) (hc, hd, hn, ha, hu) =
        let on = on_volume vm v r in
        noted-Local done c c n mono_ms us
          (record on { diagnostics = flush_debug_buffer (debug_of vm) true on.diagnostics })
          (
            flush_debug_buffer-Same (debug_of vm) (λ v. content v local_log) content-Untouched true
                  on.diagnostics
                ∙ fc,
            flush_debug_buffer-Same (debug_of vm) (λ v. durable v local_log) durable-Untouched true
                  on.diagnostics
                ∙ fd,
            hn,
            ha,
            hu,
          )

    -- What is durable after a record.
    abbrev pub kept : ℕ → List ℕ → List ℕ → List ℕ
    kept n c d = if n % 10 == 0 then c else d

    when_due :
        (due : Bool) (c d : List ℕ) (n mono_ms us : ℕ) (r : Recording V)
        → Local anchor c d n r
        → Local anchor c (if due then c else d) n (if due then checkpoint vm mono_ms us r else r)
    when_due true c d n mono_ms us r h =
        checkpointed-Local (flush_all vm r.diagnostics.volume) c d n mono_ms us r
          (flush_all-Flushed c r.diagnostics.volume h.0) h
    when_due false c d n mono_ms us r h = h

    at_checkpoint :
        (c d : List ℕ) (n mono_ms us : ℕ) (r : Recording V)
        → Local anchor c d n r
        → Local anchor c
            (kept n c d)
            n
            (if r.local_records_written % 10 == 0 then checkpoint vm mono_ms us r else r)
    at_checkpoint c d n mono_ms us r h =
        subst
          (λ m.
            Local anchor c (kept n c d) n (if m % 10 == 0 then checkpoint vm mono_ms us r else r))
          (sym h.2) (when_due (n % 10 == 0) c d n mono_ms us r h)

    counted-Local :
        (c d line : List ℕ) (n mono_ms append_us checkpoint_us : ℕ) (r : Recording V)
        → suc n < u32_mod
        → Local anchor c d n r
        → Local anchor c
            (kept (suc n) c d)
            (suc n)
            (counted vm mono_ms append_us checkpoint_us line r)
    counted-Local c d line n mono_ms append_us checkpoint_us r small (hc, hd, hn, ha, hu) =
        let more : saturating_add u32_mod n 1 ≡ suc n = ground arith in
        let next = ap (λ m. saturating_add u32_mod m 1) hn ∙ more in
        let once = record r {
          local_records_written = saturating_add u32_mod r.local_records_written 1;
        } in
        let message = append_message vm append_us line in
        at_checkpoint c d (suc n) mono_ms checkpoint_us
          (recorded vm trace mono_ms (codes "LOCAL_APPEND") message once)
          (recorded-Local c d (suc n) trace mono_ms (codes "LOCAL_APPEND") message once
            (hc, hd, next, ha, hu))

    written-Local :
        (c d line : List ℕ) (n mono_ms append_us checkpoint_us : ℕ) (w : V × Bool) (r : Recording V)
        → suc n < u32_mod
        → Local anchor c d n r
        → w.1 ≡ true
        → content w.0 local_log ≡ c ++ line
        → durable w.0 local_log ≡ d
        → Local anchor
            (c ++ line)
            (kept (suc n) (c ++ line) d)
            (suc n)
            (local_written vm mono_ms append_us checkpoint_us line w r).0
    written-Local c d line n mono_ms append_us checkpoint_us (v, true) r small (hc, hd, hn, ha, hu)
          done wc wd =
        counted-Local (c ++ line) d line n mono_ms append_us checkpoint_us (on_volume vm v r) small
          (wc, wd, hn, ha, hu)
    written-Local c d line n mono_ms append_us checkpoint_us (v, false) r small h done wc wd = cc

    -- What an active survey does with a sample.
    sample-eq :
        (append_us checkpoint_us : ℕ) (s : LocalSample) (r : Recording V)
        → r.survey_logging_active ≡ true
        → r.utc_anchor ≡ anchor
        → log_local_sample vm append_us checkpoint_us s r
          ≡ local_written vm s.mono_ms append_us checkpoint_us
              (line_of anchor s)
              (vm.write r.diagnostics.volume local_log (line_of anchor s))
              r
    unfolding log_local_sample line_of
    sample-eq append_us checkpoint_us s r ha hu =
        let appended =
          λ (line : Option (List ℕ)). local_appended vm s.mono_ms append_us checkpoint_us line r in
        ap
          (λ b.
            if b
            then appended (local_line (utc_for_mono_ms r.utc_anchor s.mono_ms) s)
            else (r, false))
          ha
        ∙ ap (λ u. appended (local_line (utc_for_mono_ms u s.mono_ms) s)) hu
        ∙ ap appended (local_line-joined (utc_for_mono_ms anchor s.mono_ms) s)

    -- One sample adds its line, and makes the file durable if it is the tenth.
    pub sample-Local :
        (c d : List ℕ) (n append_us checkpoint_us : ℕ) (s : LocalSample) (r : Recording V)
        → suc n < u32_mod
        → Local anchor c d n r
        → Local anchor
            (c ++ line_of anchor s)
            (kept (suc n) (c ++ line_of anchor s) d)
            (suc n)
            (log_local_sample vm append_us checkpoint_us s r).0
    sample-Local c d n append_us checkpoint_us s r small h =
        let line = line_of anchor s in
        let v = r.diagnostics.volume in
        subst (λ o. Local anchor (c ++ line) (kept (suc n) (c ++ line) d) (suc n) o.0)
          (sym (sample-eq append_us checkpoint_us s r h.3 h.4))
          (written-Local c d line n s.mono_ms append_us checkpoint_us (vm.write v local_log line) r
            small h (laws.write_succeeds v local_log line)
            (laws.write_appends v local_log line ∙ ap (λ c'. c' ++ line) h.0)
            (laws.write_durable v local_log local_log line ∙ h.1))
