-- ===== src/Storage/Records/Durable.antt =====
-- The record of a survey (firmware/golfer/src/storage.rs): LOCAL.LOG after any row of samples, and how
-- much of it a loss of power can take.
use golfer.Prelude.{
  ℕ, suc, ◌+◌, ◌%◌, ◌<◌, ◌≡◌, refl, sym, ap, ◌∙◌, subst, Bool, true, false, Option, List, [], ◌∷◌,
  ◌++◌, length, length-append, arith, if◌then◌else◌, ◌==◌, append_nil, append_snoc, u32_mod,
}
use mathlib.Core.List.{append_assoc}
use golfer.Storage.Diagnostics.{UtcAnchor}
use golfer.Storage.RecordLines.{LocalSample}
use golfer.Storage.Records.{LogFile, local_log, VolumeManager, Recording, log_local_sample}
use golfer.Storage.Records.Capacity.{joined}
use golfer.Storage.Records.Checkpoint.{Healthy, Local, line_of, sample-Local}

-- A sample with the times that its append and its checkpoint take.
abbrev pub Timed : Type 0
Timed = ℕ × ℕ × LocalSample

abbrev lines_of : Option UtcAnchor → List Timed → List (List ℕ)
lines_of anchor [] = []
lines_of anchor ((append_us, checkpoint_us, s) ∷ samples) =
    line_of anchor s ∷ lines_of anchor samples

module _ {V : Type 0} (vm : VolumeManager V) where
  unfoldable pub log_all : List Timed → Recording V → Recording V
  log_all [] r = r
  log_all ((append_us, checkpoint_us, s) ∷ samples) r =
      log_all samples (log_local_sample vm append_us checkpoint_us s r).0

module _ {V : Type 0} (vm : VolumeManager V) (content durable : V → LogFile → List ℕ)
    (laws : Healthy vm content durable) where
  module _ (anchor : Option UtcAnchor) where
    -- The record so far: lines that are durable, and fewer than ten that are not.
    abbrev Split : List ℕ → List (List ℕ) → List (List ℕ) → ℕ → Recording V → Type 0
    Split c stable recent n r =
        Local vm content durable laws anchor (c ++ joined (stable ++ recent)) (c ++ joined stable) n
          r
        × (length recent ≡ n % 10)

    joined-append : (xs ys : List (List ℕ)) → joined (xs ++ ys) ≡ joined xs ++ joined ys
    joined-append [] ys = refl
    joined-append (x ∷ xs) ys =
        ap (λ t. x ++ t) (joined-append xs ys) ∙ sym (append_assoc x (joined xs) (joined ys))

    joined-snoc :
        (c : List ℕ) (xs : List (List ℕ)) (line : List ℕ)
        → c ++ joined xs ++ line ≡ c ++ joined (xs ++ (line ∷ []))
    joined-snoc c xs line =
        append_assoc c (joined xs) line
        ∙ ap (λ t. c ++ (joined xs ++ t)) (sym (append_nil line))
        ∙ ap (λ t. c ++ t) (sym (joined-append xs (line ∷ [])))

    abbrev Splits : List ℕ → List (List ℕ) → ℕ → Recording V → Type 0
    Splits c all n r =
        (stable : List (List ℕ)) × (recent : List (List ℕ)) × (stable ++ recent ≡ all)
        × Split c stable recent n r

    settled :
        (due : Bool) (c line : List ℕ) (stable recent : List (List ℕ)) (n : ℕ) (next : Recording V)
        → (due ≡ true → 0 ≡ suc n % 10)
        → (due ≡ false → length recent + 1 ≡ suc n % 10)
        → Local vm content durable laws anchor
            (c ++ joined (stable ++ recent) ++ line)
            (if due then c ++ joined (stable ++ recent) ++ line else c ++ joined stable)
            (suc n)
            next
        → Splits c (stable ++ recent ++ (line ∷ [])) (suc n) next
    settled true c line stable recent n next none_left some_left (hc, hd, hn, ha, hu) =
        let whole = joined-snoc c (stable ++ recent) line in
        let all = stable ++ recent ++ (line ∷ []) in
        (
          all,
          [],
          append_nil all,
          (
            (hc ∙ whole ∙ ap (λ t. c ++ joined t) (sym (append_nil all)), hd ∙ whole, hn, ha, hu),
            none_left refl,
          ),
        )
    settled false c line stable recent n next none_left some_left (hc, hd, hn, ha, hu) =
        let assoc = append_assoc stable recent (line ∷ []) in
        (
          stable,
          recent ++ (line ∷ []),
          sym assoc,
          (
            (
              hc ∙ joined-snoc c (stable ++ recent) line ∙ ap (λ t. c ++ joined t) assoc,
              hd,
              hn,
              ha,
              hu,
            ),
            length-append recent (line ∷ []) ∙ some_left refl,
          ),
        )

    sample-Splits :
        (c : List ℕ) (all : List (List ℕ)) (n append_us checkpoint_us : ℕ) (s : LocalSample)
        (r : Recording V)
        → suc n < u32_mod
        → Splits c all n r
        → Splits c
            (all ++ (line_of anchor s ∷ []))
            (suc n)
            (log_local_sample vm append_us checkpoint_us s r).0
    sample-Splits c all n append_us checkpoint_us s r small (stable, recent, e, (h, size)) =
        let line = line_of anchor s in
        let next = (log_local_sample vm append_us checkpoint_us s r).0 in
        subst (λ ls. Splits c (ls ++ (line ∷ [])) (suc n) next) e
          (settled (suc n % 10 == 0) c line stable recent n next (λ due. ground arith)
            (λ later. ground arith)
            (sample-Local vm content durable laws anchor (c ++ joined (stable ++ recent))
              (c ++ joined stable) n append_us checkpoint_us s r small h))

    log_all-Splits :
        (c : List ℕ) (all : List (List ℕ)) (n : ℕ) (samples : List Timed) (r : Recording V)
        → n + length samples < u32_mod
        → Splits c all n r
        → Splits c (all ++ lines_of anchor samples) (n + length samples) (log_all vm samples r)
    unfolding log_all
    log_all-Splits c all n [] r small h =
        let none_more : n + 0 ≡ n = omega arith in rw (append_nil all, none_more) h
    log_all-Splits c all n ((append_us, checkpoint_us, s) ∷ samples) r small h =
        let next = (log_local_sample vm append_us checkpoint_us s r).0 in
        let more : n + suc (length samples) ≡ suc n + length samples = omega arith in
        rw (sym (append_snoc all (line_of anchor s) (lines_of anchor samples)), more)
          (log_all-Splits c (all ++ (line_of anchor s ∷ [])) (suc n) samples next (omega arith)
            (sample-Splits c all n append_us checkpoint_us s r (omega arith) h))

  -- What samples leave of LOCAL.LOG: their lines, of which all but the last few are durable.
  abbrev pub Recorded : List Timed → Recording V → Recording V → Type 0
  Recorded samples r next =
      (stable : List (List ℕ)) × (recent : List (List ℕ)) × (stable ++ recent
        ≡ lines_of r.utc_anchor samples)
      × (content next.diagnostics.volume local_log
          ≡ content r.diagnostics.volume local_log ++ joined (lines_of r.utc_anchor samples))
      × (durable next.diagnostics.volume local_log
          ≡ content r.diagnostics.volume local_log ++ joined stable)
      × (length recent ≡ length samples % 10)

  -- On a healthy card, after any row of fewer than 2 ^ 32 samples of a survey whose files were just
  -- opened, LOCAL.LOG has gained exactly the line of each sample, in order, whatever their values; and
  -- all of them but the last n % 10, for n samples, are still there after a loss of power.
  pub log_all-Recorded :
      (samples : List Timed) (r : Recording V)
      → length samples < u32_mod
      → r.survey_logging_active ≡ true
      → r.local_records_written ≡ 0
      → durable r.diagnostics.volume local_log ≡ content r.diagnostics.volume local_log
      → Recorded samples r (log_all vm samples r)
  log_all-Recorded samples r small ha hn hd =
      let c = content r.diagnostics.volume local_log in
      let empty = append_nil c in
      let none_more : 0 + length samples ≡ length samples = omega arith in
      let first : Splits r.utc_anchor c [] 0 r =
        ([], [], refl, ((sym empty, hd ∙ sym empty, hn, ha, refl), refl)) in
      let (stable, recent, e, (h, size)) =
        log_all-Splits r.utc_anchor c [] 0 samples r (omega arith) first in
      (stable, recent, e, h.0 ∙ ap (λ ls. c ++ joined ls) e, h.1, size ∙ ap (λ n. n % 10) none_more)
