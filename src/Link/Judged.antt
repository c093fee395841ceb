-- ===== src/Link/Judged.antt =====
-- What the sequence check of firmware/golfer/src/main.rs does to the candidate on probation.
use golfer.Link.Requests.{
  Request, diag, log_event, log_receiver_packet, update_radio, play_ui_sound,
}
use golfer.Link.{
  Link, Heard, Verdict, ignored, accepted, after_request, judge, judge_plain, judge_candidate,
  elapsed_since, max_plausible_gap, reboot_sequence_window,
}
use golfer.Prelude.{
  ℕ, ◌+◌, ◌-◌, ◌<◌, ◌≡◌, ◌⊎◌, refl, sym, subst, inl, inr, true, false, ◌&&◌, Option, none, some,
  List, All, ltb, leb, ◌==◌, if-both, if-cases, ltb→lt, u32_mod,
}

-- A candidate on probation lies beyond the baseline.
abbrev pub Candidate : Option ℕ → Option ℕ → Type 0
Candidate last none = Unit
Candidate none (some candidate) = ⊥
Candidate (some last) (some candidate) = last < candidate

abbrev pub IsDiag : Request → Type 0
IsDiag (diag level now message) = Unit
IsDiag (log_event now event) = ⊥
IsDiag (log_receiver_packet now telemetry rssi snr received missed crc) = ⊥
IsDiag (update_radio state) = ⊥
IsDiag (play_ui_sound sound) = ⊥

-- What the sequence check may do to a link, by its verdict.
abbrev pub Judged : Heard → Link → Link × Verdict × List Request → Type 0
Judged h k (k', ignored, rs) =
    ((k' ≡ k) ⊎ (k' ≡ record k { pending_sequence_candidate = none })) × All IsDiag rs
Judged h k (k', accepted true, rs) = (k'.pending_sequence_candidate ≡ none) × All IsDiag rs
Judged h k (k', accepted false, rs) =
    Candidate k'.last_sequence k'.pending_sequence_candidate × All IsDiag rs

module _ (h : Heard) (last : ℕ) where
  judge_plain-Judged :
      (k : Link)
      → k.last_sequence ≡ some last
      → k.pending_sequence_candidate ≡ none
      → Judged h k (judge_plain h last k)
  unfolding judge_plain
  judge_plain-Judged k base free =
      let sequence = h.telemetry.sequence in
      let P = Judged h k in
      if-both P (sequence == last) (inl refl, tt)
        (if-cases P (ltb last sequence)
          (λ ahead.
            let room =
              subst (λ (o : Option ℕ). Candidate o (some sequence)) (sym base)
                (ltb→lt last sequence ahead) in
            if-both P
              (ltb (max_plausible_gap (elapsed_since h.now k.last_sequence_rx_time))
                (sequence - last))
              (room, (tt, tt)) (free, tt))
          (λ behind.
            if-both P (leb sequence reboot_sequence_window) (refl, (tt, tt)) (inl refl, (tt, tt))))

  after_request-Judged :
      (k : Link) (r : Request) (out : Link × Verdict × List Request)
      → IsDiag r
      → Judged h (record k { pending_sequence_candidate = none }) out
      → Judged h k (after_request r out)
  after_request-Judged k r (k', ignored, rs) d (inl e, more) = (inr e, (d, more))
  after_request-Judged k r (k', ignored, rs) d (inr e, more) = (inr e, (d, more))
  after_request-Judged k r (k', accepted true, rs) d (e, more) = (e, (d, more))
  after_request-Judged k r (k', accepted false, rs) d (e, more) = (e, (d, more))

  judge_candidate-Judged :
      (candidate : Option ℕ) (k : Link)
      → k.last_sequence ≡ some last
      → k.pending_sequence_candidate ≡ candidate
      → Judged h k (judge_candidate h last candidate k)
  judge_candidate-Judged none k base free = unfold judge_candidate in judge_plain-Judged k base free
  judge_candidate-Judged (some candidate) k base pending =
      let P = Judged h k in
      let cleared : Link = record k { pending_sequence_candidate = none } in
      unfold judge_candidate in
      if-both P (candidate == h.telemetry.sequence) (inl refl, (tt, tt))
        (if-both P
          (ltb (candidate + 1) u32_mod
            && candidate + 1 == h.telemetry.sequence
            && ltb last candidate)
          (refl, (tt, tt))
          (after_request-Judged k _ (judge_plain h last cleared) tt
            (judge_plain-Judged cleared base refl)))

Candidate-none : (candidate : Option ℕ) → Candidate none candidate → candidate ≡ none
Candidate-none none h = refl
Candidate-none (some candidate) h = absurd h

pub judge-Judged :
    (h : Heard) (base : Option ℕ) (k : Link)
    → k.last_sequence ≡ base
    → Candidate base k.pending_sequence_candidate
    → Judged h k (judge h base k)
unfolding judge
judge-Judged h none k e c = (Candidate-none k.pending_sequence_candidate c, tt)
judge-Judged h (some last) k e c =
    judge_candidate-Judged h last k.pending_sequence_candidate k e refl
