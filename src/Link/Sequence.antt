-- ===== src/Link/Sequence.antt =====
-- The sequence numbers of accepted packets (firmware/golfer/src/main.rs, the sequence validation).
use golfer.Link.{
  Heard, Link, judge, judge_candidate, judge_plain, max_plausible_gap, on_sequence, accept,
}
use golfer.Prelude.{
  saturating_add, ℕ, ==_ne, arith, ge→ltb, lt→ltb, none, refl, some, u32_mod, ◌+◌, ◌-◌, ◌<◌, ◌≡◌,
  ◌≤◌, false, ==_iff, sym,
}

-- A link that follows a beacon and has no packet on probation: the last trusted sequence number, and
-- when it arrived.
abbrev pub tracking : ℕ → ℕ → Link → Link
tracking last at k = record k {
  last_sequence = some last;
  last_sequence_rx_time = some at;
  pending_sequence_candidate = none;
}

add_exact : (a b : ℕ) → a + b < u32_mod → saturating_add u32_mod a b ≡ a + b
add_exact a b h = ground arith

-- While no packet is on probation, a later packet whose gap is plausible for the time that passed
-- becomes the baseline, and is counted together with the packets that were missed before it: the packets received and missed move by as
-- much as the sequence number, where the two counts do not reach the end of a `u32`.
pub on_sequence-forward :
    (h : Heard) (last at : ℕ) (k : Link)
    → last < h.telemetry.sequence
    → h.telemetry.sequence - last ≤ max_plausible_gap (h.now - at)
    → k.received_packets + 1 < u32_mod
    → k.missed_packets + (h.telemetry.sequence - last) < u32_mod
    → let after = (on_sequence h (tracking last at k)).0 in
      (after.last_sequence ≡ some h.telemetry.sequence)
      × (after.last_sequence_rx_time ≡ some h.now)
      × (after.pending_sequence_candidate ≡ none)
      × (after.received_packets + after.missed_packets + last
          ≡ k.received_packets + k.missed_packets + h.telemetry.sequence)
unfolding on_sequence judge judge_candidate judge_plain
on_sequence-forward h last at k lt plausible r m =
    let sequence = h.telemetry.sequence in
    rw
      (
        ==_ne sequence last (omega arith),
        lt→ltb last sequence lt,
        ge→ltb (max_plausible_gap (h.now - at)) (sequence - last) plausible,
        add_exact k.received_packets 1 r,
        add_exact k.missed_packets (sequence - last - 1) (omega arith),
      )
      (refl, refl, refl, omega arith)

abbrev probation : Heard → ℕ → ℕ → Link → Link
probation h last at k =
    accept false h
      (record (tracking last at k) { pending_sequence_candidate = some h.telemetry.sequence })

-- A packet whose gap is not plausible goes on probation; the baseline stays.
on_sequence-probation :
    (h : Heard) (last at : ℕ) (k : Link)
    → last < h.telemetry.sequence
    → max_plausible_gap (h.now - at) < h.telemetry.sequence - last
    → (on_sequence h (tracking last at k)).0 ≡ probation h last at k
unfolding on_sequence judge judge_candidate judge_plain
on_sequence-probation h last at k lt far =
    let candidate = h.telemetry.sequence in
    rw
      (
        ==_ne candidate last (omega arith),
        lt→ltb last candidate lt,
        lt→ltb (max_plausible_gap (h.now - at)) (candidate - last) far,
      )
      refl

-- The successor of the packet on probation.
on_sequence-confirm :
    (h h' : Heard) (last at : ℕ) (k : Link)
    → last < h.telemetry.sequence
    → h'.telemetry.sequence ≡ h.telemetry.sequence + 1
    → h.telemetry.sequence + 1 < u32_mod
    → k.received_packets + 2 < u32_mod
    → k.missed_packets + (h.telemetry.sequence - last) < u32_mod
    → let after = (on_sequence h' (probation h last at k)).0 in
      (after.last_sequence ≡ some h'.telemetry.sequence)
      × (after.pending_sequence_candidate ≡ none)
      × (after.received_packets + after.missed_packets + last
          ≡ k.received_packets + k.missed_packets + h'.telemetry.sequence)
unfolding on_sequence judge judge_candidate
on_sequence-confirm h h' last at k lt next fits r m =
    let candidate = h.telemetry.sequence in
    rw
      (
        ==_ne candidate h'.telemetry.sequence (omega arith),
        lt→ltb (candidate + 1) u32_mod fits,
        (==_iff (candidate + 1) h'.telemetry.sequence).1 (sym next),
        lt→ltb last candidate lt,
        add_exact k.received_packets 1 (omega arith),
        add_exact (k.received_packets + 1) 1 (omega arith),
        add_exact k.missed_packets (candidate - last - 1) (omega arith),
      )
      (refl, refl, omega arith)

-- A jump of any size is confirmed by its successor: when, while no packet is on probation, a packet
-- with an implausible gap comes, and then the packet with the next number, at whatever times, the
-- baseline stays at the first and becomes
-- that number at the second, and the packets received and missed have moved, over the two packets, by
-- as much as the sequence number, where the counts and the number do not reach the end of a `u32`.
pub on_sequence-resync :
    (h h' : Heard) (last at : ℕ) (k : Link)
    → last < h.telemetry.sequence
    → h'.telemetry.sequence ≡ h.telemetry.sequence + 1
    → h.telemetry.sequence + 1 < u32_mod
    → max_plausible_gap (h.now - at) < h.telemetry.sequence - last
    → k.received_packets + 2 < u32_mod
    → k.missed_packets + (h.telemetry.sequence - last) < u32_mod
    → let first = (on_sequence h (tracking last at k)).0 in
      let after = (on_sequence h' first).0 in
      (first.last_sequence ≡ some last)
      × (after.last_sequence ≡ some h'.telemetry.sequence)
      × (after.pending_sequence_candidate ≡ none)
      × (after.received_packets + after.missed_packets + last
          ≡ k.received_packets + k.missed_packets + h'.telemetry.sequence)
on_sequence-resync h h' last at k lt next fits far r m =
    let (base, pending, sum) = on_sequence-confirm h h' last at k lt next fits r m in
    rw (on_sequence-probation h last at k lt far) (refl, base, pending, sum)
