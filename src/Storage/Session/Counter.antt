-- ===== src/Storage/Session/Counter.antt =====
-- The counter of boot sessions on the card (firmware/golfer/src/storage.rs): what was written is read
-- by the next boot.
use golfer.Prelude.Format.{padded}
use golfer.Prelude.{
  ℕ, ◌+◌, ◌^◌, ◌<◌, ◌≡◌, refl, ap, sym, ◌∙◌, arith, Bool, true, false, some, List, [], ◌∷◌, ◌++◌,
  u32_mod, saturating_add,
}
use golfer.Storage.Session.{
  SurveyDirectory, kind, closing, then_flush, then_write, write_boot_session_counter,
  allocate_boot_session, read_boot_session_counter, parse_counter, choose_session, counter_opened,
}
use golfer.Storage.Session.Numbers.{counter_loop-padded}
use golfer.Storage.Session.Fresh.{VolumeLaws, allocation, allocate_boot_session-fresh}

module _ {V : Type 0} (dir : SurveyDirectory V) where
  closing-true :
      (w : V × Bool) → (closing dir w).1 ≡ true → (w.1 ≡ true) × (closing dir w ≡ dir.close w.0)
  closing-true (v, true) h = (refl, refl)
  closing-true (v, false) h = cc

  then_flush-true :
      (w : V × Bool)
      → (then_flush dir w).1 ≡ true
      → (w.1 ≡ true) × ((dir.flush w.0).1 ≡ true) × (then_flush dir w ≡ dir.close (dir.flush w.0).0)
  then_flush-true (v, true) h =
      let (flushed, run) = closing-true (dir.flush v) h in (refl, flushed, run)
  then_flush-true (v, false) h = cc

  then_write-true :
      (contents : List ℕ) (o : V × Bool)
      → (then_write dir contents o).1 ≡ true
      → (o.1 ≡ true)
        × ((dir.write o.0 contents).1 ≡ true)
        × ((dir.flush (dir.write o.0 contents).0).1 ≡ true)
        × (then_write dir contents o ≡ dir.close (dir.flush (dir.write o.0 contents).0).0)
  then_write-true contents (v, true) h =
      let (w, f, run) = then_flush-true (dir.write v contents) h in (refl, w, f, run)
  then_write-true contents (v, false) h = cc

  counter_opened-read :
      (w : V × Bool) → w.1 ≡ true → (counter_opened dir w).1 ≡ parse_counter (dir.read w.0 16).1
  counter_opened-read (v, true) h = refl
  counter_opened-read (v, false) h = cc

  counter_read :
      VolumeLaws dir
      → (v : V) (next : ℕ) → next < 10 ^ 8
      → (write_boot_session_counter dir v next).1 ≡ true
      → (read_boot_session_counter dir (write_boot_session_counter dir v next).0).1 ≡ some next
  unfolding write_boot_session_counter read_boot_session_counter kind
  counter_read laws v next small h =
      let contents = padded 8 next ++ (0x0A ∷ []) in
      let (o, w, f, run) = then_write-true contents (dir.open_truncated v) h in
      let c = sym (ap (λ (p : V × Bool). p.1) run) ∙ h in
      let (opens, back) = laws.write_read v contents (omega arith) o w f c in
      ap (λ (p : V × Bool). (counter_opened dir (dir.open_read p.0)).1) run
      ∙ counter_opened-read (dir.open_read _) opens
      ∙ ap parse_counter back
      ∙ counter_loop-padded 7 next (0x0A ∷ []) small (omega arith)

  -- After `allocate_boot_session` has given a number, the counter on the card reads as the next one.
  pub allocate_boot_session-counter :
      VolumeLaws dir
      → (v : V) (session : ℕ) → (allocate_boot_session dir v).1 ≡ some session
      → (read_boot_session_counter dir (allocate_boot_session dir v).0).1 ≡ some (session + 1)
  allocate_boot_session-counter laws v session h =
      let (low, high, _) = allocate_boot_session-fresh dir laws v session h in
      let (written, run) = allocation dir v h in
      let next : saturating_add u32_mod session 1 ≡ session + 1 = ground arith in
      ap (λ (s : V). (read_boot_session_counter dir s).1) run
      ∙ counter_read laws (choose_session dir v).0 (saturating_add u32_mod session 1) (ground arith)
          written
      ∙ ap (λ n. some n) next
