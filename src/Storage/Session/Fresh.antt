-- ===== src/Storage/Session/Fresh.antt =====
-- The numbers that `allocate_boot_session` of firmware/golfer/src/storage.rs gives out.
use golfer.Prelude.Format.{padded}
use golfer.Prelude.{
  ℕ, ◌≤◌, ◌≡◌, inl, inr, refl, ap, sym, subst, ◌∙◌, arith, Bool, true, false, Option, none, some,
  List, ◌∷◌, length, Bool-cases, guard, ◌>>◌, >>=-eq-some, guard-eq-some, some-eq, u32_mod,
  saturating_add,
}
use golfer.Storage.Session.{
  Entry, SurveyDirectory, max_boot_session, highest_loop, boot_session_directory_exists,
  find_highest_boot_session, recovered, opens, in_range, first_choice, without_collision,
  choose_session, found_open, limited, checked, counter_opened, write_boot_session_counter, granted,
  allocate, allocate_boot_session, read_boot_session_counter,
}
use golfer.Storage.Session.Scan.{
  Listed, directory_name, highest_loop-Listed, in_range-bounds, name-in_range,
}

-- A directory that opens is listed, opening and closing one changes no listing, reading the counter
-- changes no answer, and a file opens and is read back as it was written and closed.
pub record VolumeLaws {V : Type 0} (dir : SurveyDirectory V) : Type 0 where
  pub lists :
      (v : V) (name : List ℕ) (entries : List Entry)
      → (dir.open_dir v name).1 ≡ true
      → dir.iterate_dir v ≡ some entries
      → Listed name entries
  pub open_dir_keeps :
      (v : V) (name : List ℕ) → dir.iterate_dir (dir.open_dir v name).0 ≡ dir.iterate_dir v
  pub close_dir_keeps : (v : V) → dir.iterate_dir (dir.close_dir v).0 ≡ dir.iterate_dir v
  pub reading_keeps :
      (v : V) (n : ℕ) (name : List ℕ)
      → (dir.open_dir (dir.close (dir.read (dir.open_read v).0 n).0).0 name).1
        ≡ (dir.open_dir v name).1
  pub open_read_keeps :
      (v : V) (name : List ℕ)
      → (dir.open_read v).1 ≡ false
      → (dir.open_dir (dir.open_read v).0 name).1 ≡ (dir.open_dir v name).1
  pub write_read :
      (v : V) (bytes : List ℕ)
      → length bytes ≤ 16
      → (dir.open_truncated v).1 ≡ true
      → (dir.write (dir.open_truncated v).0 bytes).1 ≡ true
      → (dir.flush (dir.write (dir.open_truncated v).0 bytes).0).1 ≡ true
      → (dir.close (dir.flush (dir.write (dir.open_truncated v).0 bytes).0).0).1 ≡ true
      → let closed = (dir.close (dir.flush (dir.write (dir.open_truncated v).0 bytes).0).0).0 in
        ((dir.open_read closed).1 ≡ true) × ((dir.read (dir.open_read closed).0 16).1 ≡ some bytes)

module _ {V : Type 0} (dir : SurveyDirectory V) where
  found_open-lem : (w : V × Bool) → (found_open dir w).1 ≡ w.1
  found_open-lem (v, true) = refl
  found_open-lem (v, false) = refl

  found_open-listing :
      VolumeLaws dir → (w : V × Bool) → dir.iterate_dir (found_open dir w).0 ≡ dir.iterate_dir w.0
  found_open-listing laws (v, true) = laws.close_dir_keeps v
  found_open-listing laws (v, false) = refl

  -- The test for a directory answers as its opening does, and changes no listing.
  exists-open_dir :
      VolumeLaws dir
      → (v : V) (session : ℕ) → 1 ≤ session
      → session ≤ max_boot_session
      → let exists = boot_session_directory_exists dir v session in
        (exists.1 ≡ (dir.open_dir v (directory_name session)).1)
        × (dir.iterate_dir exists.0 ≡ dir.iterate_dir v)
  unfolding boot_session_directory_exists
  exists-open_dir laws v session low high =
      let name = directory_name session in
      rw (name-in_range session low high) (
        found_open-lem (dir.open_dir v name),
        found_open-listing laws (dir.open_dir v name) ∙ laws.open_dir_keeps v name,
      )

  -- A number that the scan gives belongs to no directory.
  recovered-fresh :
      VolumeLaws dir
      → (v scanned : V) (session : ℕ) → dir.iterate_dir scanned ≡ dir.iterate_dir v
      → recovered dir scanned ≡ some session
      → session ≤ max_boot_session
      → (dir.open_dir v (directory_name session)).1 ≡ false
  unfolding find_highest_boot_session
  recovered-fresh laws v scanned session same_listing h high =
      let (highest, scan, h1) =
        >>=-eq-some (find_highest_boot_session dir scanned)
          (λ highest. some (saturating_add u32_mod highest 1)) h in
      let (entries, listing, h2) =
        >>=-eq-some (dir.iterate_dir scanned) (λ entries. some (highest_loop 0 entries)) scan in
      let top : highest_loop 0 entries ≡ highest = some-eq h2 in
      let next : saturating_add u32_mod highest 1 ≡ session = some-eq h1 in
      elim (Bool-cases (dir.open_dir v (directory_name session)).1) [
        | inr closed ↦ closed
        | inl opens ↦
            let listed =
              laws.lists v (directory_name session) entries opens (sym same_listing ∙ listing) in
            let seen = highest_loop-Listed 0 session entries high listed in
            let above : session ≤ highest = subst (λ n. session ≤ n) top seen in
            absurd (too_high highest session next high above)
      ]
    where
      too_high :
          (highest session : ℕ)
          → saturating_add u32_mod highest 1 ≡ session
          → session ≤ max_boot_session
          → session ≤ highest
          → ⊥
      too_high highest session next high above = ground arith

  without_collision-fresh :
      VolumeLaws dir
      → (v : V) (first session : ℕ) → in_range first ≡ true
      → without_collision dir first (boot_session_directory_exists dir v first) ≡ some session
      → session ≤ max_boot_session
      → (dir.open_dir v (directory_name session)).1 ≡ false
  without_collision-fresh laws v first session range h high =
      let (low, top) = in_range-bounds first range in
      let exists = boot_session_directory_exists dir v first in
      let (answer, listing) = exists-open_dir laws v first low top in
      elim (Bool-cases exists.1) [
        | inl there ↦ recovered-fresh laws v exists.0 session listing (rw there at h) high
        | inr absent ↦
            let same : first ≡ session = some-eq (rw absent at h) in
            subst (λ n. (dir.open_dir v (directory_name n)).1 ≡ false) same (sym answer ∙ absent)
      ]

  limited-some :
      (choice : Option ℕ) (session : ℕ)
      → limited dir choice ≡ some session
      → (choice ≡ some session) × (in_range session ≡ true)
  limited-some choice session h =
      let (found, is, h1) = >>=-eq-some choice (λ s. guard (in_range s) >> some s) h in
      let (u, range, h2) = >>=-eq-some (guard (in_range found)) (λ _. some found) h1 in
      let same : found ≡ session = some-eq h2 in
      (
        is ∙ ap (λ n. some n) same,
        subst (λ n. in_range n ≡ true) same (guard-eq-some (in_range found) range),
      )

  checked-fresh :
      VolumeLaws dir
      → (v : V) (choice : Option ℕ) (session : ℕ)
      → (checked dir v (limited dir choice)).1 ≡ some session
      → (1 ≤ session)
        × (session ≤ max_boot_session)
        × ((dir.open_dir v (directory_name session)).1 ≡ false)
  checked-fresh laws v choice session h = from (limited dir choice) h (limited-some choice)
    where
      from :
          (checked_choice : Option ℕ)
          → (checked dir v checked_choice).1 ≡ some session
          → ((n : ℕ) → checked_choice ≡ some n → (choice ≡ some n) × (in_range n ≡ true))
          → (1 ≤ session)
            × (session ≤ max_boot_session)
            × ((dir.open_dir v (directory_name session)).1 ≡ false)
      from none h range = cc
      from (some first) h range =
          let exists = boot_session_directory_exists dir v first in
          let (second, inside) = limited-some (without_collision dir first exists) session h in
          let (low, high) = in_range-bounds session inside in
          (low, high, without_collision-fresh laws v first session (range first refl).1 second high)

  counter_opened-answers :
      VolumeLaws dir
      → (v : V) (w : V × Bool) (name : List ℕ) → dir.open_read v ≡ w
      → (dir.open_dir (counter_opened dir w).0 name).1 ≡ (dir.open_dir v name).1
  counter_opened-answers laws v (v', true) name e =
      ap (λ (w : V × Bool). (dir.open_dir (dir.close (dir.read w.0 16).0).0 name).1) (sym e)
      ∙ laws.reading_keeps v 16 name
  counter_opened-answers laws v (v', false) name e =
      ap (λ (w : V × Bool). (dir.open_dir w.0 name).1) (sym e)
      ∙ laws.open_read_keeps v name (ap (λ (w : V × Bool). w.1) e)

  choose_session-fresh :
      VolumeLaws dir
      → (v : V) (session : ℕ) → (choose_session dir v).1 ≡ some session
      → (1 ≤ session)
        × (session ≤ max_boot_session)
        × ((dir.open_dir v (directory_name session)).1 ≡ false)
  unfolding choose_session read_boot_session_counter
  choose_session-fresh laws v session h =
      let counter = read_boot_session_counter dir v in
      let (low, high, closed) =
        checked-fresh laws counter.0 (first_choice dir counter.0 counter.1) session h in
      (
        low,
        high,
        sym (counter_opened-answers laws v (dir.open_read v) (directory_name session) refl)
            ∙ closed,
      )

  granted-some :
      (session : ℕ) (w : V × Bool) {n : ℕ}
      → (granted dir session w).1 ≡ some n
      → (session ≡ n) × (w.1 ≡ true) × ((granted dir session w).0 ≡ w.0)
  granted-some session (v, true) h = (some-eq h, refl, refl)
  granted-some session (v, false) h = cc

  -- A number that is granted was chosen, and the counter was written.
  allocate-some :
      (v : V) (chosen : Option ℕ) {session : ℕ}
      → (allocate dir v chosen).1 ≡ some session
      → (chosen ≡ some session)
        × ((write_boot_session_counter dir v (saturating_add u32_mod session 1)).1 ≡ true)
        × ((allocate dir v chosen).0
            ≡ (write_boot_session_counter dir v (saturating_add u32_mod session 1)).0)
  allocate-some v none h = cc
  allocate-some v (some first) h =
      let w = write_boot_session_counter dir v (saturating_add u32_mod first 1) in
      let (same, written, kept) = granted-some first w h in
      subst
        (λ n.
          (some first ≡ some n)
          × ((write_boot_session_counter dir v (saturating_add u32_mod n 1)).1 ≡ true)
          × ((allocate dir v (some first)).0
              ≡ (write_boot_session_counter dir v (saturating_add u32_mod n 1)).0))
        same (refl, written, kept)

  -- The number that `allocate_boot_session` gives lies within its limits, and no directory of that
  -- number opens in the survey before the call, whether the counter was right, stale, damaged or
  -- missing.
  pub allocate_boot_session-fresh :
      VolumeLaws dir
      → (v : V) (session : ℕ) → (allocate_boot_session dir v).1 ≡ some session
      → (1 ≤ session)
        × (session ≤ max_boot_session)
        × ((dir.open_dir v (0x42 ∷ padded 7 session)).1 ≡ false)
  unfolding allocate_boot_session
  allocate_boot_session-fresh laws v session h =
      let choice = choose_session dir v in
      let (chosen, _, _) = allocate-some choice.0 choice.1 h in
      choose_session-fresh laws v session chosen

  pub allocation :
      (v : V) {session : ℕ}
      → (allocate_boot_session dir v).1 ≡ some session
      → let chosen = (choose_session dir v).0 in
        ((write_boot_session_counter dir chosen (saturating_add u32_mod session 1)).1 ≡ true)
        × ((allocate_boot_session dir v).0
            ≡ (write_boot_session_counter dir chosen (saturating_add u32_mod session 1)).0)
  unfolding allocate_boot_session
  allocation v h =
      let choice = choose_session dir v in
      let (_, written, run) = allocate-some choice.0 choice.1 h in (written, run)
