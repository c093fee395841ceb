-- ===== src/Storage/Session/Scan.antt =====
-- The scan of a survey for the directories of its sessions (firmware/golfer/src/storage.rs).
use golfer.Prelude.Format.{padded}
use golfer.Prelude.{
  ℕ, ◌≤◌, ◌≡◌, ◌⊎◌, inl, inr, ap, sym, subst, ◌∙◌, arith, true, Option, none, some, List, [], ◌∷◌,
  append_nil, map,
}
use golfer.Storage.Session.{
  Entry, max_boot_session, kind, numbered, session_loop, later, entry_number, highest_loop,
  boot_session_directory_name, in_range,
}
use golfer.Storage.Session.Numbers.{session_loop-padded}

-- A directory of that name stands among the entries.
abbrev pub Listed : List ℕ → List Entry → Type 0
Listed name [] = ⊥
Listed name (entry ∷ entries) =
    ((entry.directory ≡ true) × (entry.base_name ≡ name)) ⊎ Listed name entries

abbrev pub directory_name : ℕ → List ℕ
directory_name session = 0x42 ∷ padded 7 session

numbered-directory_name :
    (session : ℕ) → session ≤ max_boot_session → numbered (directory_name session) ≡ some session
numbered-directory_name session h =
    ap (λ (t : List ℕ). session_loop 0 (map kind t)) (sym (append_nil (padded 7 session)))
    ∙ session_loop-padded 7 session [] (omega arith) (omega arith)

highest_loop-ge : (highest : ℕ) (entries : List Entry) → highest ≤ highest_loop highest entries
highest_loop-ge highest [] = omega arith
highest_loop-ge highest (entry ∷ entries) =
    let o = entry_number entry in
    let grows = highest_loop-ge (later highest o) entries in omega (arith, later-ge highest o)
  where
    later-ge : (highest : ℕ) (o : Option ℕ) → highest ≤ later highest o
    later-ge highest none = omega arith
    later-ge highest (some value) = ground arith

-- The scan finds every session's directory.
pub highest_loop-Listed :
    (highest session : ℕ) (entries : List Entry)
    → session ≤ max_boot_session
    → Listed (directory_name session) entries
    → session ≤ highest_loop highest entries
highest_loop-Listed highest session [] h listed = absurd listed
highest_loop-Listed highest session (entry ∷ entries) h (inr listed) =
    highest_loop-Listed (later highest (entry_number entry)) session entries h listed
highest_loop-Listed highest session (entry ∷ entries) h (inl (is_directory, named)) =
    let number : entry_number entry ≡ some session =
      rw (is_directory, named) (numbered-directory_name session h) in
    let at_least : session ≤ later highest (some session) = ground arith in
    let grows = highest_loop-ge (later highest (entry_number entry)) entries in
    let reached : later highest (some session)
        ≤ highest_loop (later highest (entry_number entry)) entries =
      subst
        (λ (o : Option ℕ).
          later highest o ≤ highest_loop (later highest (entry_number entry)) entries)
        number grows in
    omega arith

pub in_range-bounds :
    (session : ℕ) → in_range session ≡ true → (1 ≤ session) × (session ≤ max_boot_session)
in_range-bounds session h = ground arith

pub name-in_range :
    (session : ℕ)
    → 1 ≤ session
    → session ≤ max_boot_session
    → boot_session_directory_name session ≡ some (directory_name session)
unfolding boot_session_directory_name
name-in_range session low high = ground arith
