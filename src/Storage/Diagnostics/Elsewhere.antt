-- ===== src/Storage/Diagnostics/Elsewhere.antt =====
-- The diagnostic log of firmware/golfer/src/storage.rs leaves alone what the writes and the flushes of
-- its file leave alone.
use golfer.Prelude.{
  ℕ, ◌≡◌, refl, ◌∙◌, Bool, true, false, Option, none, some, List, [], ◌∷◌, ◌++◌, length, ltb, leb,
  if-both, ◌+◌, ◌||◌, not,
}
use golfer.Storage.{PersistentLogLevel, level_rank, forces_persistent_flush}
use golfer.Storage.Diagnostics.{
  DebugFile, Diagnostics, flushed, after_append, drained, flush_open, flush_debug_buffer, with_room,
  pushed, logged, diag, debug_line,
}

module _ {V X : Type 0} (file : DebugFile V) (seen : V → X) where
  pub record Untouched : Type 0 where
    pub by_write : (v : V) (bytes : List ℕ) → seen (file.write v bytes).0 ≡ seen v
    pub by_flush : (v : V) → seen (file.flush v).0 ≡ seen v

  abbrev Same : Diagnostics V → Diagnostics V → Type 0
  Same d d' = seen d'.volume ≡ seen d.volume

  module _ (untouched : Untouched) where
    flushed-Same : (flush_file : Bool) (d : Diagnostics V) → Same d (flushed file flush_file d)
    flushed-Same false d = refl
    flushed-Same true d = untouched.by_flush d.volume

    after_append-Same :
        (flush_file : Bool) (w : V × Bool) (d : Diagnostics V)
        → seen w.0 ≡ seen d.volume
        → Same d (after_append file flush_file w d)
    after_append-Same flush_file (v, false) d e = e
    after_append-Same flush_file (v, true) d e =
        flushed-Same flush_file (record d { volume = v; debug_buffer = [] }) ∙ e

    drained-Same :
        (flush_file : Bool) (bytes : List ℕ) (d : Diagnostics V)
        → Same d (drained file flush_file bytes d)
    drained-Same flush_file [] d = flushed-Same flush_file d
    drained-Same flush_file (b ∷ bytes) d =
        after_append-Same flush_file (file.write d.volume (b ∷ bytes)) d
          (untouched.by_write d.volume (b ∷ bytes))

    flush_open-Same :
        (flush_file is_open : Bool) (d : Diagnostics V)
        → Same d (flush_open file flush_file is_open d)
    flush_open-Same flush_file false d = refl
    flush_open-Same flush_file true d = drained-Same flush_file d.debug_buffer d

    pub flush_debug_buffer-Same :
        (flush_file : Bool) (d : Diagnostics V) → Same d (flush_debug_buffer file flush_file d)
    unfolding flush_debug_buffer
    flush_debug_buffer-Same flush_file d = flush_open-Same flush_file d.debug_file d

    with_room-Same : (size : ℕ) (d : Diagnostics V) → Same d (with_room file size d)
    with_room-Same size d =
        if-both (Same d) (ltb 2048 (length d.debug_buffer + size)) (flush_debug_buffer-Same false d)
          refl

    pushed-Same :
        (level : PersistentLogLevel) (line : List ℕ) (d : Diagnostics V)
        → Same d (pushed file level line d)
    pushed-Same level line d =
        let longer : Diagnostics V = record d { debug_buffer = d.debug_buffer ++ line } in
        if-both (Same d) (leb (length d.debug_buffer + length line) 2048)
          (if-both (Same d) (forces_persistent_flush level) (flush_debug_buffer-Same true longer)
            refl)
          refl

    logged-Same :
        (level : PersistentLogLevel) (line : Option (List ℕ)) (d : Diagnostics V)
        → Same d (logged file level line d)
    logged-Same level none d = refl
    logged-Same level (some line) d =
        pushed-Same level line (with_room file (length line) d) ∙ with_room-Same (length line) d

    pub diag-Same :
        (level : PersistentLogLevel) (envelope message : List ℕ) (d : Diagnostics V)
        → Same d (diag file level envelope message d)
    unfolding diag
    diag-Same level envelope message d =
        if-both (Same d) (ltb 5 (level_rank level) || not d.debug_file) refl
          (logged-Same level (debug_line envelope message) d)
