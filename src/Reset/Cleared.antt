-- ===== src/Reset/Cleared.antt =====
-- What ResetState leaves of the state directory.
use connectorhost.Common.{
  ◌≡◌, ◌≢◌, refl, sym, String, Bool, true, false, none, some, [], ◌∷◌, ◌==◌, arith, string_eq,
  eq_iff, Error, Result, ok, err, is_ok, guard, ◌>>◌, ◌∙◌, inl, inr, ◌⊎◌, Bool-cases,
  unexpected_entry,
}
use connectorhost.Dict.{lookup, delete, lookup-delete, lookup-insert}
use connectorhost.Reset.{
  Entry, regular, Directory, Platform, Calls, kept, remove_entries, remove_marker,
  reset_state_entries, resettable_state_entry, check_entries, has_valid_reset_marker, finish_reset,
  reset_state_locked, reset_marked, check_reset, write_reset_marker, reset_state, reset_locked,
  reset_opened, check_root, with_lock_file,
}

module _ (p : Platform) where
  remove_entries_clears :
      (c : Calls) (entries d : Directory) (name : String)
      → kept name ≡ false
      → (lookup name entries ≡ none → lookup name d ≡ none)
      → (remove_entries p c entries d).1 ≡ ok tt
      → lookup name (remove_entries p c entries d).0 ≡ none
  unfolding remove_entries lookup
  remove_entries_clears c [] d name k m h = m refl
  remove_entries_clears c ((at, entry) ∷ later) d name k m h = ground (
    arith,
    remove_entries_clears c later d name k,
    remove_entries_clears c later (delete at d) name k,
    lookup-delete at name d,
    eq_iff at name,
  )

  marker_clears :
      (c : Calls) (x : Directory × Result (Unit {0})) (name : String)
      → (kept name ≡ false → x.1 ≡ ok tt → lookup name x.0 ≡ none)
      → name ≢ ".lock"
      → (remove_marker p c x).1 ≡ ok tt
      → lookup name (remove_marker p c x).0 ≡ none
  unfolding remove_marker kept
  marker_clears c (d, err e) name m n h = absurd (cc (h))
  marker_clears c (d, ok tt) name m n h = ground (
    arith,
    lookup-delete ".resetting" name d,
    eq_iff ".resetting" name,
    eq_iff name ".resetting",
    eq_iff name ".lock",
  )

  locked_clears :
      (c : Calls) (d : Directory) (name : String)
      → name ≢ ".lock"
      → (reset_state_locked p c d).1 ≡ ok tt
      → lookup name (reset_state_locked p c d).0 ≡ none
  unfolding reset_state_locked
  locked_clears c d name n h = ground (
    arith,
    marker_clears c (remove_entries p c d d) name (λ k. remove_entries_clears c d d name k (λ e. e))
        n,
  )

  marked_clears :
      (c : Calls) (x : Directory × Result (Unit {0})) (name : String)
      → name ≢ ".lock"
      → (reset_marked p c x).1 ≡ ok tt
      → lookup name (reset_marked p c x).0 ≡ none
  unfolding reset_marked
  marked_clears c (d, err e) name n h = absurd (cc (h))
  marked_clears c (d, ok tt) name n h = locked_clears c d name n h

  opened_clears :
      (c : Calls) (root : String) (d : Directory) (name : String) (opened : Result (Unit {0}))
      → name ≢ ".lock"
      → (reset_opened p c root d opened).1 ≡ ok tt
      → lookup name (reset_opened p c root d opened).0 ≡ none
  unfolding reset_opened reset_locked
  opened_clears c root d name (err e) n h = absurd (cc (h))
  opened_clears c root d name (ok _) n h =
      ground (arith, marked_clears c (write_reset_marker p c root (with_lock_file p d)) name n)

  -- A reset that reports no error has emptied the state directory: whatever was in it, only the lock
  -- file can still be there, and the marker is gone too.
  pub reset_state_clears :
      (c : Calls) (root : String) (d : Directory) (name : String)
      → (reset_state p c root d).1 ≡ ok tt
      → name ≢ ".lock"
      → lookup name (reset_state p c root d).0 ≡ none
  unfolding reset_state
  reset_state_clears c root d name h n = opened_clears c root d name (check_root p c root) n h

  refused_later :
      (b : Bool) (e : Error) (r : Result (Unit {0}))
      → is_ok r ≡ false
      → is_ok (guard b e >> r) ≡ false
  refused_later false e r h = refl
  refused_later true e r h = h

  unexpected :
      (d : Directory) (name : String) (entry : Entry)
      → lookup name d ≡ some entry
      → kept name ≡ false
      → resettable_state_entry p name ≡ false
      → is_ok (check_entries p d) ≡ false
  unfolding lookup check_entries
  unexpected [] name entry l k r = absurd (cc (l))
  unexpected ((at, old) ∷ later) name entry l k r = elim (Bool-cases (at == name)) [
    | inl same ↦ rw ((eq_iff at name).0 same, k, r) refl
    | inr other ↦
        refused_later _ unexpected_entry (check_entries p later)
          (unexpected later name entry (sym (rw other refl) ∙ l) k r)
  ]

  lock_file-lookup :
      (d : Directory) (name : String)
      → kept name ≡ false
      → lookup name (with_lock_file p d) ≡ lookup name d
  unfolding with_lock_file kept
  lock_file-lookup d name k =
      ground
        (arith, lookup-insert ".lock" name (regular "") d, eq_iff ".lock" name, eq_iff name ".lock")

  locked_refuses :
      (c : Calls) (root : String) (d : Directory)
      → is_ok (check_entries p d) ≡ false
      → (is_ok (reset_locked p c root d).1 ≡ false) × ((reset_locked p c root d).0 ≡ d)
  unfolding reset_locked check_reset reset_state_entries
  locked_refuses c root d e = ground (arith, e)

  -- Nothing but the lock file is made, and nothing is removed or changed.
  abbrev pub Refused : Directory → Directory × Result (Unit {0}) → Type 0
  Refused d x = (is_ok x.1 ≡ false) × ((x.0 ≡ d) ⊎ (x.0 ≡ with_lock_file p d))

  opened_refuses :
      (c : Calls) (root : String) (d : Directory) (opened : Result (Unit {0}))
      → is_ok (check_entries p (with_lock_file p d)) ≡ false
      → Refused d (reset_opened p c root d opened)
  unfolding reset_opened
  opened_refuses c root d (err e) bad = (refl, inl refl)
  opened_refuses c root d (ok _) bad =
      let (failed, same) = locked_refuses c root (with_lock_file p d) bad in (failed, inr same)

  -- An entry that is not the host's own, nor the lock or the marker, stops the reset before it removes
  -- or changes anything: the reset reports an error, and the directory is as it was, or as it was with
  -- the lock file made in it where that was missing.
  pub reset_state_refuses :
      (c : Calls) (root : String) (d : Directory) (name : String) (entry : Entry)
      → lookup name d ≡ some entry
      → kept name ≡ false
      → resettable_state_entry p name ≡ false
      → Refused d (reset_state p c root d)
  unfolding reset_state
  reset_state_refuses c root d name entry l k r =
      opened_refuses c root d (check_root p c root)
        (unexpected (with_lock_file p d) name entry (lock_file-lookup d name k ∙ l) k r)

  -- A directory with a valid marker is emptied before the store is opened, as by the reset itself.
  pub finish_reset_clears :
      (c : Calls) (root : String) (d : Directory) (name : String)
      → has_valid_reset_marker p c root (lookup ".resetting" d) ≡ ok true
      → (finish_reset p c root d).1 ≡ ok tt
      → name ≢ ".lock"
      → lookup name (finish_reset p c root d).0 ≡ none
  unfolding finish_reset
  finish_reset_clears c root d name m h n = ground (arith, locked_clears c d name n)
