-- ===== src/Outbox/Prune.antt =====
-- pruneRejectedOutcomes of outbox.go: the oldest rejected outcomes go until the rest is within the
-- limits on their number and their size.
use Prim.Native.Nat.{Ordering}
use Prim.Native.String.{len, compare}
use connectorhost.Common.{
  ℕ, ◌+◌, ◌-◌, Bool, true, false, ◌||◌, ◌&&◌, List, [], ◌∷◌, ltb, length, ◌==◌, nat_eq,
  if◌then◌else◌, Result, ok, err, external, guard, ◌>>◌,
}
use connectorhost.Outbox.{Outbox, RejectedFile, max_rejected_entries, max_rejected_bytes}

-- The less function of `sort.Slice`.
unfoldable pub older : RejectedFile → RejectedFile → Bool
older a b =
    if a.modified == b.modified
    then elim (compare a.name b.name) [ Ordering.lt ↦ true | _ ↦ false ]
    else ltb a.modified b.modified

unfoldable pub insert_sorted : RejectedFile → List RejectedFile → List RejectedFile
unfolding older
insert_sorted f [] = f ∷ []
insert_sorted f (g ∷ rest) =
    let further = insert_sorted f rest in if older g f then g ∷ further else f ∷ g ∷ rest

-- `sort.Slice` with that function; names in a directory differ, so the order is a strict one.
unfoldable pub sort_rejected : List RejectedFile → List RejectedFile
unfolding insert_sorted
sort_rejected [] = []
sort_rejected (f ∷ rest) = insert_sorted f (sort_rejected rest)

unfoldable pub rejected_bytes : List RejectedFile → ℕ
rejected_bytes [] = 0
rejected_bytes (f ∷ rest) = len f.body + rejected_bytes rest

-- The loop, over the files from `rejected[removed]` on: `size` is what is counted to be left, and
-- `removable` says for which files `os.Remove` succeeds.
module _ (removable : RejectedFile → Bool) where
  unfoldable pub prune_loop : List RejectedFile → ℕ → List RejectedFile × Result (Unit {0})
  prune_loop [] size = ([], ok tt)
  prune_loop (f ∷ rest) size =
      let next = prune_loop rest (size - len f.body) in
      if ltb max_rejected_entries (length (f ∷ rest)) || ltb max_rejected_bytes size
      then (if removable f then next else (f ∷ rest, err external))
      else (f ∷ rest, ok tt)

-- How the system calls of one pruning end: `os.ReadDir`, where a directory that is missing is an empty
-- one; for which files `entry.Info` and `os.Remove` succeed; and syncDirectory.
pub record Pruning : Type 0 where
  pub listable : Bool
  pub has_info : RejectedFile → Bool
  pub removable : RejectedFile → Bool
  pub synced : Bool

module _ (x : Pruning) where
  unfoldable pub have_info : List RejectedFile → Bool
  have_info [] = true
  have_info (f ∷ rest) = x.has_info f && have_info rest

  -- The directory is synced where a file was removed.
  unfoldable pub sync_after : Bool → Result (Unit {0})
  sync_after false = ok tt
  sync_after true = guard x.synced external

  unfoldable pub prune_rejected_outcomes : Outbox → Outbox × Result (Unit {0})
  unfolding prune_loop sort_rejected rejected_bytes have_info sync_after
  prune_rejected_outcomes box =
      let (kept, result) =
        prune_loop x.removable (sort_rejected box.rejected) (rejected_bytes box.rejected) in
      if x.listable && have_info box.rejected
      then (
        record box { rejected = kept },
        result >> sync_after (ltb (length kept) (length box.rejected)),
      )
      else (box, err external)
