-- ===== src/Outbox/Retention.antt =====
-- What pruneRejectedOutcomes keeps.
use Prim.Native.String.{len}
use mathlib.Core.List.{Perm}
use mathlib.Core.List.Perm
use connectorhost.Common.{
  ℕ, ◌+◌, ◌-◌, ◌≤◌, ◌≡◌, refl, ap, Bool, true, false, ◌||◌, ◌&&◌, List, [], ◌∷◌, ◌++◌, arith, ltb,
  length, All, nat_eq, ok, Bool-cases, inl, inr, subst,
}
use connectorhost.Outbox.{Outbox, RejectedFile, max_rejected_entries, max_rejected_bytes}
use connectorhost.Outbox.Prune.{
  Pruning, older, insert_sorted, sort_rejected, rejected_bytes, prune_loop, have_info, sync_after,
  prune_rejected_outcomes,
}

insert_sorted-perm : (f : RejectedFile) (l : List RejectedFile) → Perm (insert_sorted f l) (f ∷ l)
unfolding insert_sorted
insert_sorted-perm f [] = Perm.rfl
insert_sorted-perm f (g ∷ rest) = elim (Bool-cases (older g f)) [
  | inl o ↦ rw o (Perm.trans (Perm.cons g (insert_sorted-perm f rest)) (Perm.swap f g rest))
  | inr o ↦ rw o Perm.rfl
]

pub sort_rejected-perm : (l : List RejectedFile) → Perm (sort_rejected l) l
unfolding sort_rejected
sort_rejected-perm [] = Perm.rfl
sort_rejected-perm (f ∷ rest) =
    Perm.trans (insert_sorted-perm f (sort_rejected rest)) (Perm.cons f (sort_rejected-perm rest))

-- From the oldest to the newest.
abbrev pub Chronological : List RejectedFile → Type 0
Chronological [] = Unit
Chronological (f ∷ rest) = All (λ g. f.modified ≤ g.modified) rest × Chronological rest

-- Each of the first files is at most as new as each of the others.
abbrev pub NoneNewer : List RejectedFile → List RejectedFile → Type 0
NoneNewer dropped kept = All (λ d. All (λ k. d.modified ≤ k.modified) kept) dropped

older-le : (g f : RejectedFile) → older g f ≡ true → g.modified ≤ f.modified
unfolding older
older-le g f o = ground arith

not_older-le : (g f : RejectedFile) → older g f ≡ false → f.modified ≤ g.modified
unfolding older
not_older-le g f o = ground arith

All-le :
    (m n : ℕ) (l : List RejectedFile)
    → m ≤ n
    → All (λ g. n ≤ g.modified) l
    → All (λ g. m ≤ g.modified) l
All-le m n [] h a = tt
All-le m n (g ∷ l) h a = (omega (arith, a.0, h), All-le m n l h a.1)

All-insert_sorted :
    (n : ℕ) (f : RejectedFile) (l : List RejectedFile)
    → n ≤ f.modified
    → All (λ g. n ≤ g.modified) l
    → All (λ g. n ≤ g.modified) (insert_sorted f l)
unfolding insert_sorted
All-insert_sorted n f [] h a = (h, tt)
All-insert_sorted n f (g ∷ l) h a = elim (Bool-cases (older g f)) [
  | inl o ↦ rw o (a.0, All-insert_sorted n f l h a.1)
  | inr o ↦ rw o (h, a)
]

insert_sorted-Chronological :
    (f : RejectedFile) (l : List RejectedFile) → Chronological l → Chronological (insert_sorted f l)
unfolding insert_sorted
insert_sorted-Chronological f [] c = (tt, tt)
insert_sorted-Chronological f (g ∷ l) c = elim (Bool-cases (older g f)) [
  | inl o ↦
      rw o
        (All-insert_sorted g.modified f l (older-le g f o) c.0, insert_sorted-Chronological f l c.1)
  | inr o ↦ let h = not_older-le g f o in rw o ((h, All-le f.modified g.modified l h c.0), c)
]

pub sort_rejected-Chronological : (l : List RejectedFile) → Chronological (sort_rejected l)
unfolding sort_rejected
sort_rejected-Chronological [] = tt
sort_rejected-Chronological (f ∷ rest) =
    insert_sorted-Chronological f (sort_rejected rest) (sort_rejected-Chronological rest)

rejected_bytes-insert_sorted :
    (f : RejectedFile) (l : List RejectedFile)
    → rejected_bytes (insert_sorted f l) ≡ len f.body + rejected_bytes l
unfolding insert_sorted rejected_bytes
rejected_bytes-insert_sorted f [] = refl
rejected_bytes-insert_sorted f (g ∷ l) = ground (arith, rejected_bytes-insert_sorted f l)

rejected_bytes-sort : (l : List RejectedFile) → rejected_bytes (sort_rejected l) ≡ rejected_bytes l
unfolding sort_rejected rejected_bytes
rejected_bytes-sort [] = refl
rejected_bytes-sort (f ∷ l) =
    omega (arith, rejected_bytes-insert_sorted f (sort_rejected l), rejected_bytes-sort l)

-- The limits on what is kept.
pub record Retained (l : List RejectedFile) : Type 0 where
  pub entries : length l ≤ max_rejected_entries
  pub bytes : rejected_bytes l ≤ max_rejected_bytes

module _ (removable : RejectedFile → Bool) where
  All-append : (P : RejectedFile → Type 0) (l m : List RejectedFile) → All P (l ++ m) → All P m
  All-append P [] m a = a
  All-append P (f ∷ l) m a = All-append P l m a.1

  prune_loop-suffix :
      (l : List RejectedFile) (size : ℕ)
      → Chronological l
      → (dropped : List RejectedFile) × (l ≡ dropped ++ (prune_loop removable l size).0)
        × NoneNewer dropped (prune_loop removable l size).0
  unfolding prune_loop
  prune_loop-suffix [] size c = ([], refl, tt)
  prune_loop-suffix (f ∷ rest) size c =
      let (dropped, e, n) = prune_loop-suffix rest (size - len f.body) c.1 in
      elim (Bool-cases
        (ltb max_rejected_entries (length (f ∷ rest)) || ltb max_rejected_bytes size)) [
          | inr o ↦ rw o ([], refl, tt)
          | inl o ↦ elim (Bool-cases (removable f)) [
            | inr r ↦ rw (o, r) ([], refl, tt)
            | inl r ↦
                rw (o, r)
                  (
                    f ∷ dropped,
                    ap (λ x. f ∷ x) e,
                    (
                      All-append (λ g. f.modified ≤ g.modified) dropped _
                          (subst (All (λ g. f.modified ≤ g.modified)) e c.0),
                      n,
                    ),
                  )
          ]
        ]

  prune_loop-Retained :
      (l : List RejectedFile)
      → ((f : RejectedFile) → removable f ≡ true)
      → ((prune_loop removable l (rejected_bytes l)).1 ≡ ok tt)
        × Retained (prune_loop removable l (rejected_bytes l)).0
  unfolding prune_loop rejected_bytes
  prune_loop-Retained [] h = (refl, record { entries = omega arith; bytes = omega arith })
  prune_loop-Retained (f ∷ rest) h =
      let less : (len f.body + rejected_bytes rest) - len f.body ≡ rejected_bytes rest =
        omega arith in
      elim (Bool-cases (
        ltb max_rejected_entries (length (f ∷ rest))
        || ltb max_rejected_bytes (len f.body + rejected_bytes rest))) [
          | inr o ↦ rw o (refl, record { entries = ground arith; bytes = ground arith })
          | inl o ↦ rw (o, h f, less) (prune_loop-Retained rest h)
        ]

-- No system call of the pruning fails.
pub record IsFaultless (x : Pruning) : Type 0 where
  pub lists : x.listable ≡ true
  pub informs : (f : RejectedFile) → x.has_info f ≡ true
  pub removes : (f : RejectedFile) → x.removable f ≡ true
  pub syncs : x.synced ≡ true

module _ (x : Pruning) where
  all_have_info : IsFaultless x → (l : List RejectedFile) → have_info x l ≡ true
  unfolding have_info
  all_have_info k [] = refl
  all_have_info k (f ∷ rest) = rw (k.informs f) (all_have_info k rest)

  all_synced : IsFaultless x → (removed : Bool) → sync_after x removed ≡ ok tt
  unfolding sync_after
  all_synced k false = refl
  all_synced k true = rw (k.syncs) refl

  -- Where no system call fails, pruning ends without an error, and within both limits; the outcomes that
  -- wait are untouched.
  pub prune-Retained :
      (box : Outbox)
      → IsFaultless x
      → ((prune_rejected_outcomes x box).1 ≡ ok tt)
        × Retained (prune_rejected_outcomes x box).0.rejected
        × ((prune_rejected_outcomes x box).0.pending ≡ box.pending)
  unfolding prune_rejected_outcomes
  prune-Retained box k =
      let (e, r) =
        subst
          (λ n.
            ((prune_loop x.removable (sort_rejected box.rejected) n).1 ≡ ok tt)
            × Retained (prune_loop x.removable (sort_rejected box.rejected) n).0)
          (rejected_bytes-sort box.rejected)
          (prune_loop-Retained x.removable (sort_rejected box.rejected) k.removes) in
      rw (k.lists, all_have_info k box.rejected, e) (all_synced k _, r, refl)

  -- Pruning, whatever fails, only drops files, and the oldest ones: what it drops and what it keeps are
  -- together the files that there were, and no file that is dropped is newer than a kept one.
  pub prune_keeps_newest :
      (box : Outbox)
      → (dropped : List RejectedFile) × Perm
          (dropped ++ (prune_rejected_outcomes x box).0.rejected)
          box.rejected
        × NoneNewer dropped (prune_rejected_outcomes x box).0.rejected
  unfolding prune_rejected_outcomes
  prune_keeps_newest box = elim (Bool-cases (x.listable && have_info x box.rejected)) [
    | inr o ↦ rw o ([], Perm.rfl, tt)
    | inl o ↦
        let (dropped, e, n) =
          prune_loop-suffix x.removable (sort_rejected box.rejected) (rejected_bytes box.rejected)
            (sort_rejected-Chronological box.rejected) in
        rw o (dropped, subst (λ l. Perm l box.rejected) e (sort_rejected-perm box.rejected), n)
  ]
