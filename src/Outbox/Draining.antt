-- ===== src/Outbox/Draining.antt =====
-- A flush empties the outbox when the server is done with all of it and no system call fails.
use connectorhost.Common.{
  ◌≡◌, refl, sym, ap, ◌∙◌, ◌≢◌, String, true, none, some, List, [], ◌∷◌, All, arith, Result, ok,
  err, subst,
}
use connectorhost.Dict.{Dict, lookup, delete, lookup-delete, lookup-delete_self, lookup-delete_ne}
use connectorhost.Outbox.{Wire, Outbox}
use connectorhost.Outbox.Prune.{prune_rejected_outcomes}
use connectorhost.Outbox.Retention.{IsFaultless, prune-Retained}
use connectorhost.Outbox.Accounting.{is_final}
use connectorhost.Outbox.Flush.{
  Surroundings, AckOutcome, acknowledged, refused, unreachable, settle, and_then, settle_refused,
  settle_acknowledged, synced_after, reject, flush_entry, flush_loop, flush_connector_outcomes,
}

-- The names are different ones, and files wait under all of them.
abbrev pub Listed : List String → Dict String → Type 0
Listed [] pending = Unit
Listed (name ∷ names) pending =
    ((body : String) × (lookup name pending ≡ some body))
    × All (λ n. name ≢ n) names
    × Listed names pending

abbrev pub NoneOf : List String → Dict String → Type 0
NoneOf names pending = All (λ n. lookup n pending ≡ none) names

Listed-delete :
    (name : String) (names : List String) (pending : Dict String)
    → All (λ n. name ≢ n) names
    → Listed names pending
    → Listed names (delete name pending)
Listed-delete name [] pending a l = tt
Listed-delete name (n ∷ names) pending a l =
    let (body, e) = l.0 in
    ((body, lookup-delete_ne name n pending a.0 ∙ e), l.1, Listed-delete name names pending a.1 l.2)

-- No system call fails, the server is done with every outcome that it is offered, and it can be
-- offered whatever decodes.
pub record Working (w : Wire) (e : Surroundings) : Type 0 where
  pub moves : (name : String) → e.movable name ≡ true
  pub syncs : (name : String) → e.synced name ≡ true
  pub prunes : IsFaultless e.pruning
  pub answers : (body : String) → w.decodes body ≡ true → is_final (e.ack body) ≡ true

-- A step that ends well and leaves these files.
abbrev Leaves : Dict String → Outbox × Result (Unit {0}) → Type 0
Leaves pending x = (x.1 ≡ ok tt) × (x.0.pending ≡ pending)

module _ (w : Wire) (e : Surroundings) (k : Working w e) where
  synced-Leaves :
      (name : String) (pending : Dict String) (x : Outbox × Result (Unit {0}))
      → Leaves pending x
      → Leaves pending (synced_after e name x)
  unfolding synced_after
  synced-Leaves name pending (box, err f) h = h
  synced-Leaves name pending (box, ok t) h = (rw (k.syncs name) refl, h.1)

  settle-Leaves :
      (a : AckOutcome) (name body : String) (box : Outbox)
      → is_final a ≡ true
      → Leaves (delete name box.pending) (settle e a name body box)
  unfolding settle settle_acknowledged settle_refused is_final reject
  settle-Leaves acknowledged name body box f = rw (k.moves name) (
      synced-Leaves name (delete name box.pending)
        (record box { pending = delete name box.pending }, ok tt) (refl, refl))
  settle-Leaves unreachable name body box f = cc
  settle-Leaves (refused code) name body box f =
      let (done, kept, same) = prune-Retained e.pruning (reject e name body box) k.prunes in
      rw (f, k.moves name)
        (synced-Leaves name (delete name box.pending)
          (prune_rejected_outcomes e.pruning (reject e name body box)) (done, same))

  entry-Leaves :
      (name body : String) (box : Outbox)
      → w.decodes body ≡ true
      → Leaves (delete name box.pending) (flush_entry w e name (some body) box)
  unfolding flush_entry
  entry-Leaves name body box d = rw d (settle-Leaves (e.ack body) name body box (k.answers body d))

  -- Every file that waits can be decoded.
  abbrev pub Decodable : Dict String → Type 0
  Decodable pending = (name body : String) → lookup name pending ≡ some body → w.decodes body ≡ true

  Decodable-delete :
      (name : String) (pending : Dict String) → Decodable pending → Decodable (delete name pending)
  Decodable-delete at pending d name body f =
      d name body (ground (arith, lookup-delete at name pending, f))

  Drained : (Dict String) → List String → Outbox × Result (Unit {0}) → Type 0
  Drained pending names x =
      (x.1 ≡ ok tt)
      × NoneOf names x.0.pending
      × ((n : String) → lookup n pending ≡ none → lookup n x.0.pending ≡ none)

  and_then-Drained :
      (rest : List String) (pending : Dict String) (x : Outbox × Result (Unit {0}))
      (next : Outbox → Outbox × Result (Unit {0}))
      → Leaves pending x
      → ((box : Outbox) → box.pending ≡ pending → Drained pending rest (next box))
      → Drained pending rest (and_then x next)
  unfolding and_then
  and_then-Drained rest pending (box, err f) next l h = absurd (cc (l.0))
  and_then-Drained rest pending (box, ok t) next l h = h box l.1

  loop-Drained :
      (names : List String) (pending : Dict String) (box : Outbox)
      → box.pending ≡ pending
      → Decodable pending
      → Listed names pending
      → Drained pending names (flush_loop w e names box)
  unfolding flush_loop Drained
  loop-Drained [] pending box s d l = (refl, tt, λ n h. rw s h)
  loop-Drained (name ∷ names) pending box s d l =
      let (body, f) = l.0 in
      let left = delete name pending in
      let first : Leaves left (flush_entry w e name (lookup name box.pending) box) =
        subst (λ o. Leaves left (flush_entry w e name o box)) (sym (ap (lookup name) s ∙ f))
          (subst (λ m. Leaves (delete name m) (flush_entry w e name (some body) box)) s
            (entry-Leaves name body box (d name body f))) in
      let (done, gone, stay) =
        and_then-Drained names left _ (flush_loop w e names) first (λ after q.
          loop-Drained names left after q (Decodable-delete name pending d)
            (Listed-delete name names pending l.1 l.2)) in
      (
        done,
        (stay name (lookup-delete_self name pending), gone),
        λ n h. stay n (ground (arith, lookup-delete name n pending, h)),
      )

  -- A flush empties the outbox. Where no system call fails, every file decodes, the server is done
  -- with all that it is offered, and the names are those of files that wait, the flush reports success
  -- and no file waits under any of the names.
  pub flush_drains :
      (names : List String) (box : Outbox)
      → Decodable box.pending
      → Listed names box.pending
      → ((flush_connector_outcomes w e names box).1 ≡ ok tt)
        × NoneOf names (flush_connector_outcomes w e names box).0.pending
  unfolding flush_connector_outcomes Drained
  flush_drains names box d l =
      let (done, kept, same) = prune-Retained e.pruning box k.prunes in
      let (good, gone, stay) =
        and_then-Drained names box.pending (prune_rejected_outcomes e.pruning box)
          (flush_loop w e names) (done, same)
          (λ after q. loop-Drained names box.pending after q d l) in
      (good, gone)
