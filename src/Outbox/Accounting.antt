-- ===== src/Outbox/Accounting.antt =====
-- No outcome is lost by a flush: what leaves the outbox was taken or finally refused by the server.
use connectorhost.Common.{
  ◌&&◌, ◌≡◌, refl, ap, ◌∙◌, ◌⊎◌, inl, inr, String, Bool, true, false, Option, none, some, List, [],
  ◌∷◌, arith, eq_iff, ◌==◌, string_eq, Result, ok, err, Bool-cases, subst,
}
use connectorhost.Dict.{lookup, delete, lookup-delete}
use connectorhost.Outbox.{Wire, Outbox}
use connectorhost.Outbox.Prune.{have_info, prune_rejected_outcomes}
use connectorhost.Outbox.Flush.{
  Surroundings, AckOutcome, acknowledged, refused, unreachable, is_final_refusal, settle,
  settle_refused, settle_acknowledged, synced_after, reject, flush_entry, flush_loop, and_then,
  flush_connector_outcomes,
}

-- Whether the server is done with an outcome that it answers so.
unfoldable pub is_final : AckOutcome → Bool
is_final acknowledged = true
is_final (refused code) = is_final_refusal code
is_final unreachable = false

module _ (w : Wire) (e : Surroundings) where
  synced_after-box :
      (name : String) (x : Outbox × Result (Unit {0})) → (synced_after e name x).0 ≡ x.0
  unfolding synced_after
  synced_after-box name (box, err f) = refl
  synced_after-box name (box, ok t) = refl

  prune-pending : (box : Outbox) → (prune_rejected_outcomes e.pruning box).0.pending ≡ box.pending
  unfolding prune_rejected_outcomes
  prune-pending box = elim (Bool-cases (e.pruning.listable && have_info e.pruning box.rejected)) [
    | inl o ↦ rw o refl
    | inr o ↦ rw o refl
  ]

  refused-pending :
      (name body : String) (box : Outbox)
      → ((settle_refused e name body box).0.pending ≡ box.pending)
        ⊎ ((settle_refused e name body box).0.pending ≡ delete name box.pending)
  unfolding settle_refused reject
  refused-pending name body box = elim (Bool-cases (e.movable name)) [
    | inl m ↦ inr (
        rw m (
          ap (λ (x : Outbox). x.pending) (synced_after-box name _)
          ∙ prune-pending (reject e name body box)))
    | inr m ↦ inl (rw m refl)
  ]

  acknowledged-pending :
      (name : String) (box : Outbox)
      → ((settle_acknowledged e name box).0.pending ≡ box.pending)
        ⊎ ((settle_acknowledged e name box).0.pending ≡ delete name box.pending)
  unfolding settle_acknowledged synced_after
  acknowledged-pending name box = elim (Bool-cases (e.movable name)) [
    | inl m ↦ inr (rw m refl)
    | inr m ↦ inl (rw m refl)
  ]

  -- After one file was offered, the files that wait are as they were, or without this one.
  pub data Offered (name : String) (final : Bool) (box : Outbox) (after : Outbox) : Type 0 where
    stays : after.pending ≡ box.pending → Offered name final box after
    leaves : final ≡ true → after.pending ≡ delete name box.pending → Offered name final box after

  either :
      (name : String) (final : Bool) (box after : Outbox)
      → final ≡ true
      → (after.pending ≡ box.pending) ⊎ (after.pending ≡ delete name box.pending)
      → Offered name final box after
  either name final box after f (inl s) = stays s
  either name final box after f (inr s) = leaves f s

  settle-Offered :
      (a : AckOutcome) (name body : String) (box : Outbox)
      → Offered name (is_final a) box (settle e a name body box).0
  unfolding settle is_final
  settle-Offered acknowledged name body box =
      either name true box _ refl (acknowledged-pending name box)
  settle-Offered unreachable name body box = stays refl
  settle-Offered (refused code) name body box = elim (Bool-cases (is_final_refusal code)) [
    | inl f ↦ rw f (either name true box _ refl (refused-pending name body box))
    | inr f ↦ rw f (stays refl)
  ]

  -- What has become of an outcome: it waits as it was, or the server is done with it.
  abbrev pub Accounted : String → String → Outbox → Type 0
  Accounted name body box = (lookup name box.pending ≡ some body) ⊎ (is_final (e.ack body) ≡ true)

  Offered-Accounted :
      (name body at given : String) (box after : Outbox)
      → lookup at box.pending ≡ some given
      → lookup name box.pending ≡ some body
      → Offered at (is_final (e.ack given)) box after
      → Accounted name body after
  Offered-Accounted name body at given box after f g (stays s) = inl (rw s g)
  Offered-Accounted name body at given box after f g (leaves t s) = elim (Bool-cases (at == name)) [
    | inl q ↦ inr (subst (λ b. is_final (e.ack b) ≡ true) (same q) t)
    | inr q ↦ inl (rw s (ground (arith, lookup-delete at name box.pending, eq_iff at name)))
  ]
    where
      same : at == name ≡ true → given ≡ body
      same q = ground (arith, eq_iff at name)

  entry-Accounted :
      (name body at : String) (found : Option String) (box : Outbox)
      → lookup at box.pending ≡ found
      → lookup name box.pending ≡ some body
      → Accounted name body (flush_entry w e at found box).0
  unfolding flush_entry
  entry-Accounted name body at none box f g = inl g
  entry-Accounted name body at (some given) box f g = elim (Bool-cases (w.decodes given)) [
    | inl d ↦
        rw d (
          Offered-Accounted name body at given box _ f g
            (settle-Offered (e.ack given) at given box))
    | inr d ↦ rw d (inl g)
  ]

  and_then-Accounted :
      (x : Outbox × Result (Unit {0})) (next : Outbox → Outbox × Result (Unit {0}))
      (name body : String)
      → Accounted name body x.0
      → ((box : Outbox) → Accounted name body box → Accounted name body (next box).0)
      → Accounted name body (and_then x next).0
  unfolding and_then
  and_then-Accounted (box, err x) next name body a h = a
  and_then-Accounted (box, ok x) next name body a h = h box a

  loop-Accounted :
      (names : List String) (name body : String) (box : Outbox)
      → Accounted name body box
      → Accounted name body (flush_loop w e names box).0
  unfolding flush_loop
  loop-Accounted [] name body box a = a
  loop-Accounted (at ∷ names) name body box (inr t) = inr t
  loop-Accounted (at ∷ names) name body box (inl g) =
      and_then-Accounted (flush_entry w e at (lookup at box.pending) box) (flush_loop w e names)
        name body (entry-Accounted name body at (lookup at box.pending) box refl g)
        (loop-Accounted names name body)

  -- After a flush, failed or not, over any list of names, every outcome that waited still waits as it
  -- was, unless the server has acknowledged it or refused it with one of the codes 400, 403, 404 and
  -- 409.
  pub flush_accounts :
      (names : List String) (box : Outbox) (name body : String)
      → lookup name box.pending ≡ some body
      → Accounted name body (flush_connector_outcomes w e names box).0
  unfolding flush_connector_outcomes
  flush_accounts names box name body g =
      and_then-Accounted (prune_rejected_outcomes e.pruning box) (flush_loop w e names) name body
        (inl (rw (prune-pending box) g)) (loop-Accounted names name body)
