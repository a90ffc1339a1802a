-- ===== src/Outbox/Delivery.antt =====
-- What enqueueOutcome can leave in the outbox, and that a replay is harmless.
use Prim.Native.String.{len}
use connectorhost.Common.{
  ◌≡◌, refl, sym, ◌∙◌, ap, String, Bool, true, false, Option, none, some, arith, eq_iff, string_eq,
  ltb, ok, Option-cases, Bool-cases, inl, inr,
}
use connectorhost.Dict.{lookup, insert, lookup-insert, lookup-insert_self}
use connectorhost.Store.{WriteOutcome, written, failed, replaced_with_error}
use connectorhost.Outbox.{
  Wire, Outbox, max_body_bytes, ReadFault, readable, unreadable, enqueue_outcome, enqueue_body,
  enqueue_new, enqueue_marshalled, write_file, has_room, outcome_path, stamped,
}

module _ (w : Wire) where
  open w use {Message}

  -- The outbox after an outcome was offered: as it was, or with one more file.
  pub data Enqueued (box : Outbox) (event : Bool) (path : String) : Outbox → Type 0 where
    kept : Enqueued box event path box
    added :
        (body : String)
        → lookup path box.pending ≡ none
        → has_room w event body box.pending ≡ true
        → ltb max_body_bytes (len body) ≡ false
        → Enqueued box event path (record box { pending = insert path body box.pending })

  write-Enqueued :
      (box : Outbox) (event : Bool) (path body : String) (outcome : WriteOutcome)
      → lookup path box.pending ≡ none
      → has_room w event body box.pending ≡ true
      → ltb max_body_bytes (len body) ≡ false
      → Enqueued box event path (write_file w box path body outcome).0
  unfolding write_file
  write-Enqueued box event path body written e r s = added body e r s
  write-Enqueued box event path body failed e r s = kept
  write-Enqueued box event path body replaced_with_error e r s = added body e r s

  new-Enqueued :
      (box : Outbox) (event : Bool) (path body : String) (outcome : WriteOutcome)
      → lookup path box.pending ≡ none
      → ltb max_body_bytes (len body) ≡ false
      → Enqueued box event path (enqueue_new w box event path body outcome).0
  unfolding enqueue_new
  new-Enqueued box event path body outcome e s =
      elim (Bool-cases (has_room w event body box.pending)) [
        | inl r ↦ rw r (write-Enqueued box event path body outcome e r s)
        | inr r ↦ rw r kept
      ]

  body-Enqueued :
      (box : Outbox) (event : Bool) (path body : String) (outcome : WriteOutcome)
      → Enqueued box event path (enqueue_body w box event path body outcome).0
  unfolding enqueue_body
  body-Enqueued box event path body outcome = elim (Bool-cases (ltb max_body_bytes (len body))) [
    | inl s ↦ rw s kept
    | inr s ↦ elim (Option-cases (lookup path box.pending)) [
      | inl e ↦ rw (s, e) (new-Enqueued box event path body outcome e s)
      | inr (b, e) ↦ rw (s, e) kept
    ]
  ]

  marshalled-Enqueued :
      (box : Outbox) (event : Bool) (path : String) (marshalled : Option String) (fault : ReadFault)
      (outcome : WriteOutcome)
      → Enqueued box event path (enqueue_marshalled w box event path marshalled fault outcome).0
  unfolding enqueue_marshalled
  marshalled-Enqueued box event path none fault outcome = kept
  marshalled-Enqueued box event path (some body) readable outcome =
      body-Enqueued box event path body outcome
  marshalled-Enqueued box event path (some body) unreadable outcome = kept

  pub enqueue-Enqueued :
      (box : Outbox) (message : Message) (job_id token suffix : String) (fault : ReadFault)
      (outcome : WriteOutcome)
      → Enqueued box
          (w.is_event message)
          (outcome_path w job_id token suffix)
          (enqueue_outcome w box message job_id token suffix fault outcome).0
  unfolding enqueue_outcome
  enqueue-Enqueued box message job_id token suffix fault outcome =
      marshalled-Enqueued box (w.is_event message) (outcome_path w job_id token suffix)
        (w.message_json (stamped w message job_id token)) fault outcome

  Enqueued-keeps :
      (box : Outbox) (event : Bool) (path name body : String) (after : Outbox)
      → lookup name box.pending ≡ some body
      → Enqueued box event path after
      → lookup name after.pending ≡ some body
  Enqueued-keeps box event path name body _ e kept = e
  Enqueued-keeps box event path name body _ e (added other f r s) =
      ground (arith, lookup-insert path name other box.pending, eq_iff path name)

  -- Whatever fails, no outcome that waits on disk is lost or overwritten by another.
  pub enqueue_keeps :
      (box : Outbox) (message : Message) (job_id token suffix : String) (fault : ReadFault)
      (outcome : WriteOutcome) (name body : String)
      → lookup name box.pending ≡ some body
      → lookup name (enqueue_outcome w box message job_id token suffix fault outcome).0.pending
        ≡ some body
  enqueue_keeps box message job_id token suffix fault outcome name body e =
      Enqueued-keeps box _ _ name body _ e
        (enqueue-Enqueued box message job_id token suffix fault outcome)

  write-stored :
      (box : Outbox) (path body : String) (outcome : WriteOutcome)
      → (write_file w box path body outcome).1 ≡ ok tt
      → lookup path (write_file w box path body outcome).0.pending ≡ some body
  unfolding write_file
  write-stored box path body written e = lookup-insert_self path body box.pending
  write-stored box path body failed e = cc
  write-stored box path body replaced_with_error e = cc

  body-stored :
      (box : Outbox) (event : Bool) (path body : String) (outcome : WriteOutcome)
      → (enqueue_body w box event path body outcome).1 ≡ ok tt
      → (ltb max_body_bytes (len body) ≡ false)
        × (lookup path (enqueue_body w box event path body outcome).0.pending ≡ some body)
  unfolding enqueue_body enqueue_new
  body-stored box event path body outcome e = elim (Option-cases (lookup path box.pending)) [
    | inl f ↦ ground (arith, write-stored box path body outcome)
    | inr (b, f) ↦ ground (arith, eq_iff b body)
  ]

  marshalled-stored :
      (box : Outbox) (event : Bool) (path : String) (marshalled : Option String) (fault : ReadFault)
      (outcome : WriteOutcome)
      → (enqueue_marshalled w box event path marshalled fault outcome).1 ≡ ok tt
      → (body : String) × (marshalled ≡ some body)
        × (ltb max_body_bytes (len body) ≡ false)
        × (lookup path (enqueue_marshalled w box event path marshalled fault outcome).0.pending
            ≡ some body)
  unfolding enqueue_marshalled
  marshalled-stored box event path none fault outcome e = cc
  marshalled-stored box event path (some body) unreadable outcome e = ground arith
  marshalled-stored box event path (some body) readable outcome e =
      let (s, f) = body-stored box event path body outcome e in (body, refl, s, f)

  marshalled-replay :
      (box : Outbox) (event : Bool) (path body : String) (outcome : WriteOutcome)
      → ltb max_body_bytes (len body) ≡ false
      → lookup path box.pending ≡ some body
      → enqueue_marshalled w box event path (some body) readable outcome ≡ (box, ok tt)
  unfolding enqueue_marshalled enqueue_body
  marshalled-replay box event path body outcome s e = ground (arith, eq_iff body body)

  -- An outcome whose recording reports success is on disk, under the name of its job and attempt and as
  -- it was marshalled; recording it again, where the file can be read, reports success too and changes
  -- nothing, whatever a write would have done.
  pub enqueue_replay :
      (box : Outbox) (message : Message) (job_id token suffix : String) (fault : ReadFault)
      (outcome again : WriteOutcome)
      → (enqueue_outcome w box message job_id token suffix fault outcome).1 ≡ ok tt
      → let after = (enqueue_outcome w box message job_id token suffix fault outcome).0 in
        (lookup (outcome_path w job_id token suffix) after.pending
          ≡ w.message_json (stamped w message job_id token))
        × (enqueue_outcome w after message job_id token suffix readable again ≡ (after, ok tt))
  unfolding enqueue_outcome
  enqueue_replay box message job_id token suffix fault outcome again e =
      let (body, m, s, f) = marshalled-stored box _ _ _ fault outcome e in
      let event = w.is_event message in
      let path = outcome_path w job_id token suffix in
      let after =
        (enqueue_marshalled w box event path (w.message_json (stamped w message job_id token)) fault
          outcome).0 in
      (
        f ∙ sym m,
        ap (λ x. enqueue_marshalled w after event path x readable again) m
            ∙ marshalled-replay after event path body again s f,
      )
