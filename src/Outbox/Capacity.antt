-- ===== src/Outbox/Capacity.antt =====
-- The limits of the outbox, and the places in it that are kept for completions.
use Prim.Native.String.{len}
use connectorhost.Common.{
  ℕ, suc, ◌+◌, ◌*◌, ◌≤◌, ◌<◌, ◌≡◌, refl, ap, ◌∙◌, String, Bool, true, false, none, some, [], ◌∷◌,
  arith, string_eq, length, ok, subst,
}
use connectorhost.Dict.{Dict, lookup, insert}
use connectorhost.Store.{WriteOutcome, written}
use connectorhost.Outbox.Delivery.{Enqueued, kept, added, enqueue-Enqueued}
use connectorhost.Outbox.{
  Wire, Outbox, pending_bytes, max_outbox_entries, max_outbox_bytes, max_body_bytes, ReadFault,
  readable, enqueue_outcome, enqueue_body, enqueue_marshalled, enqueue_new, write_file, has_room,
  reserved, outcome_path, stamped,
}

pending_bytes-insert :
    (path body : String) (m : Dict String)
    → lookup path m ≡ none
    → pending_bytes (insert path body m) ≡ len body + pending_bytes m
unfolding pending_bytes insert lookup
pending_bytes-insert path body [] e = refl
pending_bytes-insert path body ((j, b) ∷ m) e = ground (arith, pending_bytes-insert path body m)

length-insert_new :
    (path body : String) (m : Dict String)
    → lookup path m ≡ none
    → length (insert path body m) ≡ suc (length m)
unfolding insert lookup
length-insert_new path body [] e = refl
length-insert_new path body ((j, b) ∷ m) e = ground (arith, length-insert_new path body m)

-- The outbox holds at most as much as it may, less what is left of the places for completions when
-- `used` of `claims` are taken.
pub record Within (claims used : ℕ) (box : Outbox) : Type 0 where
  pub entries : length box.pending + claims ≤ max_outbox_entries + used
  pub bytes :
      pending_bytes box.pending + claims * max_body_bytes ≤ max_outbox_bytes + used * max_body_bytes

Within-insert :
    (claims used : ℕ) (box : Outbox) (path body : String)
    → lookup path box.pending ≡ none
    → suc (length box.pending) + claims ≤ max_outbox_entries + used
    → len body + pending_bytes box.pending + claims * max_body_bytes
      ≤ max_outbox_bytes + used * max_body_bytes
    → Within claims used (record box { pending = insert path body box.pending })
Within-insert claims used box path body e f g = record {
  entries = omega (arith, length-insert_new path body box.pending e, f);
  bytes = omega (arith, pending_bytes-insert path body box.pending e, g);
}

module _ (w : Wire) where
  open w use {Message}

  abbrev claims : ℕ
  claims = w.max_host_connector_claims

  event-Within :
      (used : ℕ) (box : Outbox) (path : String) (after : Outbox)
      → Within claims used box
      → Enqueued w box true path after
      → Within claims used after
  unfolding has_room reserved
  event-Within used box path _ k kept = k
  event-Within used box path _ k (added body e r s) =
      Within-insert claims used box path body e (ground arith) (ground arith)

  completion-Within :
      (used : ℕ) (box : Outbox) (path : String) (after : Outbox)
      → Within claims used box
      → Enqueued w box false path after
      → Within claims (used + 1) after
  completion-Within used box path _ k kept = record {
    entries = omega (arith, k.entries);
    bytes = omega (arith, k.bytes);
  }
  completion-Within used box path _ k (added body e r s) =
      Within-insert claims (used + 1) box path body e (ground (arith, k.entries))
        (ground (arith, k.bytes))

  -- The places that are kept for completions are not taken by events: recording an event, whatever
  -- fails, leaves the outbox within the limits of the events with the same number of places taken.
  pub event_keeps_reserve :
      (used : ℕ) (box : Outbox) (message : Message) (job_id token suffix : String)
      (fault : ReadFault) (outcome : WriteOutcome)
      → w.is_event message ≡ true
      → Within claims used box
      → Within claims used (enqueue_outcome w box message job_id token suffix fault outcome).0
  event_keeps_reserve used box message job_id token suffix fault outcome e k =
      event-Within used box _ _ k (
        subst
          (λ b.
            Enqueued w box b (outcome_path w job_id token suffix)
              (enqueue_outcome w box message job_id token suffix fault outcome).0)
          e (enqueue-Enqueued w box message job_id token suffix fault outcome))

  has_room_lem :
      (used : ℕ) (box : Outbox) (body : String)
      → used < claims
      → len body ≤ max_body_bytes
      → Within claims used box
      → has_room w false body box.pending ≡ true
  unfolding has_room reserved
  has_room_lem used box body u s k = ground (arith, k.entries, k.bytes)

  new_file :
      (box : Outbox) (path body : String)
      → len body ≤ max_body_bytes
      → lookup path box.pending ≡ none
      → has_room w false body box.pending ≡ true
      → enqueue_marshalled w box false path (some body) readable written
        ≡ (record box { pending = insert path body box.pending }, ok tt)
  unfolding enqueue_marshalled enqueue_body enqueue_new write_file
  new_file box path body s e r = ground arith

  -- A completion always finds room: as long as fewer completions than MaxHostConnectorClaims were
  -- recorded over the limits of the events, one that marshals within the limit and is not recorded yet
  -- is recorded when the file system does not fail, and takes at most one of the kept places.
  pub completion_finds_room :
      (used : ℕ) (box : Outbox) (message : Message) (job_id token suffix body : String)
      → w.is_event message ≡ false
      → used < claims
      → Within claims used box
      → w.message_json (stamped w message job_id token) ≡ some body
      → len body ≤ max_body_bytes
      → lookup (outcome_path w job_id token suffix) box.pending ≡ none
      → (enqueue_outcome w box message job_id token suffix readable written ≡ (
        record box { pending = insert (outcome_path w job_id token suffix) body box.pending },
        ok tt,
      ))
        × Within claims
            (used + 1)
            (enqueue_outcome w box message job_id token suffix readable written).0
  unfolding enqueue_outcome
  completion_finds_room used box message job_id token suffix body e u k m s f = (
    ap
          (λ b.
            enqueue_marshalled w box b (outcome_path w job_id token suffix)
              (w.message_json (stamped w message job_id token)) readable written)
          e
        ∙ ap
            (λ x.
              enqueue_marshalled w box false (outcome_path w job_id token suffix) x readable
                written)
            m
        ∙ new_file box (outcome_path w job_id token suffix) body s f
            (has_room_lem used box body u s k),
    completion-Within used box _ _ k (
        subst
          (λ b.
            Enqueued w box b (outcome_path w job_id token suffix)
              (enqueue_outcome w box message job_id token suffix readable written).0)
          e (enqueue-Enqueued w box message job_id token suffix readable written)),
  )

  Enqueued-bounded :
      (box : Outbox) (event : Bool) (path : String) (after : Outbox)
      → length box.pending ≤ max_outbox_entries
      → pending_bytes box.pending ≤ max_outbox_bytes
      → Enqueued w box event path after
      → (length after.pending ≤ max_outbox_entries)
        × (pending_bytes after.pending ≤ max_outbox_bytes)
  unfolding has_room
  Enqueued-bounded box event path _ h k kept = (h, k)
  Enqueued-bounded box event path _ h k (added body e r s) = (
    ground (arith, length-insert_new path body box.pending e),
    ground (arith, pending_bytes-insert path body box.pending e),
  )

  -- The directory never holds more than its limits: recording an outcome of any kind, whatever fails,
  -- leaves at most maxOutboxEntries files of at most maxOutboxBytes together.
  pub enqueue_bounded :
      (box : Outbox) (message : Message) (job_id token suffix : String) (fault : ReadFault)
      (outcome : WriteOutcome)
      → length box.pending ≤ max_outbox_entries
      → pending_bytes box.pending ≤ max_outbox_bytes
      → let after = (enqueue_outcome w box message job_id token suffix fault outcome).0 in
        (length after.pending ≤ max_outbox_entries)
        × (pending_bytes after.pending ≤ max_outbox_bytes)
  enqueue_bounded box message job_id token suffix fault outcome h k =
      Enqueued-bounded box _ _ _ h k
        (enqueue-Enqueued w box message job_id token suffix fault outcome)
