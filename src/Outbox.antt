-- ===== src/Outbox.antt =====
-- outbox.go: the outcomes of jobs that wait on disk for the control plane. `outboxMu` makes each step
-- here one step.
pub mod Prune
pub mod Flush
pub mod Capacity
pub mod Delivery
pub mod Accounting
pub mod Draining
mod Tests
pub mod Retention
use Prim.Native.Nat.{Ordering}
use Prim.Native.String.{len, compare, ◌++◌}
use connectorhost.Common.{
  ℕ, ◌+◌, ◌*◌, String, Bool, true, false, ◌||◌, not, Option, none, some, List, [], ◌∷◌, leb, ltb,
  length, ◌==◌, string_eq, if◌then◌else◌, Result, ok, err, guard, external, rejected,
  output_too_large, conflicting_replay, queue_exhausted,
}
use connectorhost.Dict.{Dict, lookup, insert}
use connectorhost.Store.{WriteOutcome, written, failed, replaced_with_error}

-- What is used of the package connector/protocol and of the standard library here.
pub record Wire : Type 1 where
  -- `protocol.HostMessage`
  pub Message : Type 0
  -- the message with its fields `ID` and `Protocol` set
  pub stamp : String → Message → Message
  -- whether `ConnectorEvent` is set
  pub is_event : Message → Bool
  -- `json.Marshal`, `none` where it fails
  pub message_json : Message → Option String
  -- whether `protocol.DecodeHostMessage` accepts a body
  pub decodes : String → Bool
  -- the hexadecimal SHA-256 of a text
  pub sha256_hex : String → String
  -- `MaxHostConnectorClaims`
  pub max_host_connector_claims : ℕ

-- A file with the extension `.rejected`, with its time of modification.
pub record RejectedFile : Type 0 where
  pub name : String
  pub body : String
  pub modified : ℕ

-- The directory `outbox`: its files with the extension `.json` by name, and the rejected ones. Other
-- files are not looked at, and a directory that does not exist is an empty one.
pub record Outbox : Type 0 where
  pub pending : Dict String
  pub rejected : List RejectedFile

-- maxOutboxBytes, maxOutboxEntries, maxRejectedEntries, maxRejectedBytes, and the limit of one body
abbrev pub max_outbox_bytes : ℕ
max_outbox_bytes = 67108864

abbrev pub max_outbox_entries : ℕ
max_outbox_entries = 512

abbrev pub max_rejected_entries : ℕ
max_rejected_entries = 128

abbrev pub max_rejected_bytes : ℕ
max_rejected_bytes = 16777216

abbrev pub max_body_bytes : ℕ
max_body_bytes = 1114112

-- The sum of the sizes of the files that wait.
unfoldable pub pending_bytes : Dict String → ℕ
pending_bytes [] = 0
pending_bytes ((name, body) ∷ rest) = len body + pending_bytes rest

-- What the system calls before the write do: all is read, or one of them fails.
pub data ReadFault : Type 0 where
  readable unreadable : ReadFault

module _ (w : Wire) where
  open w use {Message}

  -- Room that is kept for completions: events may not use the last places. The limits that the source
  -- lowers are compared by raising the other side, as they may not be negative here.
  unfoldable pub reserved : Bool → ℕ
  reserved true = w.max_host_connector_claims
  reserved false = 0

  unfoldable pub has_room : Bool → String → Dict String → Bool
  unfolding reserved pending_bytes
  has_room event body pending = not (
      leb max_outbox_entries (length pending + reserved event)
      || ltb max_outbox_bytes (len body + pending_bytes pending + reserved event * max_body_bytes))

  unfoldable pub write_file : Outbox → String → String → WriteOutcome → Outbox × Result (Unit {0})
  write_file box path body written = (record box { pending = insert path body box.pending }, ok tt)
  write_file box path body failed = (box, err external)
  write_file box path body replaced_with_error =
      (record box { pending = insert path body box.pending }, err external)

  unfoldable pub enqueue_new :
      Outbox → Bool → String → String → WriteOutcome → Outbox × Result (Unit {0})
  unfolding has_room write_file
  enqueue_new box event path body outcome =
      if has_room event body box.pending
      then write_file box path body outcome
      else (box, err queue_exhausted)

  unfoldable pub enqueue_body :
      Outbox → Bool → String → String → WriteOutcome → Outbox × Result (Unit {0})
  unfolding enqueue_new
  enqueue_body box event path body outcome =
      if ltb max_body_bytes (len body)
      then (box, err output_too_large)
      else elim (lookup path box.pending) [
        | some existing ↦ (box, if existing == body then ok tt else err conflicting_replay)
        | none ↦ enqueue_new box event path body outcome
      ]

  abbrev pub outcome_id : String → String → String
  outcome_id job_id token = w.sha256_hex (job_id ++ "/" ++ token)

  -- The name of a file of the outbox, without its extension.
  abbrev pub outcome_path : String → String → String → String
  outcome_path job_id token suffix = outcome_id job_id token ++ "-" ++ suffix

  abbrev pub stamped : Message → String → String → Message
  stamped message job_id token = w.stamp (outcome_id job_id token) message

  unfoldable pub enqueue_marshalled :
      Outbox → Bool → String → Option String → ReadFault → WriteOutcome → Outbox × Result (Unit {0})
  unfolding enqueue_body
  enqueue_marshalled box event path none fault outcome = (box, err external)
  enqueue_marshalled box event path (some body) readable outcome =
      enqueue_body box event path body outcome
  enqueue_marshalled box event path (some body) unreadable outcome =
      (box, if ltb max_body_bytes (len body) then err output_too_large else err external)

  -- enqueueOutcome
  unfoldable pub enqueue_outcome :
      Outbox
      → Message
      → String
      → String
      → String
      → ReadFault
      → WriteOutcome
      → Outbox × Result (Unit {0})
  unfolding enqueue_marshalled
  enqueue_outcome box message job_id token suffix fault outcome =
      enqueue_marshalled box (w.is_event message) (outcome_path job_id token suffix)
        (w.message_json (stamped message job_id token)) fault outcome
