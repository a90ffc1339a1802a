-- ===== src/Outbox/Flush.antt =====
-- flushConnectorOutcomes of outbox.go: the outcomes are offered to the control plane in the order of
-- their names. The lock is dropped during a request; what is offered is the list read at the start.
use connectorhost.Common.{
  ℕ, String, Bool, ◌||◌, Option, none, some, List, [], ◌∷◌, ◌==◌, nat_eq, string_eq, if◌then◌else◌,
  Result, ok, err, external,
}
use Prim.Native.String.{◌++◌}
use connectorhost.Dict.{lookup, delete}
use connectorhost.Outbox.{Outbox, RejectedFile, Wire}
use connectorhost.Outbox.Prune.{Pruning, prune_rejected_outcomes}

-- How `ack` ends: the outcome is recorded by the server, a `ControlError` with its code, or another
-- error.
pub data AckOutcome : Type 0 where
  acknowledged : AckOutcome
  refused : ℕ → AckOutcome
  unreachable : AckOutcome

unfoldable pub is_final_refusal : ℕ → Bool
is_final_refusal code = code == 400 || code == 403 || code == 404 || code == 409

-- What the surroundings do during a flush.
pub record Surroundings : Type 0 where
  -- the answer of the server to a body
  pub ack : String → AckOutcome
  -- the time at which a file is rejected, as its time of modification
  pub modified : String → ℕ
  -- for which names a file can be removed or renamed, and for which the directory is then synced
  pub movable : String → Bool
  pub synced : String → Bool
  pub pruning : Pruning

module _ (e : Surroundings) where
  -- `os.Rename(path, path+".rejected")`; a rejected file of that name is replaced.
  unfoldable pub without : String → List RejectedFile → List RejectedFile
  without name [] = []
  without name (f ∷ rest) =
      let later = without name rest in if f.name == name then later else f ∷ later

  abbrev pub rejected_name : String → String
  rejected_name name = name ++ ".json.rejected"

  unfoldable pub reject : String → String → Outbox → Outbox
  unfolding without
  reject name body box = record {
    pending = delete name box.pending;
    rejected =
        record { name = rejected_name name; body = body; modified = e.modified name }
        ∷ without (rejected_name name) box.rejected;
  }

  unfoldable pub synced_after : String → Outbox × Result (Unit {0}) → Outbox × Result (Unit {0})
  synced_after name (box, err x) = (box, err x)
  synced_after name (box, ok _) = (box, if e.synced name then ok tt else err external)

  unfoldable pub settle_refused : String → String → Outbox → Outbox × Result (Unit {0})
  unfolding synced_after reject
  settle_refused name body box =
      if e.movable name
      then synced_after name (prune_rejected_outcomes e.pruning (reject name body box))
      else (box, err external)

  unfoldable pub settle_acknowledged : String → Outbox → Outbox × Result (Unit {0})
  unfolding synced_after
  settle_acknowledged name box =
      if e.movable name
      then synced_after name (record box { pending = delete name box.pending }, ok tt)
      else (box, err external)

  unfoldable pub settle : AckOutcome → String → String → Outbox → Outbox × Result (Unit {0})
  unfolding settle_refused settle_acknowledged
  settle acknowledged name body box = settle_acknowledged name box
  settle unreachable name body box = (box, err external)
  settle (refused code) name body box =
      if is_final_refusal code then settle_refused name body box else (box, err external)

-- `if err != nil { return err }` between two steps
unfoldable pub and_then :
    Outbox × Result (Unit {0}) → (Outbox → Outbox × Result (Unit {0})) → Outbox × Result (Unit {0})
and_then (box, err x) next = (box, err x)
and_then (box, ok _) next = next box

module _ (w : Wire) (e : Surroundings) where
  -- One round of the loop: the file is read, decoded and offered.
  unfoldable pub flush_entry : String → Option String → Outbox → Outbox × Result (Unit {0})
  unfolding settle
  flush_entry name none box = (box, err external)
  flush_entry name (some body) box =
      if w.decodes body then settle e (e.ack body) name body box else (box, err external)

  unfoldable pub flush_loop : List String → Outbox → Outbox × Result (Unit {0})
  unfolding flush_entry and_then
  flush_loop [] box = (box, ok tt)
  flush_loop (name ∷ rest) box =
      and_then (flush_entry name (lookup name box.pending) box) (flush_loop rest)

  -- flushConnectorOutcomes, over the names that `os.ReadDir` lists
  unfoldable pub flush_connector_outcomes : List String → Outbox → Outbox × Result (Unit {0})
  unfolding flush_loop and_then
  flush_connector_outcomes names box =
      and_then (prune_rejected_outcomes e.pruning box) (flush_loop names)
