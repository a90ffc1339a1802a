-- ===== src/Outbox/Tests.antt =====
-- Tests of the outbox, and its theorems at concrete inputs.
use Prim.Native.String.{◌++◌}
use mathlib.Core.List.{Perm}
use connectorhost.Common.{
  ◌≢◌, eq_iff, ◌≤◌, ◌≡◌, refl, String, Bool, true, false, some, List, [], ◌∷◌, ◌++◌ as append,
  arith, length, ok, ◌==◌, string_eq,
}
use connectorhost.Dict.{lookup, insert}
use connectorhost.Store.{written, failed}
use connectorhost.Outbox.{
  Wire, Outbox, RejectedFile, readable, enqueue_outcome, enqueue_marshalled, enqueue_body,
  enqueue_new, write_file, has_room, reserved, pending_bytes, max_outbox_entries, max_outbox_bytes,
  outcome_path,
}
use connectorhost.Outbox.Prune.{Pruning, prune_rejected_outcomes}
use connectorhost.Outbox.Flush.{
  Surroundings, acknowledged, refused, flush_connector_outcomes, is_final_refusal,
}
use connectorhost.Outbox.Capacity.{
  Within, event_keeps_reserve, completion_finds_room, enqueue_bounded,
}
use connectorhost.Outbox.Delivery.{enqueue_keeps, enqueue_replay}
use connectorhost.Outbox.Retention.{
  IsFaultless, Retained, NoneNewer, prune-Retained, prune_keeps_newest,
}
use connectorhost.Outbox.Accounting.{Accounted, is_final, flush_accounts}
use connectorhost.Outbox.Draining.{Working, NoneOf, flush_drains}

-- Messages are an event or not, with a text.
abbrev plain : Wire
plain = record {
  Message = Bool × String;
  stamp = λ id m. (m.0, id ++ m.1);
  is_event = λ m. m.0;
  message_json = λ m. some m.1;
  decodes = λ s. true;
  sha256_hex = λ s. s;
  max_host_connector_claims = 8;
}

abbrev full_box : Outbox
full_box = record {
  pending = ("j/t-completion", "j/tdone") ∷ ("k/u-completion", "k/ulost") ∷ [];
  rejected = [];
}

abbrev empty_box : Outbox
empty_box = record { pending = []; rejected = [] }

-- A pruning in which no system call fails
abbrev smooth : Pruning
smooth = record { listable = true; has_info = λ f. true; removable = λ f. true; synced = true }

smooth-IsFaultless : IsFaultless smooth
smooth-IsFaultless = record { lists = refl; informs = λ f. refl; removes = λ f. refl; syncs = refl }

-- The server refuses what it does not know with the code 404, and takes the rest.
abbrev server : Surroundings
server = record {
  ack = λ body. elim (body == "k/ulost") [ true ↦ refused 404 | false ↦ acknowledged ];
  modified = λ name. 9;
  movable = λ name. true;
  synced = λ name. true;
  pruning = smooth;
}

server-Working : Working plain server
server-Working = record {
  moves = λ n. refl;
  syncs = λ n. refl;
  prunes = smooth-IsFaultless;
  answers = λ body d. unfold is_final is_final_refusal in ground arith;
}

empty-Within : Within 8 0 empty_box
unfolding pending_bytes
empty-Within = record { entries = omega arith; bytes = omega arith }

enqueue_keeps_example :
    lookup "j/t-completion"
      (enqueue_outcome plain full_box
        (false, "other")
        "j"
        "t"
        "completion"
        readable
        written).0.pending
    ≡ some "j/tdone"
unfolding lookup
enqueue_keeps_example =
    enqueue_keeps plain full_box (false, "other") "j" "t" "completion" readable written
      "j/t-completion" "j/tdone" refl

enqueue_replay_example :
    let after =
      (enqueue_outcome plain empty_box (false, "done") "j" "t" "completion" readable written).0 in
    (lookup (outcome_path plain "j" "t" "completion") after.pending ≡ some "j/tdone")
    × (enqueue_outcome plain after (false, "done") "j" "t" "completion" readable failed
        ≡ (after, ok tt))
unfolding enqueue_outcome enqueue_marshalled enqueue_body enqueue_new has_room reserved write_file
    lookup pending_bytes
enqueue_replay_example =
    enqueue_replay plain empty_box (false, "done") "j" "t" "completion" readable written failed refl

event_keeps_reserve_example :
    Within 8 0 (enqueue_outcome plain empty_box (true, "line") "j" "t" "1" readable written).0
event_keeps_reserve_example =
    event_keeps_reserve plain 0 empty_box (true, "line") "j" "t" "1" readable written refl
      empty-Within

completion_finds_room_example :
    (enqueue_outcome plain empty_box (false, "done") "j" "t" "completion" readable written
      ≡ (record empty_box { pending = insert "j/t-completion" "j/tdone" [] }, ok tt))
    × Within 8 1
        (enqueue_outcome plain empty_box (false, "done") "j" "t" "completion" readable written).0
unfolding lookup
completion_finds_room_example =
    completion_finds_room plain 0 empty_box (false, "done") "j" "t" "completion" "j/tdone" refl
      (omega arith) empty-Within refl (omega arith) refl

enqueue_bounded_example :
    let after = (enqueue_outcome plain full_box (true, "line") "j" "t" "1" readable written).0 in
    (length after.pending ≤ max_outbox_entries) × (pending_bytes after.pending ≤ max_outbox_bytes)
unfolding pending_bytes
enqueue_bounded_example =
    enqueue_bounded plain full_box (true, "line") "j" "t" "1" readable written (omega arith)
      (omega arith)

abbrev old_file : RejectedFile
old_file = record { name = "a.json.rejected"; body = "x"; modified = 3 }

abbrev new_file : RejectedFile
new_file = record { name = "b.json.rejected"; body = "y"; modified = 5 }

abbrev two_rejected : Outbox
two_rejected = record { pending = []; rejected = new_file ∷ old_file ∷ [] }

prune-Retained_example :
    ((prune_rejected_outcomes smooth two_rejected).1 ≡ ok tt)
    × Retained (prune_rejected_outcomes smooth two_rejected).0.rejected
    × ((prune_rejected_outcomes smooth two_rejected).0.pending ≡ [])
prune-Retained_example = prune-Retained smooth two_rejected smooth-IsFaultless

prune_keeps_newest_example :
    (dropped : List RejectedFile) × Perm
      (append dropped (prune_rejected_outcomes smooth two_rejected).0.rejected)
      (new_file ∷ old_file ∷ [])
    × NoneNewer dropped (prune_rejected_outcomes smooth two_rejected).0.rejected
prune_keeps_newest_example = prune_keeps_newest smooth two_rejected

flush_accounts_example :
    Accounted plain server "k/u-completion" "k/ulost"
      (flush_connector_outcomes plain server ("j/t-completion" ∷ "k/u-completion" ∷ []) full_box).0
unfolding lookup
flush_accounts_example =
    flush_accounts plain server ("j/t-completion" ∷ "k/u-completion" ∷ []) full_box "k/u-completion"
      "k/ulost" refl

flush_drains_example :
    let done =
      flush_connector_outcomes plain server ("j/t-completion" ∷ "k/u-completion" ∷ []) full_box in
    (done.1 ≡ ok tt) × NoneOf ("j/t-completion" ∷ "k/u-completion" ∷ []) done.0.pending
unfolding lookup
flush_drains_example =
    flush_drains plain server server-Working ("j/t-completion" ∷ "k/u-completion" ∷ []) full_box
      (λ name body e. refl) (("j/tdone", refl), (different, tt), (("k/ulost", refl), tt, tt))
  where
    different : ◌≢◌ {A = String} "j/t-completion" "k/u-completion"
    different = ground (arith, eq_iff "j/t-completion" "k/u-completion")
