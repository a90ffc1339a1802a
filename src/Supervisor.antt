-- ===== src/Supervisor.antt =====
-- The jobs of the child processes in supervisor.go. The process itself is not modelled: a child is
-- what the Supervisor records of it, and the write of a message to it ends as the system decides.
pub mod Dispatching
pub mod Lifecycle
pub mod Activation
pub mod Watching
mod Tests
use connectorhost.Common.{
  ℕ, ◌+◌, String, Bool, true, false, not, Option, none, some, List, [], ◌∷◌, leb, length,
  if◌then◌else◌, is_some, Result, ok, err, attempt_limit, offline, not_ready, duplicate_attempt,
}
use connectorhost.Dict.{Dict, lookup, insert, delete}

-- The parts of `protocol.JobRequest` that the Supervisor reads
pub record Job : Type 0 where
  pub job_id : String
  pub attempt_token : String

-- childProcess: what the child has said of itself (`ready`, the text of an error left out), whether it
-- is to stop, and its jobs by their attempt token
pub record Child (M : Type 0) : Type 0 where
  pub manifest : M
  pub ready : Bool
  pub stopping : Bool
  pub active : Dict Job

-- Supervisor: its map of children
abbrev pub Children : Type 0 → Type 0
Children M = Dict (Child M)

module _ {M : Type 0} where
  -- ActiveCount
  unfoldable pub active_count : Children M → ℕ
  active_count [] = 0
  active_count ((id, child) ∷ rest) = length child.active + active_count rest

  -- removeJob
  unfoldable pub remove_job : String → Child M → Child M
  remove_job token child = record child { active = delete token child.active }

  unfoldable pub add_job : Job → Child M → Child M
  add_job job child = record child { active = insert job.attempt_token job child.active }

  -- The end of Dispatch: the job is recorded, and taken back if it cannot be written to the child.
  unfoldable pub send_job :
      Children M → String → Job → Child M → Result (Unit {0}) → Children M × Result (Unit {0})
  unfolding add_job remove_job
  send_job children id job child (ok _) = (insert id (add_job job child) children, ok tt)
  send_job children id job child (err e) =
      (insert id (remove_job job.attempt_token (add_job job child)) children, err e)

  unfoldable pub dispatch_to :
      Children M
      → String
      → Job
      → Option (Child M)
      → Result (Unit {0})
      → Children M × Result (Unit {0})
  unfolding send_job
  dispatch_to children id job none write = (children, err (offline id))
  dispatch_to children id job (some child) write =
      if not child.ready
      then (children, err (not_ready id))
      else if is_some (lookup job.attempt_token child.active)
      then (children, err duplicate_attempt)
      else send_job children id job child write

  -- Dispatch; `max_active_attempts` is `protocol.MaxActiveAttempts`.
  unfoldable pub dispatch :
      ℕ → Children M → String → Job → Result (Unit {0}) → Children M × Result (Unit {0})
  unfolding dispatch_to active_count
  dispatch max_active_attempts children id job write =
      if leb max_active_attempts (active_count children)
      then (children, err attempt_limit)
      else dispatch_to children id job (lookup id children) write
