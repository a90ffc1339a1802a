-- ===== src/Supervisor/Tests.antt =====
-- Tests of the jobs of the children, and the theorems on them at concrete inputs.
use connectorhost.Common.{
  ◌≤◌, ◌≡◌, refl, String, List, Result, true, false, [], ◌∷◌, ok, err, external,
}
use connectorhost.Dict.{lookup, insert, delete}
use connectorhost.Supervisor.{Job, Child, Children, active_count, dispatch}
use connectorhost.Supervisor.Watching.{Message, event, completion, watch_child}
use connectorhost.Supervisor.Watching.Reported.{IsKeyed, reported, watch_child_settles}
use connectorhost.Supervisor.Dispatching.{Dispatched, dispatch-err, dispatch-Dispatched}

abbrev first_job : Job
first_job = record { job_id = "j"; attempt_token = "a" }

abbrev second_job : Job
second_job = record { job_id = "k"; attempt_token = "b" }

abbrev one_child : Children String
one_child =
    (
      "mail-1",
      record { manifest = "mail"; ready = true; stopping = false; active = ("a", first_job) ∷ [] },
    )
    ∷ []

dispatch-err_example : (dispatch 4 one_child "mail-1" second_job (err external)).0 ≡ one_child
unfolding dispatch active_count lookup insert delete
dispatch-err_example = dispatch-err 4 one_child "mail-1" second_job (err external) external refl

dispatch-Dispatched_example :
    Dispatched "mail-1" second_job one_child (dispatch 4 one_child "mail-1" second_job (ok tt)).0
    × (active_count (dispatch 4 one_child "mail-1" second_job (ok tt)).0 ≤ 4)
unfolding dispatch active_count lookup insert
dispatch-Dispatched_example = dispatch-Dispatched 4 one_child "mail-1" second_job (ok tt) refl

abbrev two_jobs : Child String
two_jobs = record {
  manifest = "mail";
  ready = true;
  stopping = false;
  active = ("a", first_job) ∷ ("b", second_job) ∷ [];
}

two_jobs-IsKeyed : IsKeyed two_jobs
unfolding lookup
two_jobs-IsKeyed = record { distinct = (refl, (refl, tt)); own = (refl, (refl, tt)) }

-- The first job ends, the second is left behind.
abbrev messages : List (Message String × Result (Unit {0}))
messages = (event "b", ok tt) ∷ (completion "a" "success", ok tt) ∷ []

watch_child_settles_example :
    ((watch_child "mail-1" messages two_jobs).0.active ≡ [])
    × (reported "b" (watch_child "mail-1" messages two_jobs).1 ≡ true)
unfolding lookup
watch_child_settles_example =
    watch_child_settles "mail-1" "b" messages two_jobs two_jobs-IsKeyed refl
