-- ===== src/Manager/Requests.antt =====
-- orchestration/manager.py, `RunManager`: the calls of the interfaces: submit, run_now, resend_callback
-- and compensate_callbacks. The scheduler's admission is a parameter.
pub mod Resubmission
use agent_task_platform.Prelude.{
  ℕ, String, Bool, true, false, ◌&&◌, Option, none, some, List, [], ◌∷◌, if◌then◌else◌, string_eq,
  contains,
}
use agent_task_platform.Domain.Status.{RunStatus, run_status_eq}
use agent_task_platform.Domain.Entities.{
  AgentRun, AgentSpec, Dict, Json, or_else, truthy, JsonItems, JsonFields,
}
use agent_task_platform.Store.State.{Store}
use agent_task_platform.Callback.{Services}
use agent_task_platform.Callback.Deliver.{Network, resend, dispatch_pending}
use agent_task_platform.World.{
  World, Result, ok, err, key_error, runtime_error, run_in, dict_get, dict_set,
}
use agent_task_platform.Executor.Outcome.{Environment}
use agent_task_platform.Executor.{execute}
use agent_task_platform.Submission.{RunSubmission, FreshIds, Routing}
use agent_task_platform.Submission
use agent_task_platform.Manager.{with_store, start_background}

-- The value of `parent_run_id`: none, or one that counts as false; a text; another value that can be a
-- key, whose entry nobody reads, since run ids are texts; or one that can be no key of a dict.
pub data Parent : Type 0 where
  no_parent other_key unhashable : Parent
  parent : String → Parent

abbrev pub parent_key : Option Json → Parent
parent_key none = no_parent
parent_key (some Json.null) = no_parent
parent_key (some (Json.boolean false)) = no_parent
parent_key (some (Json.boolean true)) = other_key
parent_key (some (Json.number t)) = other_key
parent_key (some (Json.text t)) = elim (truthy (some t)) [ none ↦ no_parent | some p ↦ parent p ]
parent_key (some (Json.array JsonItems.nil)) = no_parent
parent_key (some (Json.array (JsonItems.cons v vs))) = unhashable
parent_key (some (Json.object JsonFields.end)) = no_parent
parent_key (some (Json.object (JsonFields.field k v d))) = unhashable

abbrev pub parent_of : AgentRun → Parent
parent_of run = parent_key (dict_get "parent_run_id" run.metadata)

abbrev pub is_hashable : Parent → Bool
is_hashable unhashable = false
is_hashable _ = true

-- `self._child_runs_by_parent[parent_id].add(run.run_id)`
abbrev pub add_child : Parent → String → World → World
add_child (parent p) child w =
    let children = or_else (dict_get p w.child_runs_by_parent) [] in
    if contains children child
    then w
    else record w { child_runs_by_parent = dict_set p (child ∷ children) w.child_runs_by_parent }
add_child _ child w = w

abbrev pub is_queued : RunStatus → Bool
is_queued RunStatus.queued = true
is_queued _ = false

abbrev pub started_if : Bool → String → World → World
started_if true run_id w = (start_background run_id w).1
started_if false run_id w = w

-- `submit`; `start` is its argument, and `auto_start` where that is None. None is an exception: the
-- conflict that `RunService.submit` raises, or the `TypeError` of a parent that can be no key.
unfoldable pub submit :
    (AgentRun → Routing)
    → (Store → Store)
    → FreshIds
    → Bool
    → RunSubmission
    → World
    → Option AgentRun × World
submit route other ids start submission w =
    let (answer, s) = Submission.submit route other ids submission w.store in
    elim answer [
      | none ↦ (none, with_store s w)
      | some (run, is_new) ↦
          if is_hashable (parent_of run)
          then (
            some run,
            started_if (is_new && (is_queued run.status && start)) run.run_id
                (add_child (parent_of run) run.run_id (with_store s w)),
          )
          else (none, with_store s w)
    ]

abbrev pub is_ended : RunStatus → Bool
is_ended RunStatus.succeeded = true
is_ended RunStatus.failed = true
is_ended RunStatus.timeout = true
is_ended RunStatus.canceled = true
is_ended _ = false

-- `run_now`; `limited` is `RunScheduler.run_with_limits`, and a route that does not resolve raises.
unfoldable pub run_now :
    (AgentRun → Option AgentSpec)
    → (AgentRun → AgentSpec → (World → Result AgentRun × World) → World → Result AgentRun × World)
    → Environment
    → Option String
    → String
    → World
    → Result AgentRun × World
run_now resolve limited env worker_id run_id w = elim (run_in run_id w) [
  | none ↦ (err key_error, w)
  | some run ↦ if is_ended run.status then (ok run, w) else elim (resolve run) [
    | none ↦ (err runtime_error, w)
    | some agent ↦ limited run agent (λ v. execute env agent worker_id run_id v) w
  ]
]

-- `resend_callback`; false is the `KeyError` of an unknown run.
unfoldable pub resend_callback : Services → Network → String → String → World → Bool × World
resend_callback services network fresh run_id w = elim (run_in run_id w) [
  | none ↦ (false, w)
  | some run ↦ (true, with_store (resend services network fresh run w.store) w)
]

-- `dispatch_pending` with the worker and the lease that are its defaults.
abbrev pub compensate_callbacks : Services → Network → List String → String → ℕ → ℕ → World → World
compensate_callbacks services network locked worker_id lease_seconds limit w =
    with_store (dispatch_pending services network locked worker_id lease_seconds limit w.store) w
