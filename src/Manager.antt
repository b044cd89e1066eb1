-- ===== src/Manager.antt =====
-- orchestration/manager.py, `RunManager`: background tasks, retry, dispatch of claimed runs,
-- renewal of leases. A started task is a run id in `background`; what it then does is
-- the executor's part. `other` is what other tasks and processes do between two statements that the
-- database does not join in one transaction.
pub mod Cancel
pub mod Retry
pub mod Lease
pub mod Cancellation
pub mod Recovery
pub mod Requests
use agent_task_platform.Prelude.{
  ℕ, suc, ◌-◌, String, Bool, true, false, not, ◌||◌, Option, none, some, List, [], ◌∷◌,
  if◌then◌else◌, string_eq, option_eq, contains,
}
use agent_task_platform.Domain.Status.{RunStatus, ErrorType, run_status_eq}
use agent_task_platform.Domain.Lifecycle.{executing_run_statuses}
use agent_task_platform.Domain.Entities.{AgentRun, AgentSpec}
use agent_task_platform.Store.State.{Store, add_log}
use agent_task_platform.Store.Runs
use agent_task_platform.Store.Runs.{update_if_current, claim_ready, renew_lease}
use agent_task_platform.Store.Stages.{reset_failed_for_run}
use agent_task_platform.World.{World, Result, ok, err, key_error, runtime_error, run_in}

abbrev pub with_store : Store → World → World
with_store s w = record w { store = s }

abbrev pub count : Bool → ℕ → ℕ
count true n = suc n
count false n = n

-- `is_running`
abbrev pub is_running : String → World → Bool
is_running run_id w = contains w.background run_id

abbrev pub trace_of : Option AgentRun → String
trace_of none = ""
trace_of (some r) = r.trace_id

-- `_start_background`
unfoldable pub start_background : String → World → Bool × World
start_background run_id w =
    if is_running run_id w
    then (
      false,
      with_store
          (add_log run_id (trace_of (run_in run_id w)) "run_manager" "background_start_skipped"
            w.store)
          w,
    )
    else (true, record w { background = run_id ∷ w.background })

abbrev pub can_retry : RunStatus → Bool
can_retry RunStatus.failed = true
can_retry RunStatus.timeout = true
can_retry RunStatus.waiting_callback = true
can_retry _ = false

abbrev pub is_outcome_unknown : Option ErrorType → Bool
is_outcome_unknown (some ErrorType.side_effect_outcome_unknown) = true
is_outcome_unknown _ = false

-- The run as `retry` queues it again, for the agent that its route resolves to.
unfoldable pub requeued : AgentSpec → ℕ → AgentRun → AgentRun
requeued agent now run = record run {
  status = RunStatus.queued;
  error_type = none;
  error_message = none;
  dead_letter_reason = none;
  attempts = 0;
  queue_time = some now;
  run_after = some now;
  max_attempts = agent.retry_policy.max_attempts;
  worker = none;
  lease_expire_time = none;
  update_time = now;
}

-- `retry`. `resolve` is the registry's `resolve`; none is its `RegistryError`.
unfoldable pub retry : (AgentRun → Option AgentSpec) → String → World → Result AgentRun × World
retry resolve run_id w = elim (run_in run_id w) [
  | none ↦ (err key_error, w)
  | some run ↦
      if not (can_retry run.status) || is_outcome_unknown run.error_type
      then (ok run, w)
      else elim (resolve run) [
        | none ↦ (err runtime_error, w)
        | some agent ↦
            let run' = requeued agent w.store.clock run in
            let s = Runs.update run' (reset_failed_for_run run_id w.store).1 in
            (ok run', (start_background run_id (with_store s w)).1)
      ]
]

-- The claimed runs are started; one that is running here already is not.
unfoldable pub dispatch_each : List AgentRun → ℕ → World → ℕ × World
dispatch_each [] n w = (n, w)
dispatch_each (r ∷ rs) n w =
    let (started, w') = start_background r.run_id w in
    dispatch_each rs (count started n) (
      if started
      then with_store (add_log r.run_id r.trace_id "worker" "runtime_dispatched" w'.store) w'
      else w')

unfoldable pub dispatch_ready : List String → String → ℕ → ℕ → World → ℕ × World
dispatch_ready locked worker_id lease_seconds limit w =
    let (claimed, s) = claim_ready locked worker_id lease_seconds limit w.background w.store in
    dispatch_each claimed 0 (with_store s w)

-- One tick of `_renew_queue_lease_until_done`: true while the lease is still ours.
unfoldable pub renew_tick : String → String → ℕ → World → Bool × World
renew_tick run_id worker_id lease_seconds w =
    let (renewed, s) = renew_lease run_id worker_id lease_seconds w.store in
    (
      renewed,
      with_store
          (if renewed
            then s
            else add_log run_id (trace_of (Runs.get run_id s)) "run_manager" "lease_renewal_stopped"
                s)
          w,
    )

-- The `except Exception` of `_run_background`.
unfoldable pub background_failed : String → Option String → Option String → World → World
background_failed run_id worker_id message w = elim (run_in run_id w) [
  | none ↦ w
  | some run ↦
      with_store
        (update_if_current
          (record run {
            status = RunStatus.failed;
            error_type = some ErrorType.internal_error;
            error_message = message;
          })
          (record {
            statuses = RunStatus.queued ∷ executing_run_statuses;
            worker = some worker_id;
            lease_expire_time = none;
          })
          w.store).1
        w
]
