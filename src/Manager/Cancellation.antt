-- ===== src/Manager/Cancellation.antt =====
-- orchestration/manager.py, `cancel`.
-- reclaiming of expired leases. A started task is a run id in `background`; what it then does is
-- the executor's part. `other` is what other tasks and processes do between two statements that the
-- database does not join in one transaction.
use agent_task_platform.Prelude.{
  ℕ, zero, suc, String, true, none, some, List, [], ◌∷◌, if◌then◌else◌, string_eq, option_eq,
}
use agent_task_platform.Domain.Status.{RunStatus, run_status_eq}
use agent_task_platform.Domain.Lifecycle.{is_terminal}
use agent_task_platform.Domain.Entities.{AgentRun}
use agent_task_platform.Store.State.{add_log}
use agent_task_platform.Store.Runs.{Expected, update_if_current}
use agent_task_platform.Store.Runs.Update.{stamped}
use agent_task_platform.World.{
  World, Result, ok, err, key_error, runtime_error, run_in, dict_get, dict_set,
}
use agent_task_platform.Manager.{with_store}

unfoldable pub canceled : ℕ → AgentRun → AgentRun
canceled now run = record run {
  status = RunStatus.canceled;
  finish_time = some now;
  worker = none;
  lease_expire_time = none;
}

-- What the loop at the start of `cancel` comes to: the run was terminal, its row was swapped, or the
-- row changed under each of the tries, or there is no such run.
pub data Swap : Type 0 where
  settled : AgentRun → World → Swap
  swapped : AgentRun → World → Swap
  contended : World → Swap
  missing : World → Swap

abbrev pub expect_status : RunStatus → Expected
expect_status st = record { statuses = st ∷ []; worker = none; lease_expire_time = none }

unfoldable pub try_cancel : ℕ → (World → World) → String → World → Swap
try_cancel zero other run_id w = contended w
try_cancel (suc tries) other run_id w = elim (run_in run_id w) [
  | none ↦ missing w
  | some run ↦
      if is_terminal run.status
      then settled run w
      else let w1 = other w in
        let run' = canceled w.store.clock run in
        let (done, s) = update_if_current run' (expect_status run.status) w1.store in
        let rest = try_cancel tries other run_id (with_store s w1) in
        if done then swapped (stamped run' w1.store) (with_store s w1) else rest
]

abbrev pub set_event : String → World → World
set_event run_id w = elim (dict_get run_id w.cancellation_events) [
  | none ↦ w
  | some _ ↦ record w { cancellation_events = dict_set run_id true w.cancellation_events }
]

abbrev pub children : String → World → List String
children run_id w = elim (dict_get run_id w.child_runs_by_parent) [ none ↦ [] | some ids ↦ ids ]

-- Each child in turn; what its cancellation raises is dropped.
unfoldable pub cancel_each :
    (String → World → Result AgentRun × World) → List String → World → World
cancel_each cancel_child [] w = w
cancel_each cancel_child (c ∷ cs) w = cancel_each cancel_child cs (cancel_child c w).1

-- What `cancel` does when its loop has ended: the event, the children, the log.
abbrev pub after_swap :
    Swap → (String → World → Result AgentRun × World) → String → Result AgentRun × World
after_swap (missing w) cancel_child run_id = (err key_error, w)
after_swap (contended w) cancel_child run_id = (err runtime_error, w)
after_swap (settled run w) cancel_child run_id = (ok run, w)
after_swap (swapped run w) cancel_child run_id =
    let w1 = cancel_each cancel_child (children run_id w) (set_event run_id w) in
    (ok run, with_store (add_log run.run_id run.trace_id "run_api" "run_canceled" w1.store) w1)

-- `cancel`. The first argument bounds the depth of the tree of child runs that is followed.
unfoldable pub cancel : ℕ → (World → World) → String → World → Result AgentRun × World
cancel zero other run_id w = (err runtime_error, w)
cancel (suc depth) other run_id w =
    after_swap (try_cancel 10 other run_id w) (λ c w'. cancel depth other c w') run_id
