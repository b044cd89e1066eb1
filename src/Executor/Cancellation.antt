-- ===== src/Executor/Cancellation.antt =====
-- Cancellation wins: once the row of a run is CANCELED it stays so, through whatever is left of an
-- execution that is under way.
pub mod Rows
pub mod Attempts
use agent_task_platform.Prelude.{
  ℕ, zero, suc, String, ◌≡◌, refl, sym, subst, ◌∙◌, true, false, Option, none, some, List, [], ◌∷◌,
  arith, ◌⊎◌, inl, inr, ◌||◌, contains, Option-cases,
}
use agent_task_platform.Domain.Status.{RunStatus, run_status_eq}
use agent_task_platform.Domain.Lifecycle.{executing_run_statuses, contains-executing}
use agent_task_platform.Domain.Entities.{AgentRun, AgentSpec, Dict, Json, delay_for_attempt}
use agent_task_platform.Store.Runs.Keeping.{status_of, status_of-update_if_current, contains-one}
use agent_task_platform.Callback.Outcome.{prepare_for_run_keeps_failure}
use agent_task_platform.World.{World, run_in, update_owned, cancel_is_set}
use agent_task_platform.Executor.Outcome.{
  Environment, Outcome, RunErrorResult, handler_kind, checked,
}
use agent_task_platform.Executor.Steps.{
  Step, finished, again, stopped, prepare, prepare_if_asked, released, log_failed, agent_succeeded,
  mark_queue_completed, mark_queue_dead, succeed, finalize, record_failure, fail, conclude,
  recovered,
}
use agent_task_platform.Executor.{
  run_attempt, attempt_once, finish, is_canceled, or_status, after_step, attempt_loop,
  execute_with_cancel, execute, started,
}
use agent_task_platform.Executor.Cancellation.Rows.{
  Holds, Respects, C, owned-keeps, executing-keeps, same-keeps, prepare-keeps,
  prepare_if_asked-keeps, mark_queue_completed-keeps, OptionHolds, mark_queue_dead-keeps, StepHolds,
}
use agent_task_platform.Executor.Cancellation.Attempts.{
  conclude-keeps, attempt_loop-keeps, finish-keeps,
}

-- An execution never takes a run out of CANCELED, neither its own run nor another: if the row is
-- CANCELED before, and the tasks that run while the execution waits leave it so, it is CANCELED
-- after, whatever the outcomes of the agent, the number of attempts and the error handlers.
pub execute_keeps_canceled :
    (env : Environment) (agent : AgentSpec) (worker : Option String) (run_id k : String) (w : World)
    → Respects env k C
    → Holds k C w
    → Holds k C (execute env agent worker run_id w).1
unfolding execute execute_with_cancel
execute_keeps_canceled env agent worker run_id k w respects h =
    elim (Option-cases (run_in run_id w)) [
      | inl e ↦ rw (e, execute) h
      | inr (run, e) ↦
          rw (e, execute) (attempt_loop-keeps k env respects agent worker _ _ _ _ run _ h)
    ]

-- A run that is canceled while its agent is running ends CANCELED: whatever the agent then returns or
-- raises, and whatever attempts are left, nothing that the execution writes afterwards replaces it.
pub canceled_during_run :
    (env : Environment) (agent : AgentSpec) (worker : Option String)
    (rounds timeout attempt attempts : ℕ) (last row : AgentRun) (w : World)
    → Respects env last.run_id C
    → run_in last.run_id w ≡ some row
    → (is_canceled row.status || cancel_is_set last.run_id w) ≡ false
    → let run = started attempt w.store.clock row in
      let begun = update_owned run (row.status ∷ []) worker w in
      begun.0 ≡ true
      → Holds last.run_id C (env.run agent run (env.on_run_dequeued run begun.1)).1
      → Holds last.run_id C
          (attempt_loop (suc rounds) env agent worker timeout attempt attempts last w).1
unfolding attempt_loop attempt_once run_attempt
canceled_during_run env agent worker rounds timeout attempt attempts last row w respects found live
      owned h =
    let run = started attempt w.store.clock row in
    let w2 = env.on_run_dequeued run (update_owned run (row.status ∷ []) worker w).1 in
    rw (found, attempt_once)
      (rw (live, owned)
        (after_step-keeps _ (
          conclude-keeps last.run_id env respects agent worker timeout attempt attempts
            (checked env agent (env.run agent run w2).0) run (env.run agent run w2).1 h)))
  where
    after_step-keeps :
        (st : Step)
        → StepHolds last.run_id st
        → Holds last.run_id C
            (after_step st
              (λ run' w'.
                attempt_loop rounds env agent worker timeout (suc attempt) attempts run' w')
              (finish env worker)).1
    after_step-keeps (finished r w') h' = h'
    after_step-keeps (again run' w') h' =
        attempt_loop-keeps last.run_id env respects agent worker rounds timeout (suc attempt)
          attempts run' w' h'
    after_step-keeps (stopped run' w') h' =
        finish-keeps last.run_id env respects agent worker run' w' h'
