-- ===== src/Executor/Steps.antt =====
-- How an attempt of orchestration/run_executor.py ends: its success path, its failure path, and the
-- error handlers between.
-- errors, and the end of the run. The agent runtime, the hooks, the error handlers and the waits are
-- parameters that may change the world, as other tasks do while one is awaited.
use agent_task_platform.Prelude.{
  ℕ, String, Bool, true, false, not, ◌&&◌, Option, none, some, [], ◌∷◌, ltb, if◌then◌else◌,
  string_eq,
}
use agent_task_platform.Domain.Status.{RunStatus, ErrorType}
use agent_task_platform.Domain.Lifecycle.{executing_run_statuses, is_retryable}
use agent_task_platform.Domain.Entities.{
  AgentRun, AgentSpec, Dict, Json, delay_for_attempt, callback_url, or_else,
}
use agent_task_platform.Store.State.{add_log}
use agent_task_platform.Callback.{prepare_for_run}
use agent_task_platform.World.{
  World, task_cancelled, Result, err, run_in, require_run, update_owned, dict_get, dict_set,
}
use agent_task_platform.Executor.Outcome.{
  Outcome, RunErrorResult, Environment, classify, handler_kind, returned, run_cancelled,
  other_error, interrupted,
}

-- How an attempt ends: the method returns or raises, the loop goes on, or it is left by `break`.
pub data Step : Type 0 where
  finished : Result AgentRun → World → Step
  again : AgentRun → World → Step
  stopped : AgentRun → World → Step

abbrev pub back : String → World → Step
back run_id w = finished (require_run run_id w) w

abbrev pub prepare : Environment → AgentRun → World → World
prepare env run w = record w {
  store = (prepare_for_run env.services (env.new_event_id w) run w.store).1;
}

-- `if run.callback and run.callback.url: await ...prepare_for_run(run)`
abbrev pub prepare_if_asked : Environment → AgentRun → World → World
prepare_if_asked env run w = elim (callback_url run) [ none ↦ w | some _ ↦ prepare env run w ]

abbrev pub released : AgentRun → AgentRun
released run = record run { worker = none; lease_expire_time = none }

abbrev pub is_unset {ℓ} : {A : Type ℓ} → Option A → Bool
is_unset none = true
is_unset (some a) = false

-- `_mark_queue_completed`
unfoldable pub mark_queue_completed : String → Option String → World → World
mark_queue_completed run_id worker_id w = elim (run_in run_id w) [
  | none ↦ w
  | some run ↦
      if is_unset run.worker && is_unset run.lease_expire_time
      then w
      else (update_owned (released run) (run.status ∷ []) worker_id w).1
]

-- `_mark_queue_dead`; none is the `KeyError` of `_require_run`.
unfoldable pub mark_queue_dead : String → String → Option String → World → Option World
mark_queue_dead run_id reason worker_id w = elim (run_in run_id w) [
  | none ↦ none
  | some run ↦
      some
        (update_owned (record (released run) { dead_letter_reason = some reason }) (run.status ∷ [])
          worker_id w).1
]

-- The run as the success path writes it.
unfoldable pub agent_succeeded : Dict Json → AgentRun → ℕ → AgentRun
agent_succeeded output run now = record run {
  output = some output;
  error_type = none;
  error_message = none;
  dead_letter_reason = none;
  status = RunStatus.agent_succeeded;
  current_step = some "callback";
  finish_time = some now;
}

-- The success path. A run that is not there to be read again is a `KeyError` within the `try`: `missing`
-- is what the except clauses do with it. Later the row is there, since the statements that follow
-- do not wait.
unfoldable pub succeed :
    Environment → Option String → Dict Json → (AgentRun → World → Step) → AgentRun → World → Step
succeed env worker_id output missing run w = elim (run_in run.run_id w) [
  | none ↦ missing run w
  | some current ↦
      let done = agent_succeeded output current w.store.clock in
      let (owned, w1) = update_owned done executing_run_statuses worker_id w in
      if not owned
      then back run.run_id w1
      else back run.run_id (mark_queue_completed run.run_id worker_id (prepare env done w1))
]

abbrev pub set_default : String → Json → Dict Json → Dict Json
set_default k v d = elim (dict_get k d) [ none ↦ dict_set k v d | some _ ↦ d ]

-- The run that an error handler's result ends with.
unfoldable pub recovered : RunErrorResult → AgentRun → ℕ → AgentRun
recovered result run now = record run {
  output = some (
      if result.include_error_in_output
      then set_default "_error" (Json.text (or_else run.error_message "error handled by recovery"))
          result.final_output
      else result.final_output);
  error_type = none;
  error_message = none;
  dead_letter_reason = none;
  status = RunStatus.succeeded;
  current_step = some "error_recovery";
  finish_time = some now;
}

-- `_finalize_run_with_result`
unfoldable pub finalize : Environment → Option String → RunErrorResult → AgentRun → World → Step
finalize env worker_id result run w =
    let done = recovered result run w.store.clock in
    let (owned, w1) = update_owned done executing_run_statuses worker_id w in
    if not owned
    then back run.run_id w1
    else back run.run_id (mark_queue_completed run.run_id worker_id (prepare_if_asked env done w1))

abbrev pub may_retry : Option ErrorType → Bool
may_retry none = true
may_retry (some e) = is_retryable e

abbrev pub log_failed : AgentRun → World → World
log_failed run w = record w {
  store = add_log run.run_id run.trace_id "run_manager" "run_attempt_failed" w.store;
}

-- An attempt that failed and that no handler took over: the row, the log, and the wait.
unfoldable pub record_failure :
    Environment → AgentSpec → Option String → ℕ → ℕ → AgentRun → World → Step
record_failure env agent worker_id attempt attempts run w =
    let (owned, w1) = update_owned run executing_run_statuses worker_id w in
    if not owned
    then back run.run_id w1
    else let w2 = log_failed run w1 in
      if not (may_retry run.error_type)
      then stopped run w2
      else again run (
          if ltb attempt attempts
          then env.sleep (delay_for_attempt agent.retry_policy attempt) w2
          else w2)

-- An exception with a handler asks it first.
unfoldable pub fail :
    Environment → AgentSpec → Option String → ℕ → ℕ → Outcome → AgentRun → World → Step
fail env agent worker_id attempt attempts outcome run w = elim (handler_kind outcome) [
  | none ↦ record_failure env agent worker_id attempt attempts run w
  | some kind ↦
      let (result, w1) = env.handle kind run w in
      elim result [
        | none ↦ record_failure env agent worker_id attempt attempts run w1
        | some r ↦ finalize env worker_id r run w1
      ]
]

-- The last except clause with the `KeyError` of a run that is not there any more.
abbrev pub fail_unknown :
    Environment → AgentSpec → Option String → ℕ → ℕ → ℕ → AgentRun → World → Step
fail_unknown env agent worker_id timeout attempt attempts run w =
    let error = other_error "KeyError" (env.unknown_run run.run_id) in
    fail env agent worker_id attempt attempts error
      (classify env timeout attempt attempts error run) w

-- The `try` statement, after the runtime has been awaited.
unfoldable pub conclude :
    Environment → AgentSpec → Option String → ℕ → ℕ → ℕ → Outcome → AgentRun → World → Step
conclude env agent worker_id timeout attempt attempts (returned output) run w =
    succeed env worker_id output (fail_unknown env agent worker_id timeout attempt attempts) run w
conclude env agent worker_id timeout attempt attempts run_cancelled run w = back run.run_id w
conclude env agent worker_id timeout attempt attempts interrupted run w =
    finished (err task_cancelled) w
conclude env agent worker_id timeout attempt attempts outcome run w =
    fail env agent worker_id attempt attempts outcome
      (classify env timeout attempt attempts outcome run) w
