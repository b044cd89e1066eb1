-- ===== src/Executor.antt =====
-- orchestration/run_executor.py, `RunExecutor`: the attempts of one run, the classification of their
-- errors, and the end of the run. The agent runtime, the hooks, the error handlers and the waits are
-- parameters that may change the world, as other tasks do while one is awaited.
pub mod Cancellation
pub mod Outcome
pub mod Steps
pub mod Success
use agent_task_platform.Prelude.{
  ℕ, zero, suc, ◌+◌, ◌-◌, String, Bool, true, false, not, ◌||◌, Option, none, some, [], ◌∷◌, max,
  if◌then◌else◌, nat_beq, ◌==◌, string_eq,
}
use agent_task_platform.Domain.Status.{RunStatus}
use agent_task_platform.Domain.Entities.{AgentRun, AgentSpec, or_now}
use agent_task_platform.World.{
  World, key_error, Result, ok, err, run_in, require_run, cancel_is_set, update_owned, dict_set,
  dict_pop,
}
use agent_task_platform.Executor.Outcome.{Environment, checked, returned}
use agent_task_platform.Executor.Steps.{
  Step, back, prepare_if_asked, mark_queue_completed, mark_queue_dead, conclude, finished, again,
  stopped,
}

abbrev pub is_canceled : RunStatus → Bool
is_canceled RunStatus.canceled = true
is_canceled _ = false

-- The run as an attempt starts it.
unfoldable pub started : ℕ → ℕ → AgentRun → AgentRun
started attempt now run = record run {
  status = if nat_beq attempt 1 then RunStatus.running else RunStatus.retrying;
  start_time = or_now run.start_time now;
  attempts = attempt;
  current_step = some "agent";
}

-- A round that goes ahead, from the row that it has read.
unfoldable pub run_attempt :
    Environment → AgentSpec → Option String → ℕ → ℕ → ℕ → AgentRun → World → Step
run_attempt env agent worker_id timeout attempt attempts row w =
    let run = started attempt w.store.clock row in
    let (owned, w1) = update_owned run (row.status ∷ []) worker_id w in
    if not owned
    then back row.run_id w1
    else let (outcome, w2) = env.run agent run (env.on_run_dequeued run w1) in
      conclude env agent worker_id timeout attempt attempts (checked env agent outcome) run w2

-- One round of the loop.
unfoldable pub attempt_once :
    Environment → AgentSpec → Option String → ℕ → ℕ → ℕ → String → World → Step
attempt_once env agent worker_id timeout attempt attempts run_id w = elim (run_in run_id w) [
  | none ↦ finished (err key_error) w
  | some row ↦
      if is_canceled row.status || cancel_is_set run_id w
      then finished (ok row) w
      else run_attempt env agent worker_id timeout attempt attempts row w
]

abbrev pub is_dead : RunStatus → Bool
is_dead RunStatus.failed = true
is_dead RunStatus.timeout = true
is_dead _ = false

abbrev pub status_text : RunStatus → String
status_text RunStatus.timeout = "TIMEOUT"
status_text _ = "FAILED"

abbrev pub or_status : Option String → RunStatus → String
or_status none s = status_text s
or_status (some t) s = if t == "" then status_text s else t

-- After the last attempt, or the `break`.
unfoldable pub finish : Environment → Option String → AgentRun → World → Result AgentRun × World
finish env worker_id last w =
    let run = record last { finish_time = some w.store.clock } in
    let (owned, w1) = update_owned run (run.status ∷ []) worker_id w in
    if not owned
    then (require_run run.run_id w1, w1)
    else let w2 = env.on_run_end run w1 in
      let w3 = prepare_if_asked env run w2 in
      if is_dead run.status
      then elim (mark_queue_dead run.run_id (or_status run.error_message run.status) worker_id w3) [
        | none ↦ (err key_error, w3)
        | some w4 ↦ (require_run run.run_id w4, w4)
      ]
      else let w4 = mark_queue_completed run.run_id worker_id w3 in (require_run run.run_id w4, w4)

-- What the loop does after a round: it returns, goes on with `next`, or leaves by `break`.
abbrev pub after_step :
    Step
    → (AgentRun → World → Result AgentRun × World)
    → (AgentRun → World → Result AgentRun × World)
    → Result AgentRun × World
after_step (finished r w) next leave = (r, w)
after_step (again run w) next leave = next run w
after_step (stopped run w) next leave = leave run w

-- `for attempt in range(run.attempts + 1, attempts + 1)`, by the rounds that are left.
unfoldable pub attempt_loop :
    ℕ
    → Environment
    → AgentSpec
    → Option String
    → ℕ
    → ℕ
    → ℕ
    → AgentRun
    → World
    → Result AgentRun × World
attempt_loop zero env agent worker_id timeout attempt attempts run w = finish env worker_id run w
attempt_loop (suc rounds) env agent worker_id timeout attempt attempts run w =
    after_step (attempt_once env agent worker_id timeout attempt attempts run.run_id w)
      (λ run' w'. attempt_loop rounds env agent worker_id timeout (suc attempt) attempts run' w')
      (finish env worker_id)

abbrev pub attempt_limit : AgentSpec → ℕ
attempt_limit agent = max 1 agent.retry_policy.max_attempts

-- `run.timeout_seconds or agent.timeout_seconds`
abbrev pub timeout_for : AgentSpec → AgentRun → ℕ
timeout_for agent run = elim run.timeout_seconds [
  | none ↦ agent.timeout_seconds
  | some t ↦ if nat_beq t 0 then agent.timeout_seconds else t
]

unfoldable pub execute_with_cancel :
    Environment → AgentSpec → Option String → AgentRun → World → Result AgentRun × World
execute_with_cancel env agent worker_id run w =
    attempt_loop (attempt_limit agent - run.attempts) env agent worker_id (timeout_for agent run)
      (suc run.attempts) (attempt_limit agent) run w

-- `execute`, for the agent that the registry returned: the cancel event is there while the run is
-- executed, and is removed however the execution ends.
unfoldable pub execute :
    Environment → AgentSpec → Option String → String → World → Result AgentRun × World
execute env agent worker_id run_id w = elim (run_in run_id w) [
  | none ↦ (err key_error, w)
  | some run ↦
      let w1 = record w { cancellation_events = dict_set run_id false w.cancellation_events } in
      let (r, w2) = execute_with_cancel env agent worker_id run w1 in
      (r, record w2 { cancellation_events = dict_pop run_id w2.cancellation_events })
]
