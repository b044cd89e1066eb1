-- ===== src/Executor/Outcome.antt =====
-- What the agent runtime comes to, and the `except` clauses of orchestration/run_executor.py that
-- classify it.
-- errors, and the end of the run. The agent runtime, the hooks, the error handlers and the waits are
-- parameters that may change the world, as other tasks do while one is awaited.
use agent_task_platform.Prelude.{
  ℕ, String, Bool, ◌||◌, Option, none, some, ltb, if◌then◌else◌, string_eq,
}
use Prim.Native.String.{◌++◌}
use agent_task_platform.Prelude.Text.{mentions}
use agent_task_platform.Domain.Status.{RunStatus, ErrorType}
use agent_task_platform.Domain.Entities.{AgentRun, AgentSpec, Dict, Json}
use agent_task_platform.Callback.{Services}
use agent_task_platform.World.{World}

-- What the awaited `runtime.run` comes to: an output, or an exception by its class. An exception that
-- the classification reads is given by its type's name and its text.
pub data Outcome : Type 0 where
  returned : Dict Json → Outcome
  run_cancelled : Outcome
  interrupted : Outcome
  side_effect_unknown : String → String → Outcome
  timed_out : Outcome
  registry_error : String → String → Outcome
  tool_error : String → String → Outcome
  other_error : String → String → Outcome

pub record RunErrorResult : Type 0 where
  pub final_output : Dict Json
  pub include_error_in_output : Bool

pub record Environment : Type 0 where
  pub run : AgentSpec → AgentRun → World → Outcome × World
  -- the text of the `RegistryError` for an output that the agent's schema refuses
  pub invalid_output : AgentSpec → Dict Json → Option String
  pub sleep : ℕ → World → World
  pub on_run_dequeued : AgentRun → World → World
  pub on_run_end : AgentRun → World → World
  -- the handler of a kind of error; none if there is no handler or it declines
  pub handle : String → AgentRun → World → Option RunErrorResult × World
  pub services : Services
  pub new_event_id : World → String
  pub timeout_text : ℕ → String
  -- the text of the `KeyError` of `_require_run`
  pub unknown_run : String → String

-- `f"{type(exc).__name__}: {exc}"`
abbrev pub message : String → String → Option String
message name text = some (name ++ ": " ++ text)

abbrev pub retry_or_fail : ℕ → ℕ → RunStatus
retry_or_fail attempt attempts =
    if ltb attempt attempts then RunStatus.retrying else RunStatus.failed

abbrev pub with_error : RunStatus → ErrorType → Option String → AgentRun → AgentRun
with_error status error text run = record run {
  status = status;
  error_type = some error;
  error_message = text;
}

-- The last `except`: the kind of error is read off the text of the exception.
unfoldable pub classify_text : ℕ → ℕ → String → RunStatus × ErrorType
classify_text attempt attempts text =
    if mentions "validation" text || mentions "schema" text
    then (RunStatus.failed, ErrorType.validation_error)
    else if mentions "not found" text || mentions "no enabled" text
    then (RunStatus.failed, ErrorType.route_not_found)
    else if mentions "permission" text || mentions "unauthorized" text
    then (RunStatus.failed, ErrorType.agent_execution_error)
    else (retry_or_fail attempt attempts, ErrorType.agent_execution_error)

-- What each `except` clause writes into the run. The first three outcomes are not classified.
unfoldable pub classify : Environment → ℕ → ℕ → ℕ → Outcome → AgentRun → AgentRun
unfolding classify_text
classify env timeout attempt attempts (side_effect_unknown name text) run =
    with_error RunStatus.failed ErrorType.side_effect_outcome_unknown (message name text) run
classify env timeout attempt attempts timed_out run =
    with_error RunStatus.timeout ErrorType.run_timeout (some (env.timeout_text timeout)) run
classify env timeout attempt attempts (registry_error name text) run =
    with_error RunStatus.failed
      (if mentions "schema" text then ErrorType.validation_error else ErrorType.agent_not_available)
      (message name text) run
classify env timeout attempt attempts (tool_error name text) run =
    with_error (retry_or_fail attempt attempts) ErrorType.tool_unavailable (message name text) run
classify env timeout attempt attempts (other_error name text) run =
    let (status, error) = classify_text attempt attempts text in
    with_error status error (message name text) run
classify env timeout attempt attempts _ run = run

-- The handler that an `except` clause asks, if it asks one.
unfoldable pub handler_kind : Outcome → Option String
handler_kind timed_out = some "timeout"
handler_kind (registry_error name text) = some "validation_error"
handler_kind (tool_error name text) = some "tool_failure"
handler_kind (other_error name text) =
    some (if mentions "tool" text then "tool_failure" else "agent_error")
handler_kind _ = none

-- An output that the schema refuses is a `RegistryError`, raised inside the `try`.
unfoldable pub checked : Environment → AgentSpec → Outcome → Outcome
checked env agent (returned output) = elim (env.invalid_output agent output) [
  | none ↦ returned output
  | some text ↦ registry_error "RegistryError" text
]
checked env agent o = o
