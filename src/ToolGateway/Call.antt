-- ===== src/ToolGateway/Call.antt =====
-- framework/tool/tools.py, `ToolGateway.call`: the admission of a call before its attempts.
use agent_task_platform.Prelude.{
  ℕ, zero, suc, ◌-◌, String, Bool, true, false, not, ◌&&◌, Option, none, some, List, [], ◌∷◌, ◌++◌,
  string_eq, if◌then◌else◌, leb, ltb, map,
}
use Prim.Native.String.{◌++◌ as str_append}
use agent_task_platform.Domain.Status.{RunStatus}
use agent_task_platform.Domain.Entities.{Dict, Json, or_else}
use agent_task_platform.Domain.Catalog.{Rate, ToolSpec}
use agent_task_platform.Store.Runs
use agent_task_platform.World.{dict_get, dict_set}
use agent_task_platform.Resilience
use agent_task_platform.Resilience.{Turn, sleeps}
use agent_task_platform.Guardrails.{
  Guardrail, ToolGuardrailOutput, passed, tripped, run_tool_input_guardrails,
}
use agent_task_platform.Registry.Tools
use agent_task_platform.ToolProtocols.{to_json, get_or}
use agent_task_platform.ToolGateway.{
  GatewayWorld, ToolContext, GatewayEnvironment, ToolCall, GatewayResult, GatewayFault, done, fault,
  with_store, log,
}
use agent_task_platform.ToolGateway.Attempts.{schema_of, rejection, call_with_retries}

-- `set_failure_handler`
abbrev pub set_failure_handler {ℓ} : {A : Type ℓ} → String → A → Dict A → Dict A
set_failure_handler tool_name handler handlers = dict_set tool_name handler handlers

-- `add_tool_input_guardrail` and `add_tool_output_guardrail`
abbrev pub add_guardrail :
    String
    → Guardrail GatewayWorld ToolGuardrailOutput
    → Dict (List (Guardrail GatewayWorld ToolGuardrailOutput))
    → Dict (List (Guardrail GatewayWorld ToolGuardrailOutput))
add_guardrail tool_name g guardrails =
    dict_set tool_name (or_else (dict_get tool_name guardrails) [] ++ g ∷ []) guardrails

-- What the breaker does with a call.
pub data Gate : Type 0 where
  closed : Gate
  fallback : Json → Gate
  broken : Gate

module _ (env : GatewayEnvironment) (ctx : ToolContext) where
  -- `_fallback_if_breaker_open`
  unfoldable pub fallback_if_breaker_open : ToolSpec → GatewayWorld → Gate × GatewayWorld
  fallback_if_breaker_open tool w =
      if leb (Resilience.open_until tool.name w.breakers) w.monotonic
      then (closed, w)
      else let w1 = log ctx "tool_circuit_open" w in
        elim (get_or "fallback_output" Json.null tool.circuit_breaker) [
          | Json.null ↦ (broken, w1)
          | output ↦ (fallback output, log ctx "tool_fallback_used" w1)
        ]

  abbrev sleep_ticks : Turn → ℕ
  sleep_ticks (sleeps ticks window) = ticks
  sleep_ticks _ = 0

  abbrev sleep_of : Option Rate → String → GatewayWorld → ℕ
  sleep_of none name w = 0
  sleep_of (some qps) name w =
      sleep_ticks (Resilience.turn env.second qps w.monotonic (Resilience.window_of name w.windows))

  -- `await self._qps.acquire(…)`; false while the call still waits.
  unfoldable pub acquire_rate : ℕ → ToolSpec → GatewayWorld → Bool × GatewayWorld
  acquire_rate zero tool w = (false, w)
  acquire_rate (suc turns) tool w =
      let (taken, windows) =
        Resilience.acquire env.second tool.name tool.qps w.monotonic w.windows in
      let w1 = record w { windows = windows } in
      elim taken [
        | true ↦ (true, w1)
        | false ↦ acquire_rate turns tool (env.sleep (sleep_of tool.qps tool.name w) w1)
      ]

  -- The run waits for a tool; false is `RunCancelledError`.
  unfoldable pub set_waiting : ToolSpec → GatewayWorld → Bool × GatewayWorld
  set_waiting tool w = elim (Runs.get ctx.run_id w.store) [
    | none ↦ (true, w)
    | some run ↦
        let (owned, s) =
          Runs.update_if_current
            (record run {
              status = RunStatus.waiting_tool;
              current_step = some (str_append "tool:" tool.name);
            })
            (record {
              statuses = run.status ∷ [];
              worker = some ctx.worker;
              lease_expire_time = none;
            })
            w.store in
        (owned, with_store s w)
  ]

  module _ (tool : ToolSpec) (c : ToolCall) where
    -- With the semaphore of the tool, and the slot of a backend that has a wider scope.
    unfoldable pub call_limited : GatewayWorld → GatewayResult × GatewayWorld
    call_limited w = elim env.slot [
      | none ↦ call_with_retries env ctx tool c (env.on_semaphore w)
      | some acquire ↦
          let (acquired, w1) = acquire (env.on_semaphore w) in
          if not acquired
          then (fault GatewayFault.slot_unavailable, w1)
          else let (result, w2) = call_with_retries env ctx tool c w1 in (result, env.release w2)
    ]

    -- From the run that waits for its tool on.
    unfoldable pub call_started : GatewayWorld → GatewayResult × GatewayWorld
    call_started w =
        let (checked, w1) =
          run_tool_input_guardrails (or_else (dict_get tool.name env.input_guardrails) [])
            c.input_data
            (env.on_tool_start tool.name c.input_data (log ctx "tool_call_started" w)) in
        elim checked [
          | tripped name o ↦ (fault (GatewayFault.tripped name), w1)
          | passed results ↦ elim (rejection "Tool input rejected by guardrail" results) [
            | some blocked ↦ (done blocked, env.on_tool_end tool.name blocked w1)
            | none ↦ call_limited w1
          ]
        ]

    unfoldable pub call_admitted : GatewayWorld → GatewayResult × GatewayWorld
    call_admitted w =
        let (acquired, w1) = acquire_rate env.patience tool w in
        let (owned, w2) = set_waiting tool w1 in
        if not acquired
        then (fault GatewayFault.waiting, w1)
        else if not owned
        then (fault GatewayFault.run_canceled, w2)
        else call_started w2

    unfoldable pub call_tool : GatewayWorld → GatewayResult × GatewayWorld
    call_tool w =
        if not (env.conforms (schema_of tool.input_schema) (to_json c.input_data))
        then (fault GatewayFault.schema_mismatch, w)
        else let (gate, w1) = fallback_if_breaker_open tool w in
          elim gate [
            | closed ↦ call_admitted w1
            | broken ↦ (fault GatewayFault.breaker_open, w1)
            | fallback output ↦
                if env.conforms (schema_of tool.output_schema) output
                then (done output, w1)
                else (fault GatewayFault.schema_mismatch, w1)
          ]

  -- `call`, with the tools of the registry.
  unfoldable pub call :
      Dict ToolSpec → String → ToolCall → GatewayWorld → GatewayResult × GatewayWorld
  call tools tool_name c w = elim (Tools.get tool_name tools) [
    | Tools.refused e ↦ (fault (GatewayFault.refused e), w)
    | Tools.answered tool ↦ elim (Tools.validate_allowed tool ctx.agent_name) [
      | some e ↦ (fault (GatewayFault.refused e), w)
      | none ↦ call_tool tool c w
    ]
  ]

-- An entry of `circuit_breaker_metrics`.
pub record BreakerMetrics : Type 0 where
  pub enabled : Bool
  pub is_open : Bool
  pub failures : ℕ
  pub retry_after : ℕ
  pub config : Dict Json

abbrev is_not_false : Json → Bool
is_not_false (Json.boolean false) = false
is_not_false _ = true

abbrev is_not_empty : Dict Json → Bool
is_not_empty [] = false
is_not_empty _ = true

abbrev pub breaker_metrics : GatewayWorld → ToolSpec → BreakerMetrics
breaker_metrics w tool =
    let state = Resilience.snapshot tool.name w.breakers in
    record {
      enabled =
          is_not_empty tool.circuit_breaker
          && is_not_false (get_or "enabled" Json.null tool.circuit_breaker);
      is_open = ltb 0 (state.open_until - w.monotonic);
      failures = state.failures;
      retry_after = state.open_until - w.monotonic;
      config = tool.circuit_breaker;
    }

unfoldable pub circuit_breaker_metrics :
    List ToolSpec → GatewayWorld → List (String × BreakerMetrics)
circuit_breaker_metrics tools w =
    map (λ (tool : ToolSpec). (tool.name, breaker_metrics w tool)) tools
