-- ===== src/ToolGateway/Attempts.antt =====
-- framework/tool/tools.py, `ToolGateway._call_with_retries`: the attempts of a call.
use agent_task_platform.Prelude.{
  ℕ, zero, suc, ◌+◌, ◌*◌, String, Bool, true, false, not, ◌&&◌, Option, none, some, List, [], ◌∷◌,
  ◌==◌, string_eq, if◌then◌else◌, max, ltb,
}
use agent_task_platform.Domain.Entities.{Dict, Json, or_else, truthy}
use agent_task_platform.Domain.Catalog.{ToolSpec}
use agent_task_platform.World.{dict_get}
use agent_task_platform.Resilience
use agent_task_platform.Guardrails.{
  Checked, passed, tripped, ToolGuardrailOutput, GuardrailBehavior, run_tool_output_guardrails,
}
use agent_task_platform.ToolProtocols.{
  Ended, answers, raises, cancels, entries, Protocols, get_or, str, to_json,
}
use agent_task_platform.ToolProtocols.Invoke.{invoke}
use agent_task_platform.ToolGateway.{
  GatewayWorld, ToolContext, GatewayEnvironment, ToolCall, GatewayResult, GatewayFault, done, fault,
  Operation, Prepared, cached, claimed, unknown_outcome, is_side_effecting, is_idempotent,
  with_store, log, prepare, complete,
}

-- `schema or {"type": "object"}`
abbrev pub schema_of : Dict Json → Dict Json
schema_of [] = ("type", Json.text "object") ∷ []
schema_of schema = schema

-- The first result that rejects the content, with the message it answers.
abbrev pub rejection : String → List ToolGuardrailOutput → Option Json
rejection default [] = none
rejection default (o ∷ rest) = elim o.behavior [
  | GuardrailBehavior.reject_content ↦ some (
      to_json (
        ("_guardrail_blocked", Json.boolean true)
        ∷ ("message", Json.text (or_else (truthy o.message) default))
        ∷ []))
  | _ ↦ rejection default rest
]

abbrev header_value : {W : Type 0} → Protocols W → String → Json → Option String
header_value p key (Json.object fs) = elim (get_or key Json.null (entries fs)) [
  | Json.null ↦ none
  | j ↦ some (str p j)
]
header_value p key j = none

-- `_business_code`
unfoldable pub business_code : {W : Type 0} → Protocols W → Dict Json → Option String
business_code p output = header_value p "code" (get_or "header" Json.null output)

-- `_business_message`
abbrev pub business_message : {W : Type 0} → Protocols W → Dict Json → Option String
business_message p output = header_value p "message" (get_or "header" Json.null output)

-- `_is_business_success`
unfoldable pub is_business_success : Option String → Bool
is_business_success none = true
is_business_success (some code) = code == "000000"

module _ (env : GatewayEnvironment) (ctx : ToolContext) (tool : ToolSpec) (c : ToolCall)
    (op : Option Operation) (key : Option String) where
  abbrev pub success_event : Dict Json → String
  success_event output =
      if is_business_success (business_code env.protocols output)
      then "tool_call_succeeded"
      else "tool_call_business_failed"

  -- The output is committed, and then the success is recorded.
  unfoldable pub conclude : Json → String → GatewayWorld → Ended Json × GatewayWorld
  conclude output event_type w =
      let (completed, s) = complete env ctx tool c op output w.store in
      if completed
      then (
        answers output,
        env.on_tool_end tool.name output (
            log ctx event_type
              (record w { store = s; breakers = Resilience.record_success tool.name w.breakers })),
      )
      else (raises "SideEffectOutcomeUnknownError", with_store s w)

  abbrev pub accept_judged : Dict Json → Option Json → GatewayWorld → Ended Json × GatewayWorld
  accept_judged output (some blocked) w = conclude blocked "tool_output_rejected" w
  accept_judged output none w = conclude (to_json output) (success_event output) w

  abbrev pub accept_checked :
      Dict Json
      → Checked ToolGuardrailOutput ToolGuardrailOutput × GatewayWorld
      → Ended Json × GatewayWorld
  accept_checked output (tripped name o, w) = (raises "ToolOutputGuardrailTripwireTriggered", w)
  accept_checked output (passed results, w) =
      accept_judged output (rejection "Tool output rejected by guardrail" results) w

  -- The tool has answered.
  unfoldable pub accept : Dict Json → GatewayWorld → Ended Json × GatewayWorld
  accept output w =
      if not (env.conforms (schema_of tool.output_schema) (to_json output))
      then (raises "RegistryError", w)
      else accept_checked output (
          run_tool_output_guardrails (or_else (dict_get tool.name env.output_guardrails) []) output
            w)

  abbrev pub after_invoke : Ended (Dict Json) × GatewayWorld → Ended Json × GatewayWorld
  after_invoke (answers output, w) = accept output w
  after_invoke (raises e, w) = (raises e, w)
  after_invoke (cancels, w) = (cancels, w)

  -- The body of the `try`.
  unfoldable pub attempt : GatewayWorld → Ended Json × GatewayWorld
  attempt w = after_invoke (
      invoke env.protocols tool.endpoint c.input_data tool.timeout_seconds key
        tool.idempotency_key_header w)

  -- The exception of an attempt, counted.
  abbrev pub record_failed : GatewayWorld → GatewayWorld
  record_failed w = log ctx "tool_call_failed" (record w {
    breakers =
        (Resilience.record_failure env.second tool.name (env.breaker_config tool.circuit_breaker)
          w.monotonic w.breakers).1;
  })

  abbrev pub backoff : ℕ → ℕ → GatewayWorld → GatewayWorld
  backoff number attempts w =
      if ltb number attempts then env.sleep (tool.retry_policy.backoff_seconds * number) w else w

  abbrev error_output : String → Json
  error_output message =
      to_json (("_tool_error", Json.boolean true) ∷ ("error", Json.text message) ∷ [])

  -- The retries are exhausted, with the last exception.
  unfoldable pub exhausted : String → GatewayWorld → GatewayResult × GatewayWorld
  exhausted last w =
      if is_side_effecting tool.operation_type
      then (fault (GatewayFault.outcome_unknown tool.name), w)
      else elim (dict_get tool.name env.failure_handlers) [
        | none ↦ (fault (GatewayFault.tool_failed last), w)
        | some handler ↦
            let (message, w1) = handler last c.input_data w in
            (done (error_output message), env.on_tool_end tool.name (error_output message) w1)
      ]

  -- `except asyncio.CancelledError`
  abbrev pub on_cancelled : GatewayResult
  on_cancelled =
      if is_side_effecting tool.operation_type
      then fault (GatewayFault.outcome_unknown tool.name)
      else fault GatewayFault.stopped

  -- The attempts from a number on, `left` of them, after the exception `last`.
  unfoldable pub attempts_from : ℕ → ℕ → ℕ → String → GatewayWorld → GatewayResult × GatewayWorld
  attempts_from attempts number zero last w = exhausted last w
  attempts_from attempts number (suc left) last w =
      let (e, w1) = attempt w in
      elim e [
        | answers output ↦ (done output, w1)
        | cancels ↦ (on_cancelled, w1)
        | raises x ↦
            attempts_from attempts (number + 1) left x (backoff number attempts (record_failed w1))
      ]

-- `max(1, tool.retry_policy.max_attempts)`; a side effect has one.
unfoldable pub attempts_of : ToolSpec → ℕ
attempts_of tool =
    if is_side_effecting tool.operation_type then 1 else max 1 tool.retry_policy.max_attempts

module _ (env : GatewayEnvironment) (ctx : ToolContext) (tool : ToolSpec) (c : ToolCall) where
  abbrev pub run_attempts :
      Option Operation → Option String → GatewayWorld → GatewayResult × GatewayWorld
  run_attempts op key w =
      attempts_from env ctx tool c op key (attempts_of tool) 1 (attempts_of tool) "" w

  abbrev is_some : Option String → Bool
  is_some none = false
  is_some (some t) = true

  abbrev pub needs_key : Bool
  needs_key =
      is_idempotent tool.operation_type
      && (is_some (truthy tool.idempotency_key_header) && not (is_some (truthy c.idempotency_key)))

  -- A tool that is not side-effecting.
  unfoldable pub call_repeatable : GatewayWorld → GatewayResult × GatewayWorld
  call_repeatable w =
      if needs_key
      then (fault GatewayFault.key_required, w)
      else run_attempts none c.idempotency_key w

  abbrev pub call_prepared : Prepared → GatewayWorld → GatewayResult × GatewayWorld
  call_prepared (cached output) w = (done output, w)
  call_prepared unknown_outcome w = (fault (GatewayFault.outcome_unknown tool.name), w)
  call_prepared (claimed o) w = run_attempts (some o) (some o.idempotency_key) w

  -- `_call_with_retries`
  unfoldable pub call_with_retries : GatewayWorld → GatewayResult × GatewayWorld
  call_with_retries w =
      if not (is_side_effecting tool.operation_type)
      then call_repeatable w
      else let (p, s) = prepare env ctx tool c w.store in call_prepared p (with_store s w)
