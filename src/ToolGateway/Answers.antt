-- ===== src/ToolGateway/Answers.antt =====
-- What a call of a tool that is not side-effecting answers, from its admission to its last attempt.
use agent_task_platform.Prelude.{
  ℕ, zero, suc, ◌+◌, String, ◌≡◌, refl, subst, Bool, true, false, not, Option, none, some, [],
  string_eq, inl, inr, Bool-cases, Option-cases, if◌then◌else◌,
}
use agent_task_platform.Domain.Entities.{Dict, Json, or_else}
use agent_task_platform.Domain.Catalog.{ToolSpec}
use agent_task_platform.World.{dict_get}
use agent_task_platform.Guardrails.{
  Checked, passed, tripped, ToolGuardrailOutput, run_tool_input_guardrails,
}
use agent_task_platform.Registry.Tools
use agent_task_platform.ToolProtocols.{Ended, answers, raises, cancels, to_json}
use agent_task_platform.ToolGateway.{
  GatewayWorld, ToolContext, GatewayEnvironment, ToolCall, GatewayResult, GatewayFault, done, fault,
  is_side_effecting, log,
}
use agent_task_platform.ToolGateway.Attempts.{
  call_with_retries, call_repeatable, needs_key, attempts_of, attempts_from, attempt, exhausted,
  rejection, schema_of, record_failed, backoff, on_cancelled,
}
use agent_task_platform.ToolGateway.Call.{
  call, call_tool, call_admitted, call_started, call_limited, fallback_if_breaker_open, Gate,
  closed, broken, fallback, acquire_rate, set_waiting,
}
use agent_task_platform.ToolGateway.Outputs.{
  IsAnswer, accepted, blocked, failed, Answered, AttemptAnswered, attempt-AttemptAnswered,
  AllBlocked, rejection-AllBlocked,
}

module _ (env : GatewayEnvironment) (ctx : ToolContext) (tool : ToolSpec) (c : ToolCall)
    (effect : is_side_effecting tool.operation_type ≡ false) where
  abbrev Good : GatewayResult × GatewayWorld → Type 0
  Good r = Answered env ctx tool c r

  exhausted-Good :
      (key : Option String) (last : String) (w : GatewayWorld)
      → Good (exhausted env ctx tool c none key last w)
  unfolding exhausted
  exhausted-Good key last w = elim (Option-cases (dict_get tool.name env.failure_handlers)) [
    | inl e ↦ rw (effect, e, exhausted) tt
    | inr (handler, e) ↦ rw (effect, e, exhausted) (failed (handler last c.input_data w).0 refl)
  ]

  from-Good :
      (left attempts number : ℕ) (key : Option String) (last : String) (w : GatewayWorld)
      → Good (attempts_from env ctx tool c none key attempts number left last w)
  unfolding attempts_from
  from-Good zero attempts number key last w = exhausted-Good key last w
  from-Good (suc left) attempts number key last w =
      by_end (attempt env ctx tool c none key w).0 (attempt env ctx tool c none key w).1
        (attempt-AttemptAnswered env ctx tool c key w)
        (λ x w1. from-Good left attempts (number + 1) key x (
          backoff env ctx tool c none key number attempts
            (record_failed env ctx tool c none key w1)))
    where
      by_end :
          (e : Ended Json) (w1 : GatewayWorld)
          → AttemptAnswered env ctx tool c key (e, w1)
          → ((x : String) (w2 : GatewayWorld)
              → Good (
                  attempts_from env ctx tool c none key attempts (number + 1) left x (
                    backoff env ctx tool c none key number attempts
                      (record_failed env ctx tool c none key w2))))
          → Good (elim e [
            | answers output ↦ (done output, w1)
            | cancels ↦ (on_cancelled env ctx tool c none key, w1)
            | raises x ↦ attempts_from env ctx tool c none key attempts (number + 1) left x (
                backoff env ctx tool c none key number attempts
                  (record_failed env ctx tool c none key w1))
          ])
      by_end (answers output) w1 h rest = h
      by_end cancels w1 h rest = rw effect tt
      by_end (raises x) w1 h rest = rest x w1

  fault-Good :
      (b : Bool) (f : GatewayFault) (w : GatewayWorld) (y : GatewayResult × GatewayWorld)
      → Good y
      → Good (if b then (fault f, w) else y)
  fault-Good true f w y h = tt
  fault-Good false f w y h = h

  call_with_retries-Good : (w : GatewayWorld) → Good (call_with_retries env ctx tool c w)
  unfolding call_with_retries call_repeatable
  call_with_retries-Good w =
      rw (effect, call_with_retries, call_repeatable)
        (fault-Good (needs_key env ctx tool c) GatewayFault.key_required w
          (attempts_from env ctx tool c none c.idempotency_key (attempts_of tool) 1
            (attempts_of tool) "" w)
          (from-Good (attempts_of tool) (attempts_of tool) 1 c.idempotency_key "" w))

  released-Good :
      (result : GatewayResult) (w w' : GatewayWorld) → Good (result, w) → Good (result, w')
  released-Good (done output) w w' h = h
  released-Good (fault f) w w' h = tt

  call_limited-Good : (w : GatewayWorld) → Good (call_limited env ctx tool c w)
  unfolding call_limited
  call_limited-Good w = by_slot env.slot
    where
      by_slot :
          (slot : Option (GatewayWorld → Bool × GatewayWorld))
          → Good (elim slot [
            | none ↦ call_with_retries env ctx tool c (env.on_semaphore w)
            | some acquire ↦
                let (acquired, w1) = acquire (env.on_semaphore w) in
                if not acquired
                then (fault GatewayFault.slot_unavailable, w1)
                else let (result, w2) = call_with_retries env ctx tool c w1 in
                  (result, env.release w2)
          ])
      by_slot none = call_with_retries-Good (env.on_semaphore w)
      by_slot (some acquire) =
          let w1 = (acquire (env.on_semaphore w)).1 in
          fault-Good (not (acquire (env.on_semaphore w)).0) GatewayFault.slot_unavailable w1
            (
              (call_with_retries env ctx tool c w1).0,
              env.release (call_with_retries env ctx tool c w1).1,
            )
            (released-Good (call_with_retries env ctx tool c w1).0 _ _ (call_with_retries-Good w1))

  judged-Good :
      (rejected : Option Json) (w : GatewayWorld)
      → AllBlocked rejected
      → Good (elim rejected [
        | some output ↦ (done output, env.on_tool_end tool.name output w)
        | none ↦ call_limited env ctx tool c w
      ])
  judged-Good none w h = call_limited-Good w
  judged-Good (some output) w h = blocked h.message h.same

  call_started-Good : (w : GatewayWorld) → Good (call_started env ctx tool c w)
  unfolding call_started
  call_started-Good w =
      by_check
        (run_tool_input_guardrails (or_else (dict_get tool.name env.input_guardrails) [])
          c.input_data (env.on_tool_start tool.name c.input_data (log ctx "tool_call_started" w))).0
        _
    where
      by_check :
          (checked : Checked ToolGuardrailOutput ToolGuardrailOutput) (w1 : GatewayWorld)
          → Good (elim checked [
            | tripped name o ↦ (fault (GatewayFault.tripped name), w1)
            | passed results ↦ elim (rejection "Tool input rejected by guardrail" results) [
              | some output ↦ (done output, env.on_tool_end tool.name output w1)
              | none ↦ call_limited env ctx tool c w1
            ]
          ])
      by_check (tripped name o) w1 = tt
      by_check (passed results) w1 =
          judged-Good (rejection "Tool input rejected by guardrail" results) w1
            (rejection-AllBlocked "Tool input rejected by guardrail" results)

  call_admitted-Good : (w : GatewayWorld) → Good (call_admitted env ctx tool c w)
  unfolding call_admitted
  call_admitted-Good w =
      let (acquired, w1) = acquire_rate env ctx env.patience tool w in
      let (owned, w2) = set_waiting env ctx tool w1 in
      fault-Good (not acquired) GatewayFault.waiting w1
        (if not owned
          then (fault GatewayFault.run_canceled, w2)
          else call_started env ctx tool c w2)
        (fault-Good (not owned) GatewayFault.run_canceled w2 (call_started env ctx tool c w2)
          (call_started-Good w2))

  call_tool-Good : (w : GatewayWorld) → Good (call_tool env ctx tool c w)
  unfolding call_tool
  call_tool-Good w =
      elim (Bool-cases (env.conforms (schema_of tool.input_schema) (to_json c.input_data))) [
        | inr e ↦ rw (e, call_tool) tt
        | inl e ↦
            rw (e, call_tool)
              (by_gate (fallback_if_breaker_open env ctx tool w).0
                (fallback_if_breaker_open env ctx tool w).1)
      ]
    where
      by_gate :
          (g : Gate) (w1 : GatewayWorld)
          → Good (elim g [
            | closed ↦ call_admitted env ctx tool c w1
            | broken ↦ (fault GatewayFault.breaker_open, w1)
            | fallback output ↦
                if env.conforms (schema_of tool.output_schema) output
                then (done output, w1)
                else (fault GatewayFault.schema_mismatch, w1)
          ])
      by_gate closed w1 = call_admitted-Good w1
      by_gate broken w1 = tt
      by_gate (fallback output) w1 =
          elim (Bool-cases (env.conforms (schema_of tool.output_schema) output)) [
            | inl e ↦ rw e (accepted e)
            | inr e ↦ rw e tt
          ]

-- Whatever a tool that is not side-effecting does, a call that returns answers an output that the
-- tool's schema accepts, the object that says that a guardrail blocked it, or the object of a failure
-- handler's message: so also the fallback of an open circuit breaker.
pub call_answers_typed :
    (env : GatewayEnvironment) (ctx : ToolContext) (tools : Dict ToolSpec) (tool : ToolSpec)
    (name : String) (c : ToolCall) (w : GatewayWorld) (output : Json)
    → Tools.get name tools ≡ Tools.answered tool
    → is_side_effecting tool.operation_type ≡ false
    → (call env ctx tools name c w).0 ≡ done output
    → IsAnswer env tool output
unfolding call
call_answers_typed env ctx tools tool name c w output found effect h =
    subst (λ r. Answered env ctx tool c (r, (call env ctx tools name c w).1)) h
      (answered (Tools.validate_allowed tool ctx.agent_name) refl)
  where
    answered :
        (e : Option Tools.ToolError)
        → Tools.validate_allowed tool ctx.agent_name ≡ e
        → Answered env ctx tool c (call env ctx tools name c w)
    answered none e = rw (found, e, call) (call_tool-Good env ctx tool c effect w)
    answered (some x) e = rw (found, e, call) tt
