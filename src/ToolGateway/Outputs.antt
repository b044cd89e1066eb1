-- ===== src/ToolGateway/Outputs.antt =====
-- What a call of a tool can answer: an output of its schema, or one of the gateway's own.
use agent_task_platform.Prelude.{
  String, ◌≡◌, refl, true, Option, none, some, List, [], ◌∷◌, string_eq, inl, inr, Bool-cases,
}
use agent_task_platform.Domain.Entities.{Dict, Json, or_else, truthy}
use agent_task_platform.Domain.Catalog.{ToolSpec}
use agent_task_platform.World.{dict_get}
use agent_task_platform.Guardrails.{
  Checked, passed, tripped, ToolGuardrailOutput, GuardrailBehavior, run_tool_output_guardrails,
}
use agent_task_platform.ToolProtocols.{Ended, answers, raises, cancels, to_json}
use agent_task_platform.ToolGateway.{
  GatewayWorld, ToolContext, GatewayEnvironment, ToolCall, GatewayResult, done, fault, complete,
}
use agent_task_platform.ToolGateway.Attempts.{
  attempt, after_invoke, accept, accept_judged, accept_checked, conclude, rejection, schema_of,
}

abbrev pub blocked_object : String → Json
blocked_object message =
    to_json (("_guardrail_blocked", Json.boolean true) ∷ ("message", Json.text message) ∷ [])

abbrev pub error_object : String → Json
error_object message =
    to_json (("_tool_error", Json.boolean true) ∷ ("error", Json.text message) ∷ [])

-- An output that the tool's schema accepts, the object of a guardrail that rejects, or the object of
-- a failure handler.
pub data IsAnswer (env : GatewayEnvironment) (tool : ToolSpec) (output : Json) : Type 0 where
  accepted : env.conforms (schema_of tool.output_schema) output ≡ true → IsAnswer env tool output
  blocked : (message : String) → output ≡ blocked_object message → IsAnswer env tool output
  failed : (message : String) → output ≡ error_object message → IsAnswer env tool output

-- A rejection answers the object of a guardrail.
pub record IsBlocked (output : Json) : Type 0 where
  pub message : String
  pub same : output ≡ blocked_object message

abbrev pub AllBlocked : Option Json → Type 0
AllBlocked none = Unit
AllBlocked (some output) = IsBlocked output

pub rejection-AllBlocked :
    (default : String) (results : List ToolGuardrailOutput) → AllBlocked (rejection default results)
rejection-AllBlocked default [] = tt
rejection-AllBlocked default (o ∷ rest) = by_behavior o.behavior (rejection-AllBlocked default rest)
  where
    by_behavior :
        (b : GuardrailBehavior)
        → AllBlocked (rejection default rest)
        → AllBlocked (elim b [
          | GuardrailBehavior.reject_content ↦
              some (blocked_object (or_else (truthy o.message) default))
          | _ ↦ rejection default rest
        ])
    by_behavior GuardrailBehavior.reject_content h = record {
      message = or_else (truthy o.message) default;
      same = refl;
    }
    by_behavior _ h = h

module _ (env : GatewayEnvironment) (ctx : ToolContext) (tool : ToolSpec) (c : ToolCall) where
  abbrev pub Answered : GatewayResult × GatewayWorld → Type 0
  Answered (done output, w) = IsAnswer env tool output
  Answered (fault f, w) = Unit {0}

  module _ (key : Option String) where
    abbrev pub AttemptAnswered : Ended Json × GatewayWorld → Type 0
    AttemptAnswered (answers output, w) = IsAnswer env tool output
    AttemptAnswered (raises e, w) = Unit {0}
    AttemptAnswered (cancels, w) = Unit {0}

    conclude-AttemptAnswered :
        (output : Json) (event_type : String) (w : GatewayWorld)
        → IsAnswer env tool output
        → AttemptAnswered (conclude env ctx tool c none key output event_type w)
    unfolding conclude
    conclude-AttemptAnswered output event_type w h =
        elim (Bool-cases (complete env ctx tool c none output w.store).0) [
          | inr e ↦ rw (e, conclude) tt
          | inl e ↦ rw (e, conclude) h
        ]

    judged-AttemptAnswered :
        (output : Dict Json) (blocked : Option Json) (w : GatewayWorld)
        → env.conforms (schema_of tool.output_schema) (to_json output) ≡ true
        → AllBlocked blocked
        → AttemptAnswered (accept_judged env ctx tool c none key output blocked w)
    judged-AttemptAnswered output none w e h =
        conclude-AttemptAnswered (to_json output) _ w (accepted e)
    judged-AttemptAnswered output (some b) w e h =
        conclude-AttemptAnswered b _ w (blocked h.message h.same)

    checked-AttemptAnswered :
        (output : Dict Json) (checked : Checked ToolGuardrailOutput ToolGuardrailOutput)
        (w : GatewayWorld)
        → env.conforms (schema_of tool.output_schema) (to_json output) ≡ true
        → AttemptAnswered (accept_checked env ctx tool c none key output (checked, w))
    checked-AttemptAnswered output (tripped name o) w e = tt
    checked-AttemptAnswered output (passed results) w e =
        judged-AttemptAnswered output (rejection "Tool output rejected by guardrail" results) w e
          (rejection-AllBlocked "Tool output rejected by guardrail" results)

    accept-AttemptAnswered :
        (output : Dict Json) (w : GatewayWorld)
        → AttemptAnswered (accept env ctx tool c none key output w)
    unfolding accept
    accept-AttemptAnswered output w =
        elim (Bool-cases (env.conforms (schema_of tool.output_schema) (to_json output))) [
          | inr e ↦ rw (e, accept) tt
          | inl e ↦
              rw (e, accept)
                (checked-AttemptAnswered output
                  (run_tool_output_guardrails
                    (or_else (dict_get tool.name env.output_guardrails) []) output w).0
                  _ e)
        ]

    after-AttemptAnswered :
        (e : Ended (Dict Json)) (w : GatewayWorld)
        → AttemptAnswered (after_invoke env ctx tool c none key (e, w))
    after-AttemptAnswered (answers output) w = accept-AttemptAnswered output w
    after-AttemptAnswered (raises e) w = tt
    after-AttemptAnswered cancels w = tt

    pub attempt-AttemptAnswered :
        (w : GatewayWorld) → AttemptAnswered (attempt env ctx tool c none key w)
    unfolding attempt
    attempt-AttemptAnswered w = after-AttemptAnswered _ _
