-- ===== src/ToolGateway.antt =====
-- framework/tool/tools.py, `ToolGateway`: its state, and the durable operation of a side-effecting tool.
-- The hashes, the serializer and the schema check are libraries'; guardrails, failure handlers and
-- hooks are registered from outside, and may change the world as other tasks do while they are awaited.
pub mod Attempts
pub mod Call
pub mod Effects
pub mod Committed
pub mod Replay
pub mod Failures
pub mod Outputs
pub mod Answers
use agent_task_platform.Prelude.{
  ℕ, String, Bool, true, false, not, ◌&&◌, ◌||◌, Option, none, some, List, [], ◌∷◌, ◌==◌, string_eq,
  if◌then◌else◌,
}
use Prim.Native.String.{◌++◌}
use agent_task_platform.Prelude.Int.{negsuc}
use agent_task_platform.Domain.Status.{StageStatus}
use agent_task_platform.Domain.Entities.{AgentStage, Dict, Json, or_else, truthy}
use agent_task_platform.Domain.Catalog.{ToolSpec, OperationType}
use agent_task_platform.Store.State.{Store, add_log}
use agent_task_platform.Store.Stages
use agent_task_platform.Resilience.{BreakerState, BreakerConfig}
use agent_task_platform.Guardrails.{Guardrail, ToolGuardrailOutput}
use agent_task_platform.Registry.Tools.{ToolError}
use agent_task_platform.ToolProtocols.{Protocols}

-- The store, the windows of `_qps` and the states of `_breaker`, and the reading of the clock.
pub record GatewayWorld : Type 0 where
  pub store : Store
  pub windows : Dict (List ℕ)
  pub breakers : Dict BreakerState
  pub monotonic : ℕ

-- What the gateway reads of `AgentContext`.
pub record ToolContext : Type 0 where
  pub run_id : String
  pub trace_id : String
  pub worker : Option String
  pub agent_name : String
  pub agent_version : String

pub record GatewayEnvironment : Type 0 where
  pub protocols : Protocols GatewayWorld
  -- the ticks of a second, and the turns that a call waits for its rate at most
  pub second : ℕ
  pub patience : ℕ
  pub conforms : Dict Json → Json → Bool
  pub breaker_config : Dict Json → Option BreakerConfig
  pub input_guardrails : Dict (List (Guardrail GatewayWorld ToolGuardrailOutput))
  pub output_guardrails : Dict (List (Guardrail GatewayWorld ToolGuardrailOutput))
  pub failure_handlers : Dict (String → Dict Json → GatewayWorld → String × GatewayWorld)
  pub on_tool_start : String → Dict Json → GatewayWorld → GatewayWorld
  pub on_tool_end : String → Json → GatewayWorld → GatewayWorld
  pub sleep : ℕ → GatewayWorld → GatewayWorld
  -- the waiting for the semaphore, and the slot of a backend whose scope is not the process
  pub on_semaphore : GatewayWorld → GatewayWorld
  pub slot : Option (GatewayWorld → Bool × GatewayWorld)
  pub release : GatewayWorld → GatewayWorld
  -- `hexdigest`, the 32 digits it begins with, the number of the first 7, and `json.dumps`
  pub digest : String → String
  pub first_32 : String → String
  pub first_7 : String → ℕ
  pub dumps : Dict Json → String

-- The arguments of `call`, with the ids that are generated for it.
pub record ToolCall : Type 0 where
  pub input_data : Dict Json
  pub idempotency_key : Option String
  pub stage_id : String
  pub execution_id : String

-- What `call` raises. A call that is `waiting` still waits for its rate.
pub data GatewayFault : Type 0 where
  refused : ToolError → GatewayFault
  schema_mismatch key_required breaker_open run_canceled slot_unavailable stopped waiting :
      GatewayFault
  tripped outcome_unknown tool_failed : String → GatewayFault

pub data GatewayResult : Type 0 where
  done : Json → GatewayResult
  fault : GatewayFault → GatewayResult

abbrev pub is_side_effecting : OperationType → Bool
is_side_effecting OperationType.side_effecting = true
is_side_effecting _ = false

abbrev pub is_idempotent : OperationType → Bool
is_idempotent OperationType.idempotent = true
is_idempotent _ = false

abbrev pub with_store : Store → GatewayWorld → GatewayWorld
with_store s w = record w { store = s }

abbrev pub log : ToolContext → String → GatewayWorld → GatewayWorld
log ctx event_type w =
    with_store (add_log ctx.run_id ctx.trace_id "tool_gateway" event_type w.store) w

-- The identity of a durable operation, as `_prepare_side_effect_operation` hands it on.
pub record Operation : Type 0 where
  pub stage_key : String
  pub idempotency_key : String
  pub execution_id : String

-- What the preparation comes to: a stored output, the operation to execute, or
-- `SideEffectOutcomeUnknownError`.
pub data Prepared : Type 0 where
  cached : Json → Prepared
  claimed : Operation → Prepared
  unknown_outcome : Prepared

module _ (env : GatewayEnvironment) (tool : ToolSpec) (c : ToolCall) where
  abbrev pub operation_hash : String
  operation_hash =
      env.digest (
        or_else (truthy c.idempotency_key)
          (tool.name ++ ":" ++ env.digest (env.dumps c.input_data)))

  unfoldable pub operation_key : String
  operation_key = "tool:" ++ tool.name ++ ":" ++ env.first_32 operation_hash

module _ (env : GatewayEnvironment) (ctx : ToolContext) (tool : ToolSpec) (c : ToolCall) where
  abbrev pub durable_key : String
  durable_key = ctx.run_id ++ ":" ++ operation_key env tool c

  unfoldable pub operation_stage : ℕ → AgentStage
  operation_stage now = record {
    stage_id = c.stage_id;
    run_id = ctx.run_id;
    trace_id = ctx.trace_id;
    agent_name = ctx.agent_name;
    agent_version = ctx.agent_version;
    stage_key = operation_key env tool c;
    stage_index = negsuc (env.first_7 (operation_hash env tool c));
    schema_version = "1";
    definition_version = "1";
    status = StageStatus.pending;
    run_attempt = 0;
    attempts = 0;
    max_attempts = 1;
    execution_id = none;
    idempotency_key = durable_key;
    input_hash = env.digest (env.dumps c.input_data);
    output = Json.null;
    checkpoint = none;
    error_type = none;
    error_message = none;
    create_time = now;
    update_time = now;
    start_time = none;
    finish_time = none;
  }

  abbrev pub operation : String → Operation
  operation execution_id = record {
    stage_key = operation_key env tool c;
    idempotency_key = durable_key;
    execution_id = execution_id;
  }

  -- `begin_side_effect_once` has answered: the operation is marked as sent.
  abbrev pub dispatch : Option AgentStage → Store → Prepared × Store
  dispatch none s = (unknown_outcome, s)
  dispatch (some row) s =
      let (sent, s1) = Stages.mark_side_effect_dispatched ctx.run_id durable_key c.execution_id s in
      (if sent then claimed (operation c.execution_id) else unknown_outcome, s1)

  abbrev pub claim : Store → Prepared × Store
  claim s =
      let (active, s1) =
        Stages.begin_side_effect_once ctx.run_id (operation_key env tool c) c.execution_id s in
      dispatch active s1

  -- A stored output that is null is none.
  abbrev pub stored : AgentStage → Prepared
  stored row = elim row.output [
    | Json.null ↦ claimed (operation (or_else row.execution_id ""))
    | output ↦ cached output
  ]

  -- From the row that `get_or_create` gives.
  unfoldable pub prepare_row : AgentStage → Store → Prepared × Store
  prepare_row row s = elim row.status [
    | StageStatus.succeeded ↦ (stored row, s)
    | StageStatus.running ↦ (unknown_outcome, s)
    | StageStatus.outcome_unknown ↦ (unknown_outcome, s)
    | _ ↦ claim s
  ]

  -- `_prepare_side_effect_operation`
  unfoldable pub prepare : Store → Prepared × Store
  prepare s = let (row, s1) = Stages.get_or_create (operation_stage s.clock) s in prepare_row row s1

  abbrev pub is_named : Operation → Bool
  is_named o = not (o.stage_key == "" || (o.idempotency_key == "" || o.execution_id == ""))

  -- The two updates that commit an output; false is `SideEffectOutcomeUnknownError`.
  unfoldable pub commit : Operation → Json → Store → Bool × Store
  commit o output s =
      let (returned, s1) =
        Stages.mark_side_effect_returned ctx.run_id o.idempotency_key o.execution_id s in
      if returned
      then Stages.mark_succeeded ctx.run_id o.stage_key o.execution_id output s1
      else (false, s1)

  -- `_complete_side_effect_operation`
  unfoldable pub complete : Option Operation → Json → Store → Bool × Store
  complete o output s = if not (is_side_effecting tool.operation_type) then (true, s) else elim o [
    | none ↦ (false, s)
    | some op ↦ if is_named op then commit op output s else (false, s)
  ]
