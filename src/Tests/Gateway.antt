-- ===== src/Tests/Gateway.antt =====
-- The claims on the tool gateway, at tools that echo their input and one that cannot be called.
use agent_task_platform.Prelude.{
  String, ◌≡◌, refl, true, false, none, some, [], ◌∷◌, string_eq, pair_eq, option_eq, max, contains,
}
use agent_task_platform.Domain.Status.{StageStatus, run_status_beq, stage_status_beq}
use agent_task_platform.Domain.Entities.{AgentStage, Dict, Json, JsonFields}
use agent_task_platform.Domain.Catalog.{ToolSpec, OperationType}
use agent_task_platform.Table.{find, update_where, rowcount}
use agent_task_platform.Store.State.{Store, StagesUnique}
use agent_task_platform.Store.Runs
use agent_task_platform.Store.Stages
use agent_task_platform.World.{dict_get, dict_set}
use agent_task_platform.Resilience
use agent_task_platform.Resilience.{BreakerConfig}
use agent_task_platform.Guardrails
use agent_task_platform.Registry.Tools
use agent_task_platform.ToolProtocols.{Protocols, raises, invoke_builtin}
use agent_task_platform.ToolProtocols.Invoke.{invoke}
use agent_task_platform.ToolGateway.{
  GatewayWorld, ToolContext, GatewayEnvironment, ToolCall, GatewayFault, done, fault, operation_key,
  operation_stage, prepare, prepare_row, complete, commit,
}
use agent_task_platform.ToolGateway.Attempts.{
  call_with_retries, call_repeatable, attempts_of, attempts_from, attempt, accept, conclude,
  business_code, is_business_success,
}
use agent_task_platform.ToolGateway.Call.{
  call, call_tool, call_admitted, call_started, call_limited, fallback_if_breaker_open,
  acquire_rate, set_waiting,
}
use agent_task_platform.ToolGateway.Outputs.{IsAnswer}
use agent_task_platform.ToolGateway.Answers.{call_answers_typed}
use agent_task_platform.ToolGateway.Effects.{touched_effect_not_repeated}
use agent_task_platform.ToolGateway.Replay.{KeepsEffect, answered_effect_replays}
use agent_task_platform.ToolGateway.Failures.{FailedEnds, IsFailing, failing_call_opens_breaker}
use agent_task_platform.Tests.Data.{store, stage_of, policy, store-StagesUnique}

abbrev endpoint_tool : String → OperationType → Dict Json → ToolSpec
endpoint_tool name operation endpoint = record {
  name = name;
  description = "";
  version = "1";
  input_schema = [];
  output_schema = [];
  endpoint = endpoint;
  timeout_seconds = 30;
  max_concurrency = 10;
  qps = none;
  retry_policy = policy;
  operation_type = operation;
  idempotency_key_header = none;
  allowed_agents = [];
  enabled = true;
  owner = none;
  circuit_breaker = [];
  managed_by = "yaml";
  updated_by = none;
}

abbrev reader : ToolSpec
reader = endpoint_tool "read" OperationType.read_only []

abbrev sender : ToolSpec
sender = endpoint_tool "send" OperationType.side_effecting []

abbrev lost_tool : ToolSpec
lost_tool = endpoint_tool "lost" OperationType.read_only (("protocol", Json.text "none") ∷ [])

abbrev libraries : Protocols GatewayWorld
libraries = record {
  imported = λ target w. (raises "ImportError", w);
  mcp_sessions = [];
  is_allowed = λ url. true;
  request = λ r w. (raises "ConnectError", w);
  repr = λ j. "";
  upper = λ s. s;
  b64encode = λ s. s;
  is_zero = λ n. false;
}

abbrev breaker : BreakerConfig
breaker = record { enabled = none; failure_threshold = some 2; cooldown = some 60 }

abbrev gateway : GatewayEnvironment
gateway = record {
  protocols = libraries;
  second = 10;
  patience = 1;
  conforms = λ schema j. true;
  breaker_config = λ d. some breaker;
  input_guardrails = [];
  output_guardrails = [];
  failure_handlers = [];
  on_tool_start = λ name input_data w. w;
  on_tool_end = λ name output w. w;
  sleep = λ ticks w. w;
  on_semaphore = λ w. w;
  slot = none;
  release = λ w. w;
  digest = λ s. s;
  first_32 = λ s. s;
  first_7 = λ s. 0;
  dumps = λ d. "";
}

abbrev context : ToolContext
context = record {
  run_id = "leased";
  trace_id = "trace";
  worker = some "alice";
  agent_name = "writer";
  agent_version = "1";
}

abbrev tool_call : String → ToolCall
tool_call token = record {
  input_data = [];
  idempotency_key = some "mail";
  stage_id = "new";
  execution_id = token;
}

abbrev gateway_world : Store → GatewayWorld
gateway_world s = record { store = s; windows = []; breakers = []; monotonic = 5 }

abbrev echoed : Json
echoed = Json.object (JsonFields.field "echo" (Json.object JsonFields.end) JsonFields.end)

reader_answers :
    (call gateway context (("read", reader) ∷ []) "read" (tool_call "t1") (gateway_world store)).0
    ≡ done echoed
unfolding call call_tool call_admitted call_started call_limited fallback_if_breaker_open
    acquire_rate set_waiting call_with_retries call_repeatable attempts_of attempts_from attempt
    accept conclude business_code is_business_success invoke invoke_builtin complete dict_get
    dict_set find Runs.update_if_current Runs.is_current rowcount update_where run_status_beq
    contains Tools.get Tools.validate_allowed Resilience.acquire Resilience.record_success
    Guardrails.run_guardrails
reader_answers = refl

call_answers_typed_example : IsAnswer gateway reader echoed
call_answers_typed_example =
    call_answers_typed gateway context (("read", reader) ∷ []) reader "read" (tool_call "t1")
      (gateway_world store) echoed (unfold Tools.get dict_get in refl) refl reader_answers

abbrev sent_once : AgentStage
sent_once = stage_of "leased" "tool:send:mail" StageStatus.running (some "t1") none

abbrev sent_store : Store
sent_store = record store { stages = sent_once ∷ [] }

sent_store-StagesUnique : StagesUnique sent_store
unfolding find
sent_store-StagesUnique = (refl, tt)

found_once :
    Stages.get "leased" (operation_key gateway sender (tool_call "t2")) sent_store ≡ some sent_once
unfolding find operation_key
found_once = refl

touched_effect_not_repeated_example :
    call_with_retries gateway context sender (tool_call "t2") (gateway_world sent_store)
    ≡ (fault (GatewayFault.outcome_unknown "send"), gateway_world sent_store)
touched_effect_not_repeated_example =
    touched_effect_not_repeated gateway context sender (tool_call "t2") sent_once
      (gateway_world sent_store) refl sent_store-StagesUnique found_once refl refl

-- The world after a first call, which sends.
abbrev after_sending : GatewayWorld
after_sending = (call_with_retries gateway context sender (tool_call "t1") (gateway_world store)).1

first_call_answers :
    (call_with_retries gateway context sender (tool_call "t1") (gateway_world store)).0
    ≡ done echoed
unfolding call_with_retries prepare prepare_row Stages.get_or_create find operation_stage
    operation_key Stages.begin_side_effect_once rowcount update_where Stages.begun_once
    Stages.mark_side_effect_dispatched stage_status_beq attempts_from attempts_of attempt invoke
    dict_get Guardrails.run_guardrails contains Resilience.record_success
    Stages.mark_side_effect_returned Stages.mark_succeeded Stages.succeeded Stages.update_active
    accept business_code conclude is_business_success commit complete invoke_builtin dict_set
first_call_answers = refl

after_sending-StagesUnique : StagesUnique after_sending.store
unfolding call_with_retries prepare prepare_row Stages.get_or_create find operation_stage
    operation_key Stages.begin_side_effect_once rowcount update_where Stages.begun_once
    Stages.mark_side_effect_dispatched stage_status_beq attempts_from attempts_of attempt invoke
    dict_get Guardrails.run_guardrails contains Resilience.record_success
    Stages.mark_side_effect_returned Stages.mark_succeeded Stages.succeeded Stages.update_active
    accept business_code conclude is_business_success commit complete invoke_builtin dict_set
after_sending-StagesUnique = (refl, (refl, (refl, tt)))

gateway-KeepsEffect : KeepsEffect gateway context sender (tool_call "t1")
unfolding invoke invoke_builtin dict_get Guardrails.run_guardrails
gateway-KeepsEffect = record {
  invoked = λ key w u. u;
  guarded = λ output w u. u;
  hooked = λ output w row h. h;
}

-- A later execution, by a gateway that has lost its tools.
answered_effect_replays_example :
    call_with_retries gateway context sender (tool_call "t2") after_sending
    ≡ (done echoed, after_sending)
unfolding operation_key
answered_effect_replays_example =
    answered_effect_replays gateway gateway context context sender sender (tool_call "t1")
      (tool_call "t2") (gateway_world store) after_sending echoed refl refl gateway-KeepsEffect
      store-StagesUnique first_call_answers refl refl after_sending-StagesUnique refl

lost_tool-IsFailing : IsFailing gateway context lost_tool (tool_call "t1") breaker
unfolding attempt invoke dict_get
lost_tool-IsFailing = record {
  message = λ w. "RegistryError";
  raised = λ w. refl;
  kept = λ w. refl;
  slept = λ ticks w. refl;
  configured = refl;
  on = refl;
  unhandled = refl;
}

failing_call_opens_breaker_example :
    FailedEnds 10 lost_tool breaker
      (max 1 3)
      (gateway_world store)
      (call_with_retries gateway context lost_tool (tool_call "t1") (gateway_world store))
failing_call_opens_breaker_example =
    failing_call_opens_breaker gateway context lost_tool (tool_call "t1") breaker
      (gateway_world store) refl lost_tool-IsFailing
