-- ===== src/Tests/Data.antt =====
-- A store with a queued and an executing run, a sent side effect, and services that answer at once.
use agent_task_platform.Prelude.{
  ℕ, string_eq, pair_eq, String, ◌≡◌, refl, Bool, false, Option, none, some, [], ◌∷◌,
}
use agent_task_platform.Prelude.Int.{ℤ, pos}
use agent_task_platform.Domain.Status.{RunStatus, CallbackStatus, StageStatus}
use agent_task_platform.Domain.Entities.{
  AgentRun, AgentSpec, AgentStage, CallbackDelivery, Json, JsonFields, RetryPolicy,
}
use agent_task_platform.Store.State.{Store, RunsUnique, StagesUnique, run_key, stage_key}
use agent_task_platform.Table.{find}
use agent_task_platform.Callback.{Services, CallbackSettings}
use agent_task_platform.Callback.Deliver.{Answer, Network}
use agent_task_platform.World.{World}
use agent_task_platform.Executor.Outcome.{Environment, Outcome}
use agent_task_platform.Submission.{RunSubmission, FreshIds}

abbrev pub run_of : String → RunStatus → Option String → Option ℕ → ℕ → AgentRun
run_of id status worker lease attempts = record {
  run_id = id;
  conversation_id = none;
  trace_id = "trace";
  route_tag = "report";
  caller = "desk";
  request_id = id;
  input = [];
  files = [];
  callback = none;
  priority = ℤ.pos 5;
  timeout_seconds = none;
  metadata = [];
  agent = none;
  skill_snapshots = [];
  status = status;
  current_step = none;
  attempts = attempts;
  max_attempts = 3;
  dead_letter_reason = none;
  worker = worker;
  lease_expire_time = lease;
  output = none;
  error_type = none;
  error_message = none;
  callback_status = CallbackStatus.pending;
  callback_event_id = none;
  create_time = 1;
  update_time = 1;
  queue_time = some 1;
  run_after = some 1;
  start_time = none;
  finish_time = none;
}

abbrev pub queued_run : AgentRun
queued_run = run_of "queued" RunStatus.queued none none 0

abbrev pub leased_run : AgentRun
leased_run = run_of "leased" RunStatus.running (some "alice") (some 100) 1

abbrev pub lost_run : AgentRun
lost_run = run_of "lost" RunStatus.running (some "alice") (some 5) 2

abbrev pub failed_run : AgentRun
failed_run = run_of "failed" RunStatus.failed none none 3

abbrev pub canceled_run : AgentRun
canceled_run = run_of "canceled" RunStatus.canceled none none 1

abbrev pub stage_of : String → String → StageStatus → Option String → Option String → AgentStage
stage_of run key status execution_id error_type = record {
  stage_id = "stage";
  run_id = run;
  trace_id = "trace";
  agent_name = "writer";
  agent_version = "1";
  stage_key = key;
  stage_index = pos 0;
  schema_version = "1";
  definition_version = "1";
  status = status;
  run_attempt = 1;
  attempts = 1;
  max_attempts = 3;
  execution_id = execution_id;
  idempotency_key = key;
  input_hash = "";
  output = Json.null;
  checkpoint = none;
  error_type = error_type;
  error_message = none;
  create_time = 1;
  update_time = 1;
  start_time = some 1;
  finish_time = none;
}

abbrev pub sent_stage : AgentStage
sent_stage =
    stage_of "leased" "mail" StageStatus.outcome_unknown (some "t1")
      (some "SIDE_EFFECT_OUTCOME_UNKNOWN")

abbrev pub failed_stage : AgentStage
failed_stage = stage_of "failed" "draft" StageStatus.failed (some "t0") (some "ERROR")

abbrev pub delivery : CallbackDelivery
delivery = record {
  event_id = "event";
  run_id = "failed";
  trace_id = "trace";
  url = "https://desk";
  status = CallbackStatus.pending;
  attempts = 0;
  last_error = none;
  run_after = 1;
  worker = none;
  lease_expire_time = none;
  payload = [];
  create_time = 1;
  update_time = 1;
}

abbrev pub store : Store
store = record {
  runs = queued_run ∷ leased_run ∷ lost_run ∷ failed_run ∷ canceled_run ∷ [];
  stages = sent_stage ∷ failed_stage ∷ [];
  callbacks = delivery ∷ [];
  conversations = [];
  logs = [];
  clock = 10;
}

abbrev pub world : World
world = record {
  store = store;
  cancellation_events = ("leased", false) ∷ [];
  child_runs_by_parent = ("leased", "queued" ∷ []) ∷ [];
  background = "leased" ∷ [];
}

abbrev pub policy : RetryPolicy
policy = record { max_attempts = 3; backoff_seconds = 2; backoff_type = "exponential" }

abbrev pub writer : AgentSpec
writer = record {
  name = "writer";
  version = "1";
  route_tags = "report" ∷ [];
  skills = [];
  max_concurrency = 1;
  timeout_seconds = 60;
  retry_policy = policy;
  enabled = Bool.true;
}

abbrev pub settings : CallbackSettings
settings = record {
  timeout_seconds = 5;
  max_attempts = 3;
  backoff_seconds = 1;
  backoff_type = "exponential";
}

abbrev pub services : Services
services = record { settings = settings; isoformat = λ t. "now"; refuse_url = λ url. none }

-- The receiver acknowledges every delivery.
abbrev pub network : Network
network = record {
  post = λ d s. (
    Answer.responded
        (some (Json.object (JsonFields.field "ackStatus" (Json.text "RECEIVED") JsonFields.end))),
    s,
  );
  sleep = λ n s. s;
  ack_text = λ v. "Callback ack is not RECEIVED";
  on_callback_end = λ b d s. (none, s);
}

-- The agent returns an empty output.
abbrev pub environment : Environment
environment = record {
  run = λ agent run w. (Outcome.returned [], w);
  invalid_output = λ agent output. none;
  sleep = λ n w. w;
  on_run_dequeued = λ run w. w;
  on_run_end = λ run w. w;
  handle = λ kind run w. (none, w);
  services = services;
  new_event_id = λ w. "event";
  timeout_text = λ n. "Run timed out";
  unknown_run = λ run_id. "'Unknown run_id'";
}

abbrev pub submission : String → RunSubmission
submission request_id = record {
  route_tag = "report";
  request_id = request_id;
  external_id = none;
  task_type = none;
  source = none;
  conversation_id = none;
  input = [];
  files = [];
  callback = none;
  priority = ℤ.pos 5;
  timeout_seconds = none;
  metadata = [];
  caller = "desk";
  agent_version = none;
}

abbrev pub fresh_ids : FreshIds
fresh_ids = record { run_id = "new"; trace_id = "trace"; conversation_id = "talk" }

pub store-RunsUnique : RunsUnique store
unfolding find
store-RunsUnique = (refl, (refl, (refl, (refl, (refl, tt)))))

pub store-StagesUnique : StagesUnique store
unfolding find
store-StagesUnique = (refl, (refl, tt))

pub found_leased : find run_key "leased" store.runs ≡ some leased_run
unfolding find
found_leased = refl

pub found_failed : find run_key "failed" store.runs ≡ some failed_run
unfolding find
found_failed = refl

pub found_canceled : find run_key "canceled" store.runs ≡ some canceled_run
unfolding find
found_canceled = refl

pub found_sent : find stage_key ("leased", "mail") store.stages ≡ some sent_stage
unfolding find
found_sent = refl

pub found_draft : find stage_key ("failed", "draft") store.stages ≡ some failed_stage
unfolding find
found_draft = refl
