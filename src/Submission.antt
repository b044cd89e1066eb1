-- ===== src/Submission.antt =====
-- orchestration/run_service.py, `RunService.submit`, with orchestration/conversation_service.py,
-- infra/store/repository/conversation.py and the unique keys of infra/store/model/ai_agent_run.py
-- and ai_conversation.py. A transaction is one statement of the model; `other` is what other
-- submissions do between the lookups and the transaction. The ids are generated outside the source.
pub mod Idempotence
use agent_task_platform.Prelude.{
  ℕ, zero, suc, String, Bool, true, false, ◌&&◌, Option, none, some, List, [], ◌∷◌, ◌++◌,
  if◌then◌else◌, ◌==◌, string_eq,
}
use agent_task_platform.Prelude.Int.{ℤ}
use agent_task_platform.Prelude.Text.{includes}
use agent_task_platform.Domain.Status.{RunStatus, ErrorType, CallbackStatus}
use agent_task_platform.Domain.Entities.{
  AgentRun, AgentRef, AgentSpec, CallbackConfig, Conversation, Dict, Json, callback_url, or_now,
  or_else, truthy,
}
use agent_task_platform.Table.{find}
use agent_task_platform.Store.State.{Store, add_log, run_key}
use agent_task_platform.Store.Runs
use agent_task_platform.Store.Runs.{create, get_by_request_id}

pub record RunSubmission : Type 0 where
  pub route_tag : String
  pub request_id : String
  pub external_id : Option String
  pub task_type : Option String
  pub source : Option String
  pub conversation_id : Option String
  pub input : Dict Json
  pub files : List Json
  pub callback : Option CallbackConfig
  pub priority : ℤ
  pub timeout_seconds : Option ℕ
  pub metadata : Dict Json
  pub caller : String
  pub agent_version : Option String

-- What `new_run_id`, `new_trace_id` and the conversation's default id generate.
pub record FreshIds : Type 0 where
  pub run_id : String
  pub trace_id : String
  pub conversation_id : String

-- What the registry and the skill runtime answer: an agent and its skill snapshots, or the text of
-- their error.
pub data Routing : Type 0 where
  routed : AgentSpec → List Json → Routing
  refused : String → Routing

-- `AgentRun(...)`, with the defaults of domain/agent_run.py
unfoldable pub new_run : RunSubmission → FreshIds → ℕ → AgentRun
new_run sub ids now = record {
  run_id = ids.run_id;
  conversation_id = none;
  trace_id = ids.trace_id;
  route_tag = sub.route_tag;
  caller = sub.caller;
  request_id = sub.request_id;
  input = sub.input;
  files = sub.files;
  callback = sub.callback;
  priority = sub.priority;
  timeout_seconds = sub.timeout_seconds;
  metadata = sub.metadata;
  agent = none;
  skill_snapshots = [];
  status = RunStatus.created;
  current_step = none;
  attempts = 0;
  max_attempts = 1;
  dead_letter_reason = none;
  worker = none;
  lease_expire_time = none;
  output = none;
  error_type = none;
  error_message = none;
  callback_status = CallbackStatus.pending;
  callback_event_id = none;
  create_time = now;
  update_time = now;
  queue_time = none;
  run_after = none;
  start_time = none;
  finish_time = none;
}

abbrev pub first_callback_status : AgentRun → CallbackStatus
first_callback_status run = elim (callback_url run) [
  | none ↦ CallbackStatus.skipped
  | some _ ↦ CallbackStatus.pending
]

abbrev pub routing_error : String → ErrorType
routing_error message =
    if includes "No enabled agent" message
    then ErrorType.route_not_found
    else ErrorType.validation_error

unfoldable pub placed : Routing → ℕ → AgentRun → AgentRun
placed (routed agent snapshots) now run = record run {
  skill_snapshots = snapshots;
  agent = some (record { name = agent.name; version = agent.version });
  status = RunStatus.queued;
  queue_time = some now;
  max_attempts = agent.retry_policy.max_attempts;
  run_after = or_now run.run_after now;
  callback_status = first_callback_status run;
}
placed (refused message) now run = record run {
  status = RunStatus.failed;
  error_type = some (routing_error message);
  error_message = some message;
}

unfoldable pub find_external : String → String → List Conversation → Option Conversation
find_external caller external_id [] = none
find_external caller external_id (c ∷ rows) =
    if c.caller == caller && c.external_id == external_id
    then some c
    else find_external caller external_id rows

abbrev pub conversation_key : Conversation → String
conversation_key c = c.conversation_id

abbrev pub find_conversation : Option String → Store → Option Conversation
find_conversation none s = none
find_conversation (some id) s = find conversation_key id s.conversations

abbrev pub external_id_of : RunSubmission → String
external_id_of sub = or_else (truthy sub.external_id) sub.request_id

-- The two lookups of `get_or_create`.
unfoldable pub known_conversation : RunSubmission → Store → Option Conversation
known_conversation sub s = elim (find_conversation (truthy sub.conversation_id) s) [
  | some c ↦ some c
  | none ↦ find_external sub.caller (external_id_of sub) s.conversations
]

unfoldable pub new_conversation : RunSubmission → FreshIds → ℕ → Conversation
new_conversation sub ids now = record {
  conversation_id = ids.conversation_id;
  caller = sub.caller;
  external_id = external_id_of sub;
  task_type = sub.task_type;
  source = sub.source;
  route_tag = sub.route_tag;
  create_time = now;
  update_time = now;
}

-- An insert; none when the row violates a unique key.
unfoldable pub insert_conversation : Conversation → Store → Option Store
insert_conversation c s = elim (find conversation_key c.conversation_id s.conversations) [
  | some _ ↦ none
  | none ↦ elim (find_external c.caller c.external_id s.conversations) [
    | some _ ↦ none
    | none ↦ some (record s { conversations = s.conversations ++ c ∷ [] })
  ]
]

unfoldable pub insert_run : AgentRun → Store → Option Store
insert_run run s = elim (Runs.get run.run_id s) [
  | some _ ↦ none
  | none ↦ elim (get_by_request_id run.caller run.route_tag run.request_id s) [
    | some _ ↦ none
    | none ↦ some (create run s)
  ]
]

abbrev pub in_conversation : String → AgentRun → AgentRun
in_conversation id run = record run { conversation_id = some id }

-- The unit of work: the conversation, if it is new, and the run, or neither. `known` was read before.
unfoldable pub commit :
    RunSubmission → FreshIds → AgentRun → Option Conversation → Store → Option (AgentRun × Store)
commit sub ids run (some c) s = elim (insert_run (in_conversation c.conversation_id run) s) [
  | none ↦ none
  | some s' ↦ some (in_conversation c.conversation_id run, s')
]
commit sub ids run none s = elim (insert_conversation (new_conversation sub ids s.clock) s) [
  | none ↦ none
  | some s1 ↦ elim (insert_run (in_conversation ids.conversation_id run) s1) [
    | none ↦ none
    | some s' ↦ some (in_conversation ids.conversation_id run, s')
  ]
]

abbrev pub Submitted : Type 0
Submitted = Option (AgentRun × Bool) × Store

-- The loop over `transaction_attempt`; none is the conflict that the last attempt raises.
unfoldable pub transact :
    ℕ → (Store → Store) → RunSubmission → FreshIds → AgentRun → Store → Submitted
transact zero other sub ids run s = (none, s)
transact (suc tries) other sub ids run s =
    let s1 = other s in
    let rest = transact tries other sub ids run s1 in
    elim (commit sub ids run (known_conversation sub s) s1) [
      | some (run', s2) ↦
          (some (run', true), add_log run'.run_id run'.trace_id "run_api" "run_submitted" s2)
      | none ↦ elim (get_by_request_id sub.caller sub.route_tag sub.request_id s1) [
        | some existing ↦ (some (existing, false), s1)
        | none ↦ rest
      ]
    ]

unfoldable pub submit :
    (AgentRun → Routing) → (Store → Store) → FreshIds → RunSubmission → Store → Submitted
submit route other ids sub s = elim (get_by_request_id sub.caller sub.route_tag sub.request_id s) [
  | some existing ↦ (
    some (existing, false),
    add_log existing.run_id existing.trace_id "run_api" "idempotent_replay" s,
  )
  | none ↦
      let run = new_run sub ids s.clock in
      transact 2 other sub ids (placed (route run) s.clock run) s
]
