-- ===== src/Callback.antt =====
-- orchestration/callback_service.py, `CallbackService`: preparing, delivering and resending the
-- callback of a run. The HTTP request, the signature, the URL policy and the text of a time are
-- parameters, and so is the hook at the end of a dispatch, which may raise.
pub mod Deliver
pub mod Outcome
pub mod Attempts
use agent_task_platform.Prelude.{
  ℕ, zero, suc, ◌+◌, ◌-◌, ◌*◌, ◌^◌, String, Bool, true, false, ◌&&◌, ◌||◌, not, Option, none, some,
  List, [], ◌∷◌, if◌then◌else◌, contains, string_eq, ◌==◌, max,
}
use agent_task_platform.Domain.Status.{RunStatus, ErrorType, CallbackStatus}
use agent_task_platform.Domain.Entities.{
  AgentRun, CallbackDelivery, CallbackConfig, Conversation, Json, JsonFields, Dict, callback_url,
  or_else, or_now, truthy,
}
use agent_task_platform.Table.{find}
use agent_task_platform.Store.State.{Store, add_log}
use agent_task_platform.Store.Runs
use agent_task_platform.Store.Runs.{Expected, update_if_current}
use agent_task_platform.Store.Callbacks
use agent_task_platform.Store.Callbacks.{update_run_with_callback, save}

pub record CallbackSettings : Type 0 where
  pub timeout_seconds : ℕ
  pub max_attempts : ℕ
  pub backoff_seconds : ℕ
  pub backoff_type : String

unfoldable pub delay_for_attempt : CallbackSettings → ℕ → ℕ
delay_for_attempt c attempt =
    if c.backoff_type == "exponential"
    then c.backoff_seconds * 2 ^ (attempt - 1)
    else c.backoff_seconds * attempt

abbrev pub settled_of : RunStatus → Option ErrorType → RunStatus
settled_of s (some ErrorType.run_timeout) = RunStatus.timeout
settled_of s (some _) = RunStatus.failed
settled_of s none = RunStatus.succeeded

-- `_settled_status`, as a function of the two fields that it reads.
unfoldable pub settle : RunStatus → Option ErrorType → RunStatus
settle RunStatus.agent_succeeded e = settled_of RunStatus.agent_succeeded e
settle RunStatus.waiting_callback e = settled_of RunStatus.waiting_callback e
settle s e = s

abbrev pub settled_status : AgentRun → RunStatus
settled_status run = settle run.status run.error_type

-- `_run_event`
unfoldable pub event_of : RunStatus → Option ErrorType → String
event_of RunStatus.waiting_callback (some _) = "failed"
event_of RunStatus.succeeded _ = "succeeded"
event_of RunStatus.agent_succeeded _ = "succeeded"
event_of RunStatus.waiting_callback none = "succeeded"
event_of RunStatus.failed _ = "failed"
event_of RunStatus.timeout _ = "failed"
event_of RunStatus.canceled _ = "canceled"
event_of _ _ = "unknown"

abbrev pub run_event : AgentRun → String
run_event run = event_of run.status run.error_type

abbrev pub owned_by : RunStatus → Option String → Expected
owned_by status worker = record {
  statuses = status ∷ [];
  worker = some worker;
  lease_expire_time = none;
}

abbrev pub in_status : RunStatus → Expected
in_status status = record { statuses = status ∷ []; worker = none; lease_expire_time = none }

unfoldable pub skip_callback : AgentRun → Store → Bool × Store
skip_callback run s =
    let skipped = record run {
      callback_status = CallbackStatus.skipped;
      status = settled_status run;
    } in
    update_if_current skipped (owned_by run.status run.worker) s

abbrev optional : Option String → Json
optional none = Json.null
optional (some t) = Json.text t

abbrev fields_of : Dict Json → JsonFields
fields_of [] = JsonFields.end
fields_of ((k, v) ∷ d) = JsonFields.field k v (fields_of d)

abbrev output_json : Option (Dict Json) → Json
output_json none = Json.null
output_json (some d) = Json.object (fields_of d)

find_conversation : Option String → Store → Option Conversation
find_conversation none s = none
find_conversation (some c) s =
    if c == "" then none else find (λ r. r.conversation_id) c s.conversations

-- What a service is given: its settings, the text of a time, and `_validate_url`, whose refusal is
-- the text of the exception.
pub record Services : Type 0 where
  pub settings : CallbackSettings
  pub isoformat : ℕ → String
  pub refuse_url : String → Option String

unfoldable pub payload : Services → AgentRun → String → Store → Dict Json
unfolding find_conversation
payload sv run event_id s =
    ("event_id", Json.text event_id)
    ∷ (
      "external_id",
      Json.text (elim (find_conversation run.conversation_id s) [
        | none ↦ run.request_id
        | some c ↦ c.external_id
      ]),
    )
    ∷ ("request_id", Json.text run.request_id)
    ∷ ("conversation_id", optional run.conversation_id)
    ∷ ("run_id", Json.text run.run_id)
    ∷ ("route_tag", Json.text run.route_tag)
    ∷ ("status", Json.text (run_event run))
    ∷ ("output", output_json run.output)
    ∷ ("agent_name", elim run.agent [ none ↦ Json.null | some a ↦ Json.text a.name ])
    ∷ ("agent_version", elim run.agent [ none ↦ Json.null | some a ↦ Json.text a.version ])
    ∷ ("finished_at", Json.text (sv.isoformat (or_else run.finish_time s.clock)))
    ∷ []

abbrev or_payload : Dict Json → Dict Json → Dict Json
or_payload [] p = p
or_payload (x ∷ d) p = x ∷ d

abbrev or_default_events : List String → List String
or_default_events [] = "succeeded" ∷ "failed" ∷ []
or_default_events (e ∷ es) = e ∷ es

abbrev requested_events : AgentRun → List String
requested_events run = elim run.callback [ none ↦ [] | some c ↦ or_default_events c.events ]

-- The delivery of an event: the stored one, which keeps its payload, or a new one.
unfoldable pub delivery_for : Services → AgentRun → String → String → Store → CallbackDelivery
delivery_for sv run url event_id s = elim (Callbacks.get event_id s) [
  | some d ↦ record d {
    payload = or_payload d.payload (payload sv run event_id s);
    url = url;
    run_after = s.clock;
    worker = none;
    lease_expire_time = none;
  }
  | none ↦ record {
    event_id = event_id;
    run_id = run.run_id;
    trace_id = run.trace_id;
    url = url;
    status = CallbackStatus.pending;
    attempts = 0;
    last_error = none;
    run_after = s.clock;
    worker = none;
    lease_expire_time = none;
    payload = payload sv run event_id s;
    create_time = s.clock;
    update_time = s.clock;
  }
]

abbrev pub waiting_status : RunStatus → RunStatus
waiting_status RunStatus.agent_succeeded = RunStatus.waiting_callback
waiting_status RunStatus.succeeded = RunStatus.waiting_callback
waiting_status s = s

-- The run as `prepare_for_run` leaves it, with the event id that it was given or keeps.
unfoldable pub awaiting : AgentRun → String → AgentRun
awaiting run event_id = record run {
  callback_event_id = some event_id;
  callback_status = CallbackStatus.pending;
  status = waiting_status run.status;
}

-- `prepare_for_run`: the delivery, if one was stored, and the store. `fresh` is what
-- `new_event_id()` returns.
unfoldable pub prepare_for_run :
    Services → String → AgentRun → Store → Option CallbackDelivery × Store
prepare_for_run sv fresh run s = elim (callback_url run) [
  | none ↦ (none, (skip_callback run s).1)
  | some url ↦
      if not (contains (requested_events run) (run_event run))
      then (
        none,
        add_log run.run_id run.trace_id "callback" "callback_skipped" (skip_callback run s).1,
      )
      else let event_id = or_else (truthy run.callback_event_id) fresh in
        let run' = awaiting run event_id in
        let delivery =
          delivery_for sv (record run { callback_event_id = some event_id }) url event_id s in
        let (stored, s') =
          update_run_with_callback run' delivery (owned_by run.status run.worker) s in
        (if stored then some delivery else none, s')
]
