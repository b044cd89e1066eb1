-- ===== src/Domain/Entities.antt =====
-- domain/: agent runs, agents, callback deliveries, stages, conversations and log events. A moment
-- in time is a number of ticks, and so is a duration; JSON numbers are kept as their text.
use agent_task_platform.Prelude.{
  ℕ, ◌-◌, ◌*◌, ◌^◌, String, Bool, Option, none, some, List, ◌==◌, if◌then◌else◌, string_eq,
  option_eq,
}
use agent_task_platform.Prelude.Int.{ℤ}
use agent_task_platform.Domain.Status.{RunStatus, ErrorType, CallbackStatus, StageStatus}

mutual
  pub data Json : Type 0 where
    null : Json
    boolean : Bool → Json
    number : String → Json
    text : String → Json
    array : JsonItems → Json
    object : JsonFields → Json

  pub data JsonItems : Type 0 where
    nil : JsonItems
    cons : Json → JsonItems → JsonItems

  pub data JsonFields : Type 0 where
    end : JsonFields
    field : String → Json → JsonFields → JsonFields

abbrev pub Dict {ℓ} : Type ℓ → Type ℓ
Dict A = List (String × A)

pub record RetryPolicy : Type 0 where
  pub max_attempts : ℕ
  pub backoff_seconds : ℕ
  pub backoff_type : String

unfoldable pub delay_for_attempt : RetryPolicy → ℕ → ℕ
delay_for_attempt p attempt =
    if p.backoff_type == "exponential"
    then p.backoff_seconds * 2 ^ (attempt - 1)
    else p.backoff_seconds * attempt

pub record AgentRef : Type 0 where
  pub name : String
  pub version : String

pub record CallbackConfig : Type 0 where
  pub url : Option String
  pub events : List String

pub record AgentSpec : Type 0 where
  pub name : String
  pub version : String
  pub route_tags : List String
  pub skills : List String
  pub max_concurrency : ℕ
  pub timeout_seconds : ℕ
  pub retry_policy : RetryPolicy
  pub enabled : Bool

pub record AgentRun : Type 0 where
  pub run_id : String
  pub conversation_id : Option String
  pub trace_id : String
  pub route_tag : String
  pub caller : String
  pub request_id : String
  pub input : Dict Json
  pub files : List Json
  pub callback : Option CallbackConfig
  pub priority : ℤ
  pub timeout_seconds : Option ℕ
  pub metadata : Dict Json
  pub agent : Option AgentRef
  pub skill_snapshots : List Json
  pub status : RunStatus
  pub current_step : Option String
  pub attempts : ℕ
  pub max_attempts : ℕ
  pub dead_letter_reason : Option String
  pub worker : Option String
  pub lease_expire_time : Option ℕ
  pub output : Option (Dict Json)
  pub error_type : Option ErrorType
  pub error_message : Option String
  pub callback_status : CallbackStatus
  pub callback_event_id : Option String
  pub create_time : ℕ
  pub update_time : ℕ
  pub queue_time : Option ℕ
  pub run_after : Option ℕ
  pub start_time : Option ℕ
  pub finish_time : Option ℕ

pub record CallbackDelivery : Type 0 where
  pub event_id : String
  pub run_id : String
  pub trace_id : String
  pub url : String
  pub status : CallbackStatus
  pub attempts : ℕ
  pub last_error : Option String
  pub run_after : ℕ
  pub worker : Option String
  pub lease_expire_time : Option ℕ
  pub payload : Dict Json
  pub create_time : ℕ
  pub update_time : ℕ

pub record AgentStage : Type 0 where
  pub stage_id : String
  pub run_id : String
  pub trace_id : String
  pub agent_name : String
  pub agent_version : String
  pub stage_key : String
  pub stage_index : ℤ
  pub schema_version : String
  pub definition_version : String
  pub status : StageStatus
  pub run_attempt : ℕ
  pub attempts : ℕ
  pub max_attempts : ℕ
  pub execution_id : Option String
  pub idempotency_key : String
  pub input_hash : String
  pub output : Json
  pub checkpoint : Option (Dict Json)
  pub error_type : Option String
  pub error_message : Option String
  pub create_time : ℕ
  pub update_time : ℕ
  pub start_time : Option ℕ
  pub finish_time : Option ℕ

pub record Conversation : Type 0 where
  pub conversation_id : String
  pub caller : String
  pub external_id : String
  pub task_type : Option String
  pub source : Option String
  pub route_tag : String
  pub create_time : ℕ
  pub update_time : ℕ

-- The message, the level and the data of an event are for readers; no code of the program reads them.
pub record LogEvent : Type 0 where
  pub run_id : String
  pub trace_id : String
  pub component : String
  pub event_type : String
  pub create_time : ℕ

-- `x or y` in Python, for an optional text: an empty one counts as none.
abbrev pub truthy : Option String → Option String
truthy none = none
truthy (some t) = if t == "" then none else some t

abbrev pub or_else {ℓ} : {A : Type ℓ} → Option A → A → A
or_else none d = d
or_else (some a) d = a

abbrev pub or_now : Option ℕ → ℕ → Option ℕ
or_now none now = some now
or_now (some t) now = some t

-- `run.callback and run.callback.url`
abbrev pub callback_url : AgentRun → Option String
callback_url run = elim run.callback [ none ↦ none | some c ↦ truthy c.url ]
