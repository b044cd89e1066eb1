-- ===== src/Store/State.antt =====
-- infra/store/sqlalchemy_store.py: the tables, and the log repository's `add`.
use agent_task_platform.Prelude.{string_eq, pair_eq, ℕ, String, List, [], ◌∷◌, ◌++◌}
use agent_task_platform.Domain.Entities.{
  AgentRun, AgentStage, CallbackDelivery, Conversation, LogEvent,
}
use agent_task_platform.Table.{Unique}

pub record Store : Type 0 where
  pub runs : List AgentRun
  pub stages : List AgentStage
  pub callbacks : List CallbackDelivery
  pub conversations : List Conversation
  pub logs : List LogEvent
  pub clock : ℕ

abbrev pub run_key : AgentRun → String
run_key r = r.run_id

abbrev pub callback_key : CallbackDelivery → String
callback_key d = d.event_id

-- Constraint `uk_ai_agent_stage_run_key`.
abbrev pub stage_key : AgentStage → String × String
stage_key r = (r.run_id, r.stage_key)

abbrev pub StagesUnique : Store → Type 0
StagesUnique s = Unique stage_key s.stages

-- The primary key of the run table.
abbrev pub RunsUnique : Store → Type 0
RunsUnique s = Unique run_key s.runs

-- `store.logs.add(LogEvent(...))`
abbrev pub add_log : String → String → String → String → Store → Store
add_log run_id trace_id component event_type s = record s { logs = s.logs ++ event ∷ [] }
  where
    event : LogEvent
    event = record {
      run_id = run_id;
      trace_id = trace_id;
      component = component;
      event_type = event_type;
      create_time = s.clock;
    }
