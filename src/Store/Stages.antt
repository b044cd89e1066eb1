-- ===== src/Store/Stages.antt =====
-- infra/store/repository/stage.py, `StageRepository`: the durable stages of a run, with the tokens
-- that fence superseded executions and the marks that keep a side effect from being repeated.
pub mod Fence
pub mod SideEffect
pub mod Active
use agent_task_platform.Prelude.{
  ℕ, ◌+◌, String, Bool, true, false, not, ◌&&◌, ◌||◌, Option, none, some, List, [], ◌∷◌, ◌++◌, ltb,
  ◌==◌, string_eq, pair_eq, nat_eq, option_eq, contains, if◌then◌else◌, nat_beq, keep,
}
use agent_task_platform.Prelude.Int.{ltbℤ}
use agent_task_platform.Domain.Status.{StageStatus, stage_status_eq}
use agent_task_platform.Domain.Entities.{AgentStage, Dict, Json, or_now}
use agent_task_platform.Table.{find, update_where, rowcount}
use agent_task_platform.Table.Sort.{order_by}
use agent_task_platform.Store.State.{Store, stage_key}

abbrev pub is_stage : String → String → AgentStage → Bool
is_stage run_id key r = stage_key r == (run_id, key)

abbrev pub get : String → String → Store → Option AgentStage
get run_id key s = find stage_key (run_id, key) s.stages

abbrev pub with_stages : List AgentStage → Store → Store
with_stages rows s = record s { stages = rows }

-- `INSERT … ON CONFLICT DO NOTHING`, and the row that is then there.
unfoldable pub get_or_create : AgentStage → Store → AgentStage × Store
get_or_create stage s = elim (get stage.run_id stage.stage_key s) [
  | some r ↦ (r, s)
  | none ↦ (stage, with_stages (s.stages ++ stage ∷ []) s)
]

abbrev index_le : AgentStage → AgentStage → Bool
index_le a b = not (ltbℤ b.stage_index a.stage_index)

unfoldable pub list_for_run : String → Store → List AgentStage
list_for_run run_id s = order_by index_le (keep (λ r. r.run_id == run_id) s.stages)

abbrev pub can_begin : AgentStage → Bool
can_begin r = elim r.status [
  | StageStatus.pending ↦ ltb r.attempts r.max_attempts
  | StageStatus.running ↦ true
  | StageStatus.failed ↦ ltb r.attempts r.max_attempts
  | _ ↦ false
]

abbrev pub is_running : StageStatus → Bool
is_running StageStatus.running = true
is_running _ = false

unfoldable pub begun : ℕ → String → ℕ → AgentStage → AgentStage
begun run_attempt execution_id now r = record r {
  status = StageStatus.running;
  run_attempt = run_attempt;
  attempts = if is_running r.status then r.attempts else r.attempts + 1;
  execution_id = some execution_id;
  error_type = none;
  error_message = none;
  start_time = or_now r.start_time now;
  finish_time = none;
  update_time = now;
}

-- An `UPDATE … WHERE … RETURNING` of one stage: the row that it returns, and the store.
abbrev pub update_returning :
    String
    → String
    → (AgentStage → Bool)
    → (AgentStage → AgentStage)
    → Store
    → Option AgentStage × Store
update_returning run_id key p f s =
    let hit = λ (r : AgentStage). is_stage run_id key r && p r in
    (
      if nat_beq (rowcount hit s.stages) 0
          then none
          else get run_id key (with_stages (update_where hit f s.stages) s),
      with_stages (update_where hit f s.stages) s,
    )

unfoldable pub begin_attempt : String → String → ℕ → String → Store → Option AgentStage × Store
begin_attempt run_id key run_attempt execution_id s =
    update_returning run_id key can_begin (begun run_attempt execution_id s.clock) s

-- `_update_active`: the status must be active, and the token must be that of the execution.
abbrev pub is_active : List StageStatus → Bool → String → AgentStage → Bool
is_active active_statuses require_returned execution_id r =
    contains active_statuses r.status
    && ((not require_returned
          || (not (r.status == StageStatus.outcome_unknown)
              || r.error_type == some "SIDE_EFFECT_RETURNED"))
        && r.execution_id == some execution_id)

unfoldable pub update_active :
    String
    → String
    → List StageStatus
    → Bool
    → String
    → (AgentStage → AgentStage)
    → Store
    → Bool × Store
update_active run_id key active_statuses require_returned execution_id f s =
    let hit = λ (r : AgentStage).
      is_stage run_id key r && is_active active_statuses require_returned execution_id r in
    (nat_beq (rowcount hit s.stages) 1, with_stages (update_where hit f s.stages) s)

abbrev pub only_running : List StageStatus
only_running = StageStatus.running ∷ []

unfoldable pub checkpointed : Dict Json → ℕ → AgentStage → AgentStage
checkpointed checkpoint now r = record r { checkpoint = some checkpoint; update_time = now }

unfoldable pub save_checkpoint : String → String → String → Dict Json → Store → Bool × Store
save_checkpoint run_id key execution_id checkpoint s =
    update_active run_id key only_running false execution_id (checkpointed checkpoint s.clock) s

unfoldable pub succeeded : Json → ℕ → AgentStage → AgentStage
succeeded output now r = record r {
  status = StageStatus.succeeded;
  output = output;
  checkpoint = none;
  error_type = none;
  error_message = none;
  finish_time = some now;
  update_time = now;
}

unfoldable pub mark_succeeded : String → String → String → Json → Store → Bool × Store
mark_succeeded run_id key execution_id output s =
    update_active run_id key (StageStatus.running ∷ StageStatus.outcome_unknown ∷ []) true
      execution_id (succeeded output s.clock) s

unfoldable pub ended : StageStatus → String → String → ℕ → AgentStage → AgentStage
ended status error_type error_message now r = record r {
  status = status;
  error_type = some error_type;
  error_message = some error_message;
  finish_time = some now;
  update_time = now;
}

unfoldable pub mark_failed : String → String → String → String → String → Store → Bool × Store
mark_failed run_id key execution_id error_type error_message s =
    update_active run_id key only_running false execution_id
      (ended StageStatus.failed error_type error_message s.clock) s

unfoldable pub mark_canceled : String → String → String → Store → Bool × Store
mark_canceled run_id key execution_id s =
    update_active run_id key only_running false execution_id
      (λ r. record r {
        status = StageStatus.canceled;
        finish_time = some s.clock;
        update_time = s.clock;
      })
      s

unfoldable pub mark_outcome_unknown :
    String → String → String → String → String → Store → Bool × Store
mark_outcome_unknown run_id key execution_id error_type error_message s =
    update_active run_id key only_running false execution_id
      (ended StageStatus.outcome_unknown error_type error_message s.clock) s

abbrev pub is_untouched : AgentStage → Bool
is_untouched r = elim r.status [ StageStatus.pending ↦ nat_beq r.attempts 0 | _ ↦ false ]

unfoldable pub begun_once : String → ℕ → AgentStage → AgentStage
begun_once execution_id now r = record r {
  status = StageStatus.running;
  attempts = 1;
  execution_id = some execution_id;
  start_time = some now;
  update_time = now;
}

unfoldable pub begin_side_effect_once : String → String → String → Store → Option AgentStage × Store
begin_side_effect_once run_id key execution_id s =
    update_returning run_id key is_untouched (begun_once execution_id s.clock) s

abbrev pub is_effect : String → String → StageStatus → String → AgentStage → Bool
is_effect run_id idempotency_key status execution_id r =
    (r.run_id == run_id && r.idempotency_key == idempotency_key)
    && (r.status == status && r.execution_id == some execution_id)

unfoldable pub mark_side_effect_dispatched : String → String → String → Store → Bool × Store
mark_side_effect_dispatched run_id idempotency_key execution_id s =
    let hit = is_effect run_id idempotency_key StageStatus.running execution_id in
    (
      nat_beq (rowcount hit s.stages) 1,
      with_stages
          (update_where hit
            (λ r. record r {
              status = StageStatus.outcome_unknown;
              error_type = some "SIDE_EFFECT_OUTCOME_UNKNOWN";
              error_message = some "External side effect dispatched; completion not yet committed";
              update_time = s.clock;
            })
            s.stages)
          s,
    )

unfoldable pub mark_side_effect_returned : String → String → String → Store → Bool × Store
mark_side_effect_returned run_id idempotency_key execution_id s =
    let hit = is_effect run_id idempotency_key StageStatus.outcome_unknown execution_id in
    (
      nat_beq (rowcount hit s.stages) 1,
      with_stages
          (update_where hit
            (λ r. record r {
              error_type = some "SIDE_EFFECT_RETURNED";
              error_message = none;
              update_time = s.clock;
            })
            s.stages)
          s,
    )

abbrev pub is_failed : StageStatus → Bool
is_failed StageStatus.failed = true
is_failed _ = false

unfoldable pub reset : ℕ → AgentStage → AgentStage
reset now r = record r {
  status = StageStatus.pending;
  attempts = 0;
  execution_id = none;
  error_type = none;
  error_message = none;
  finish_time = none;
  update_time = now;
}

unfoldable pub reset_failed_for_run : String → Store → ℕ × Store
reset_failed_for_run run_id s =
    let hit = λ (r : AgentStage). r.run_id == run_id && is_failed r.status in
    (rowcount hit s.stages, with_stages (update_where hit (reset s.clock) s.stages) s)

unfoldable pub delete_for_run : String → Store → ℕ × Store
delete_for_run run_id s = (
  rowcount (λ r. r.run_id == run_id) s.stages,
  with_stages (keep (λ r. not (r.run_id == run_id)) s.stages) s,
)
