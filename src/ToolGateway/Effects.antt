-- ===== src/ToolGateway/Effects.antt =====
-- A side effect is executed at most once: an operation whose stage is no longer untouched is not
-- sent again, and one that has answered is answered from its stage.
use agent_task_platform.Prelude.{
  String, ◌≡◌, refl, ◌∙◌, ap, Bool, true, false, not, ◌&&◌, Option, none, some, arith, string_eq,
  pair_eq, pair_beq_iff,
}
use agent_task_platform.Domain.Status.{StageStatus}
use agent_task_platform.Domain.Entities.{AgentStage, Json}
use agent_task_platform.Domain.Catalog.{ToolSpec}
use agent_task_platform.Table.{holds, update_where, rowcount, update_where-missed, find-key}
use agent_task_platform.Table.Keys.{rowcount-missed}
use agent_task_platform.Store.State.{Store, StagesUnique, stage_key}
use agent_task_platform.Store.Stages
use agent_task_platform.Store.Stages.Fence.{is_stage-key}
use agent_task_platform.ToolGateway.{
  GatewayWorld, ToolContext, GatewayEnvironment, ToolCall, GatewayResult, GatewayFault, done, fault,
  Prepared, cached, unknown_outcome, is_side_effecting, prepare, prepare_row, claim, dispatch,
  operation_key, operation_stage,
}
use agent_task_platform.ToolGateway.Attempts.{call_with_retries}

abbrev pub is_null : Json → Bool
is_null Json.null = true
is_null _ = false

-- What a stage that is there answers for its operation.
abbrev pub answer_of : ToolSpec → AgentStage → GatewayResult
answer_of tool row = elim row.status [
  | StageStatus.succeeded ↦ done row.output
  | _ ↦ fault (GatewayFault.outcome_unknown tool.name)
]

abbrev pub has_output : AgentStage → Bool
has_output row = elim row.status [ StageStatus.succeeded ↦ not (is_null row.output) | _ ↦ true ]

abbrev prepared_of : AgentStage → Prepared
prepared_of row = elim row.status [
  | StageStatus.succeeded ↦ cached row.output
  | _ ↦ unknown_outcome
]

-- A row that is no longer untouched is not begun.
begin_once_refused :
    (run key token : String) (row : AgentStage) (s : Store)
    → StagesUnique s
    → Stages.get run key s ≡ some row
    → Stages.is_untouched row ≡ false
    → Stages.begin_side_effect_once run key token s ≡ (none, s)
unfolding Stages.begin_side_effect_once
begin_once_refused run key token row s u found touched =
    let own : Stages.is_stage run key row ≡ true =
      (pair_beq_iff (stage_key row) (run, key)).1
        (find-key stage_key (run, key) s.stages row found) in
    let miss : holds hit (Stages.get run key s) ≡ false =
      ap (holds hit) found ∙ ground (arith, own, touched) in
    let only = is_stage-key run key Stages.is_untouched in
    let same : update_where hit (Stages.begun_once token s.clock) s.stages ≡ s.stages =
      update_where-missed stage_key hit _ (run, key) s.stages only u miss in
    let none_counted : rowcount hit s.stages ≡ 0 =
      rowcount-missed stage_key hit (run, key) s.stages only u miss in
    rw (none_counted, same) refl
  where
    hit : AgentStage → Bool
    hit a = Stages.is_stage run key a && Stages.is_untouched a

module _ (env : GatewayEnvironment) (ctx : ToolContext) (tool : ToolSpec) (c : ToolCall)
    (row : AgentStage) (s : Store) (u : StagesUnique s)
    (found : Stages.get ctx.run_id (operation_key env tool c) s ≡ some row)
    (touched : Stages.is_untouched row ≡ false) (output : has_output row ≡ true) where
  claim_refused : claim env ctx tool c s ≡ (unknown_outcome, s)
  claim_refused =
      ap (λ (r : Option AgentStage × Store). dispatch env ctx tool c r.0 r.1)
        (begin_once_refused ctx.run_id (operation_key env tool c) c.execution_id row s u found
          touched)

  refetched : Stages.get_or_create (operation_stage env ctx tool c s.clock) s ≡ (row, s)
  unfolding Stages.get_or_create operation_stage
  refetched = rw (found, Stages.get_or_create) refl

  prepare_row_touched : prepare_row env ctx tool c row s ≡ (prepared_of row, s)
  unfolding prepare_row
  prepare_row_touched = ground (arith, claim_refused, output)

  prepare_touched : prepare env ctx tool c s ≡ (prepared_of row, s)
  unfolding prepare
  prepare_touched =
      ap (λ (r : AgentStage × Store). prepare_row env ctx tool c r.0 r.1) refetched
      ∙ prepare_row_touched

-- A side-effecting tool whose operation has a stage that is no longer untouched is not called: the
-- answer is the stored output of a stage that has succeeded, else that the outcome is unknown, whatever
-- the tool, the guardrails and the hooks would do, and nothing changes. The stages have different keys,
-- and one that has succeeded has an output.
pub touched_effect_not_repeated :
    (env : GatewayEnvironment) (ctx : ToolContext) (tool : ToolSpec) (c : ToolCall)
    (row : AgentStage) (w : GatewayWorld)
    → is_side_effecting tool.operation_type ≡ true
    → StagesUnique w.store
    → Stages.get ctx.run_id (operation_key env tool c) w.store ≡ some row
    → Stages.is_untouched row ≡ false
    → has_output row ≡ true
    → call_with_retries env ctx tool c w ≡ (answer_of tool row, w)
unfolding call_with_retries
touched_effect_not_repeated env ctx tool c row w effect u found touched output =
    rw
      (effect, prepare_touched env ctx tool c row w.store u found touched output, call_with_retries)
      (ground arith)
