-- ===== src/ToolGateway/Committed.antt =====
-- The output of a side-effecting tool is committed in the stage of its operation before it is answered.
use agent_task_platform.Prelude.{
  String, ◌≡◌, refl, sym, ◌∙◌, ap, subst, Bool, true, false, Option, none, some, List, [], ◌∷◌,
  arith, string_eq, pair_eq, pair_beq_iff, inl, inr, Bool-cases, Option-cases,
}
use agent_task_platform.Domain.Status.{StageStatus}
use agent_task_platform.Domain.Entities.{AgentStage, Json, or_else}
use agent_task_platform.Domain.Catalog.{ToolSpec}
use agent_task_platform.Table.{update_where-Unique, find-append_none, append-Unique}
use agent_task_platform.Store.State.{Store, StagesUnique, stage_key}
use agent_task_platform.Store.Stages
use agent_task_platform.Store.Stages.Active.{update_active-true}
use agent_task_platform.Guardrails.{ToolGuardrailOutput}
use agent_task_platform.ToolGateway.{
  ToolContext, GatewayEnvironment, ToolCall, Operation, Prepared, cached, claimed, unknown_outcome,
  is_side_effecting, prepare, prepare_row, claim, dispatch, stored, operation_key, operation_stage,
  commit, complete, is_named, operation, durable_key,
}
use agent_task_platform.ToolGateway.Attempts.{rejection}
use agent_task_platform.ToolGateway.Effects.{is_null}

-- The output stands in the stage of the operation, which has succeeded.
pub record IsCommitted (run key : String) (output : Json) (s : Store) : Type 0 where
  pub row : AgentStage
  pub found : Stages.get run key s ≡ some row
  pub status : row.status ≡ StageStatus.succeeded
  pub same_output : row.output ≡ output
  pub value : is_null output ≡ false

returned-StagesUnique :
    (run key token : String) (s : Store)
    → StagesUnique s
    → StagesUnique (Stages.mark_side_effect_returned run key token s).1
unfolding Stages.mark_side_effect_returned
returned-StagesUnique run key token s u = update_where-Unique stage_key _ _ (λ a p. refl) s.stages u

dispatched-StagesUnique :
    (run key token : String) (s : Store)
    → StagesUnique s
    → StagesUnique (Stages.mark_side_effect_dispatched run key token s).1
unfolding Stages.mark_side_effect_dispatched
dispatched-StagesUnique run key token s u =
    update_where-Unique stage_key _ _ (λ a p. refl) s.stages u

begun-StagesUnique :
    (run key token : String) (s : Store)
    → StagesUnique s
    → StagesUnique (Stages.begin_side_effect_once run key token s).1
unfolding Stages.begin_side_effect_once Stages.begun_once
begun-StagesUnique run key token s u = update_where-Unique stage_key _ _ (λ a p. refl) s.stages u

created-StagesUnique :
    (stage : AgentStage) (s : Store)
    → StagesUnique s
    → let p = Stages.get_or_create stage s in
      StagesUnique p.1 × (Stages.get stage.run_id stage.stage_key p.1 ≡ some p.0)
unfolding Stages.get_or_create
created-StagesUnique stage s u = elim (Option-cases (Stages.get stage.run_id stage.stage_key s)) [
  | inr (row, e) ↦ rw (e, Stages.get_or_create) (u, e)
  | inl e ↦
      rw (e, Stages.get_or_create)
        (
          append-Unique stage_key stage s.stages u e,
          find-append_none stage_key (stage_key stage) s.stages stage e
              ∙ (rw ((pair_beq_iff (stage_key stage) (stage_key stage)).1 refl) refl),
        )
]

-- A rejection answers an object.
pub rejection-value :
    (default : String) (results : List ToolGuardrailOutput) (blocked : Json)
    → rejection default results ≡ some blocked
    → is_null blocked ≡ false
rejection-value default [] blocked h = cc
rejection-value default (o ∷ rest) blocked h =
    ground (arith, h, rejection-value default rest blocked)

module _ (env : GatewayEnvironment) (ctx : ToolContext) (tool : ToolSpec) (c : ToolCall) where
  -- `commit` that answers true has stored the output.
  commit-true :
      (o : Operation) (output : Json) (s : Store)
      → StagesUnique s
      → is_null output ≡ false
      → (commit env ctx tool c o output s).0 ≡ true
      → IsCommitted ctx.run_id o.stage_key output (commit env ctx tool c o output s).1
  unfolding commit Stages.mark_succeeded Stages.succeeded
  commit-true o output s u v h =
      let s1 = (Stages.mark_side_effect_returned ctx.run_id o.idempotency_key o.execution_id s).1 in
      elim (Bool-cases
        (Stages.mark_side_effect_returned ctx.run_id o.idempotency_key o.execution_id s).0) [
          | inr e ↦
              let off : (commit env ctx tool c o output s).0 ≡ false = rw (e, commit) refl in
              ground (arith, h, off)
          | inl e ↦
              let marked : commit env ctx tool c o output s
                  ≡ Stages.mark_succeeded ctx.run_id o.stage_key o.execution_id output s1 =
                rw (e, commit) refl in
              subst (λ (r : Bool × Store). IsCommitted ctx.run_id o.stage_key output r.1)
                (sym marked)
                (marked_true o.stage_key o.execution_id output s1
                  (returned-StagesUnique ctx.run_id o.idempotency_key o.execution_id s u) v
                  (sym (ap (λ (r : Bool × Store). r.0) marked) ∙ h))
        ]
    where
      marked_true :
          (key token : String) (output : Json) (s : Store)
          → StagesUnique s
          → is_null output ≡ false
          → (Stages.mark_succeeded ctx.run_id key token output s).0 ≡ true
          → IsCommitted ctx.run_id key output
              (Stages.mark_succeeded ctx.run_id key token output s).1
      marked_true key token output s u v h =
          let rewritten =
            update_active-true ctx.run_id key
              (StageStatus.running ∷ StageStatus.outcome_unknown ∷ []) true token
              (Stages.succeeded output s.clock) s u (λ a. refl) h in
          record {
            row = Stages.succeeded output s.clock rewritten.row;
            found = rewritten.after;
            status = refl;
            same_output = refl;
            value = v;
          }

  pub complete-true :
      (o : Operation) (output : Json) (s : Store)
      → is_side_effecting tool.operation_type ≡ true
      → StagesUnique s
      → is_null output ≡ false
      → (complete env ctx tool c (some o) output s).0 ≡ true
      → IsCommitted ctx.run_id o.stage_key output (complete env ctx tool c (some o) output s).1
  unfolding complete
  complete-true o output s effect u v h = elim (Bool-cases (is_named env ctx tool c o)) [
    | inr e ↦
        let off : (complete env ctx tool c (some o) output s).0 ≡ false =
          rw (effect, e, complete) refl in
        ground (arith, h, off)
    | inl e ↦
        let same : complete env ctx tool c (some o) output s ≡ commit env ctx tool c o output s =
          rw (effect, e, complete) refl in
        subst (λ (r : Bool × Store). IsCommitted ctx.run_id o.stage_key output r.1) (sym same)
          (commit-true o output s u v (sym (ap (λ (r : Bool × Store). r.0) same) ∙ h))
  ]

  -- What the preparation has found or claimed.
  abbrev pub PreparedEnds : Prepared × Store → Type 0
  PreparedEnds (cached output, s) = IsCommitted ctx.run_id (operation_key env tool c) output s
  PreparedEnds (claimed o, s) = (o.stage_key ≡ operation_key env tool c) × StagesUnique s
  PreparedEnds (unknown_outcome, s) = Unit {0}

  dispatch-PreparedEnds :
      (active : Option AgentStage) (s : Store)
      → StagesUnique s
      → PreparedEnds (dispatch env ctx tool c active s)
  dispatch-PreparedEnds none s u = tt
  dispatch-PreparedEnds (some row) s u =
      elim (Bool-cases
        (Stages.mark_side_effect_dispatched ctx.run_id (durable_key env ctx tool c) c.execution_id
          s).0) [
            | inl e ↦ rw e (
              refl,
              dispatched-StagesUnique ctx.run_id (durable_key env ctx tool c) c.execution_id s u,
            )
            | inr e ↦ rw e tt
          ]

  claim-PreparedEnds : (s : Store) → StagesUnique s → PreparedEnds (claim env ctx tool c s)
  claim-PreparedEnds s u =
      dispatch-PreparedEnds
        (Stages.begin_side_effect_once ctx.run_id (operation_key env tool c) c.execution_id s).0 _
        (begun-StagesUnique ctx.run_id (operation_key env tool c) c.execution_id s u)

  stored-PreparedEnds :
      (row : AgentStage) (s : Store)
      → StagesUnique s
      → Stages.get ctx.run_id (operation_key env tool c) s ≡ some row
      → row.status ≡ StageStatus.succeeded
      → PreparedEnds (stored env ctx tool c row, s)
  stored-PreparedEnds row s u found st = by_output row.output refl
    where
      by_output :
          (out : Json)
          → row.output ≡ out
          → PreparedEnds (
            elim out [
              | Json.null ↦ claimed (operation env ctx tool c (or_else row.execution_id ""))
              | output ↦ cached output
            ],
            s,
          )
      by_output Json.null e = (refl, u)
      by_output out e = record {
        row = row;
        found = found;
        status = st;
        same_output = e;
        value = refl;
      }

  prepare_row-PreparedEnds :
      (row : AgentStage) (s : Store)
      → StagesUnique s
      → Stages.get ctx.run_id (operation_key env tool c) s ≡ some row
      → PreparedEnds (prepare_row env ctx tool c row s)
  unfolding prepare_row
  prepare_row-PreparedEnds row s u found =
      by_status row.status (λ st. stored-PreparedEnds row s u found st) (claim-PreparedEnds s u)
    where
      by_status :
          (st : StageStatus)
          → (st ≡ StageStatus.succeeded → PreparedEnds (stored env ctx tool c row, s))
          → PreparedEnds (claim env ctx tool c s)
          → PreparedEnds (elim st [
            | StageStatus.succeeded ↦ (stored env ctx tool c row, s)
            | StageStatus.running ↦ (unknown_outcome, s)
            | StageStatus.outcome_unknown ↦ (unknown_outcome, s)
            | _ ↦ claim env ctx tool c s
          ])
      by_status StageStatus.succeeded done_case claimed_case = done_case refl
      by_status StageStatus.running done_case claimed_case = tt
      by_status StageStatus.outcome_unknown done_case claimed_case = tt
      by_status _ done_case claimed_case = claimed_case

  pub prepare-PreparedEnds : (s : Store) → StagesUnique s → PreparedEnds (prepare env ctx tool c s)
  unfolding prepare operation_stage
  prepare-PreparedEnds s u =
      let (unique, found) = created-StagesUnique (operation_stage env ctx tool c s.clock) s u in
      prepare_row-PreparedEnds (Stages.get_or_create (operation_stage env ctx tool c s.clock) s).0 _
        unique found
