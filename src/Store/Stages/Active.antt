-- ===== src/Store/Stages/Active.antt =====
-- `_update_active`: what an update under an execution's token does to the row of the stage.
use agent_task_platform.Prelude.{
  String, ◌≡◌, sym, ◌∙◌, ap, Bool, true, false, ◌&&◌, some, List, arith, string_eq, pair_eq,
  pair_beq_iff, inl, inr, Bool-cases, Option-cases,
}
use agent_task_platform.Domain.Status.{StageStatus, stage_status_eq}
use agent_task_platform.Domain.Entities.{AgentStage}
use agent_task_platform.Table.{
  holds, find-key, find-update_where_hit, rowcount-Unique, update_where-missed,
}
use agent_task_platform.Store.State.{Store, StagesUnique, stage_key}
use agent_task_platform.Store.Stages
use agent_task_platform.Store.Stages.Fence.{is_stage-key}

module _ (run key : String) (active : List StageStatus) (returned : Bool) (token : String)
    (f : AgentStage → AgentStage) (row : AgentStage) (s : Store) (u : StagesUnique s)
    (found : Stages.get run key s ≡ some row) where
  abbrev p : AgentStage → Bool
  p = Stages.is_active active returned token

  abbrev hit : AgentStage → Bool
  hit a = Stages.is_stage run key a && p a

  own_key : Stages.is_stage run key row ≡ true
  own_key =
      (pair_beq_iff (stage_key row) (run, key)).1 (find-key stage_key (run, key) s.stages row found)

  -- The row is active under this token: it is rewritten, and the answer is true.
  pub update_active_hit :
      ((a : AgentStage) → stage_key (f a) ≡ stage_key a)
      → p row ≡ true
      → ((Stages.update_active run key active returned token f s).0 ≡ true)
        × (Stages.get run key (Stages.update_active run key active returned token f s).1
            ≡ some (f row))
  unfolding Stages.update_active
  update_active_hit same h =
      let here : hit row ≡ true = ground (arith, own_key, h) in
      (
        rowcount-Unique stage_key hit (run, key) s.stages (is_stage-key run key p) u
            ∙ ap (holds hit) found
            ∙ here,
        find-update_where_hit stage_key hit f (λ a _. same a) (run, key) s.stages row found here,
      )

  -- The row is not: nothing changes.
  pub update_active_refused :
      p row ≡ false → Stages.update_active run key active returned token f s ≡ (false, s)
  unfolding Stages.update_active
  update_active_refused h =
      let miss : holds hit (Stages.get run key s) ≡ false =
        ap (holds hit) found ∙ ground (arith, own_key, h) in
      cc (
        rowcount-Unique stage_key hit (run, key) s.stages (is_stage-key run key p) u,
        miss,
        update_where-missed stage_key hit f (run, key) s.stages (is_stage-key run key p) u miss,
      )

-- A row that an update has rewritten.
pub record IsRewritten (run key : String) (f : AgentStage → AgentStage) (s s' : Store)
    : Type 0 where
  pub row : AgentStage
  pub before : Stages.get run key s ≡ some row
  pub after : Stages.get run key s' ≡ some (f row)

-- An update that answers true has rewritten the row of the stage.
pub update_active-true :
    (run key : String) (active : List StageStatus) (returned : Bool) (token : String)
    (f : AgentStage → AgentStage) (s : Store)
    → StagesUnique s
    → ((a : AgentStage) → stage_key (f a) ≡ stage_key a)
    → (Stages.update_active run key active returned token f s).0 ≡ true
    → IsRewritten run key f s (Stages.update_active run key active returned token f s).1
unfolding Stages.update_active
update_active-true run key active returned token f s u same h =
    elim (Option-cases (Stages.get run key s)) [
      | inl e ↦
          let counted : holds hit (Stages.get run key s) ≡ true =
            sym (rowcount-Unique stage_key hit (run, key) s.stages (is_stage-key run key p) u)
            ∙ h in
          let none_hit : holds hit (Stages.get run key s) ≡ false = ap (holds hit) e in
          ground (arith, counted, none_hit)
      | inr (row, e) ↦ elim (Bool-cases (p row)) [
        | inl g ↦ record {
          row = row;
          before = e;
          after = (update_active_hit run key active returned token f row s u e same g).1;
        }
        | inr g ↦
            let refusal = update_active_refused run key active returned token f row s u e g in
            ground (arith, h, ap (λ (r : Bool × Store). r.0) refusal)
      ]
    ]
  where
    p : AgentStage → Bool
    p = Stages.is_active active returned token

    hit : AgentStage → Bool
    hit a = Stages.is_stage run key a && p a
