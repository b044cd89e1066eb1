-- ===== src/StageRunner/Known.antt =====
-- The row of a stage that a call asks for, and what the steps of the call leave of it.
use mathlib.Core.Option
use agent_task_platform.Prelude.{
  ℕ, String, ◌≡◌, refl, sym, ◌∙◌, ap, subst, Bool, true, false, ◌&&◌, some, [], ◌∷◌, arith,
  if◌then◌else◌, string_eq, pair_eq, option_eq, nat_eq,
}
use agent_task_platform.Domain.Status.{StageStatus, stage_status_eq}
use agent_task_platform.Domain.Entities.{AgentStage, Json}
use agent_task_platform.Table.{
  Unique, find, holds, find-update_where, find-update_where_hit, update_where-Unique,
  rowcount-Unique,
}
use agent_task_platform.Store.State.{StagesUnique, stage_key}
use agent_task_platform.Store.Runs.{update_if_current}
use agent_task_platform.Store.Stages
use agent_task_platform.Store.Stages.Fence.{is_stage-key}
use agent_task_platform.StageRunner.{
  StageWorld, StageEnvironment, Runner, StageRequest, StageResult, done, fault, is_unchanged,
  set_current_step, with_store, log,
}

module _ (env : StageEnvironment) (r : Runner) (q : StageRequest) where
  -- The row of the stage is there, and it is the one that this call asks for.
  pub record IsKnown (w : StageWorld) : Type 0 where
    pub row : AgentStage
    pub found : Stages.get r.run.run_id q.key w.store ≡ some row
    pub unchanged : is_unchanged env r q row ≡ true
    pub unique : StagesUnique w.store

  -- What the operation and the hooks of a stage, and whatever runs while they are awaited, leave alone.
  pub record KeepsStage : Type 0 where
    pub operation : (a : AgentStage) (w : StageWorld) → IsKnown w → IsKnown (env.operation a w).1
    pub on_stage_start :
        (a : AgentStage) (w : StageWorld) → IsKnown w → IsKnown (env.on_stage_start a w)
    pub on_stage_end :
        (a : AgentStage) (w : StageWorld) (row : AgentStage)
        → Stages.get r.run.run_id q.key w.store ≡ some row
        → Stages.get r.run.run_id q.key (env.on_stage_end a w).store ≡ some row

  -- The output is stored.
  pub record IsStored (output : Json) (w : StageWorld) : Type 0 where
    pub row : AgentStage
    pub found : Stages.get r.run.run_id q.key w.store ≡ some row
    pub unchanged : is_unchanged env r q row ≡ true
    pub status : row.status ≡ StageStatus.succeeded
    pub same_output : row.output ≡ output

  abbrev pub Ends : StageResult × StageWorld → Type 0
  Ends (done output, w) = IsStored output w
  Ends (fault f, w) = Unit {0}

  -- `mark_succeeded` that answers true has stored the output in the row of the stage.
  pub marked :
      (output : Json) (w : StageWorld)
      → IsKnown w
      → (Stages.mark_succeeded r.run.run_id q.key q.execution_id output w.store).0 ≡ true
      → IsStored output
          (with_store (Stages.mark_succeeded r.run.run_id q.key q.execution_id output w.store).1 w)
  unfolding Stages.mark_succeeded Stages.update_active Stages.succeeded is_unchanged
  marked output w k h =
      let p =
        Stages.is_active (StageStatus.running ∷ StageStatus.outcome_unknown ∷ []) true
          q.execution_id in
      let hit = λ (a : AgentStage). Stages.is_stage r.run.run_id q.key a && p a in
      let here : holds hit (some k.row) ≡ true =
        ap (holds hit) (sym k.found)
        ∙ sym (
            rowcount-Unique stage_key hit (r.run.run_id, q.key) w.store.stages
              (is_stage-key r.run.run_id q.key p) k.unique)
        ∙ h in
      record {
        row = Stages.succeeded output w.store.clock k.row;
        found =
            find-update_where_hit stage_key hit (Stages.succeeded output w.store.clock)
              (λ a _. refl) (r.run.run_id, q.key) w.store.stages k.row k.found here;
        unchanged = k.unchanged;
        status = refl;
        same_output = refl;
      }

  -- A row that begins keeps what the stage is recognized by.
  begun-unchanged :
      (attempt : ℕ) (token : String) (now : ℕ) (row : AgentStage)
      → is_unchanged env r q (Stages.begun attempt token now row) ≡ is_unchanged env r q row
  unfolding is_unchanged Stages.begun
  begun-unchanged attempt token now row = refl

  chosen-unchanged :
      (b : Bool) (x y : AgentStage)
      → is_unchanged env r q x ≡ true
      → is_unchanged env r q y ≡ true
      → is_unchanged env r q (if b then x else y) ≡ true
  chosen-unchanged true x y h k = h
  chosen-unchanged false x y h k = k

  pub begun-IsKnown :
      (w : StageWorld)
      → IsKnown w
      → IsKnown (
          with_store
            (Stages.begin_attempt r.run.run_id q.key r.run.attempts q.execution_id w.store).1
            w)
  unfolding Stages.begin_attempt
  begun-IsKnown w k =
      let hit = λ (a : AgentStage). Stages.is_stage r.run.run_id q.key a && Stages.can_begin a in
      let f = Stages.begun r.run.attempts q.execution_id w.store.clock in
      record {
        row = if hit k.row then f k.row else k.row;
        found =
            find-update_where stage_key hit f (λ a _. unfold Stages.begun in refl)
              (r.run.run_id, q.key) w.store.stages
            ∙ ap (Option.map (λ a. if hit a then f a else a)) k.found;
        unchanged =
            chosen-unchanged (hit k.row) (f k.row) k.row
              (begun-unchanged r.run.attempts q.execution_id w.store.clock k.row ∙ k.unchanged)
              k.unchanged;
        unique =
            update_where-Unique stage_key hit f (λ a _. unfold Stages.begun in refl) w.store.stages
              k.unique;
      }

  set_current_step-stages :
      (w : StageWorld) → (set_current_step r q.key w).1.store.stages ≡ w.store.stages
  unfolding set_current_step update_if_current
  set_current_step-stages w = ground arith

  pub step-IsKnown : (w : StageWorld) → IsKnown w → IsKnown (set_current_step r q.key w).1
  step-IsKnown w k =
      let same = set_current_step-stages w in
      record {
        row = k.row;
        found = ap (find stage_key (r.run.run_id, q.key)) same ∙ k.found;
        unchanged = k.unchanged;
        unique = subst (Unique stage_key) (sym same) k.unique;
      }

  pub logged-IsKnown :
      (event_type : String) (w : StageWorld) → IsKnown w → IsKnown (log r event_type w)
  logged-IsKnown event_type w k = record {
    row = k.row;
    found = k.found;
    unchanged = k.unchanged;
    unique = k.unique;
  }
