-- ===== src/Store/Stages/Fence.antt =====
-- Execution tokens: a new attempt of a stage takes it away from the execution before.
use agent_task_platform.Prelude.{
  ℕ, String, ◌≡◌, refl, ◌≢◌, Bool, true, false, ◌&&◌, some, List, arith, string_eq, option_eq,
  pair_eq, pair_beq_iff, option_beq_iff,
}
use agent_task_platform.Domain.Status.{StageStatus, stage_status_eq}
use agent_task_platform.Domain.Entities.{AgentStage}
use agent_task_platform.Table.{
  holds, find-update_where_hit, rowcount-Unique, update_where-missed, update_where-Unique, find-key,
}
use agent_task_platform.Store.State.{Store, StagesUnique, stage_key}
use agent_task_platform.Store.Stages

pub is_stage-key :
    (run key : String) (p : AgentStage → Bool) (r : AgentStage)
    → (Stages.is_stage run key r && p r) ≡ true
    → stage_key r ≡ (run, key)
is_stage-key run key p r h = (pair_beq_iff (stage_key r) (run, key)).0 (ground arith)

module _ (run key : String) (run_attempt : ℕ) (token : String) (s : Store) where
  begin_attempt-StagesUnique :
      StagesUnique s → StagesUnique (Stages.begin_attempt run key run_attempt token s).1
  unfolding Stages.begin_attempt Stages.begun
  begin_attempt-StagesUnique u = update_where-Unique stage_key _ _ (λ a p. refl) s.stages u

  -- The row of a stage that can begin, after it has begun.
  get-begin_attempt :
      (r : AgentStage)
      → Stages.get run key s ≡ some r
      → Stages.can_begin r ≡ true
      → Stages.get run key (Stages.begin_attempt run key run_attempt token s).1
        ≡ some (Stages.begun run_attempt token s.clock r)
  unfolding Stages.begin_attempt
  get-begin_attempt r h can =
      find-update_where_hit stage_key _ (Stages.begun run_attempt token s.clock)
        (λ a p. unfold Stages.begun in refl) (run, key) s.stages r h
        (ground (
          arith,
          can,
          (pair_beq_iff (stage_key r) (run, key)).1 (find-key stage_key (run, key) s.stages r h),
        ))

-- After a new execution of a stage has begun, no update with the token of another execution takes
-- effect: a checkpoint, a success, a failure or a cancellation of a superseded execution is refused,
-- and the store is unchanged.
pub begin_attempt_fences :
    (run key : String) (run_attempt : ℕ) (token old : String) (active : List StageStatus)
    (returned : Bool) (f : AgentStage → AgentStage) (r : AgentStage) (s : Store)
    → StagesUnique s
    → Stages.get run key s ≡ some r
    → Stages.can_begin r ≡ true
    → old ≢ token
    → let s' = (Stages.begin_attempt run key run_attempt token s).1 in
      Stages.update_active run key active returned old f s' ≡ (false, s')
unfolding Stages.update_active
begin_attempt_fences run key run_attempt token old active returned f r s u h can ne =
    let s' = (Stages.begin_attempt run key run_attempt token s).1 in
    let hit =
      λ (a : AgentStage). Stages.is_stage run key a && Stages.is_active active returned old a in
    let u' = begin_attempt-StagesUnique run key run_attempt token s u in
    let miss : holds hit (Stages.get run key s') ≡ false =
      rw (get-begin_attempt run key run_attempt token s r h can)
        (stale (Stages.begun run_attempt token s.clock r) (unfold Stages.begun in refl)) in
    cc (
      rowcount-Unique stage_key hit (run, key) s'.stages
          (is_stage-key run key (Stages.is_active active returned old)) u',
      miss,
      update_where-missed stage_key hit f (run, key) s'.stages
          (is_stage-key run key (Stages.is_active active returned old)) u' miss,
    )
  where
    stale :
        (a : AgentStage)
        → a.execution_id ≡ some token
        → (Stages.is_stage run key a && Stages.is_active active returned old a) ≡ false
    stale a e = ground (arith, option_beq_iff a.execution_id (some old))
