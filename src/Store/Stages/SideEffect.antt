-- ===== src/Store/Stages/SideEffect.antt =====
-- A side effect that was sent and whose return was never recorded is not sent again: its stage is
-- frozen for every operation of the repository.
use agent_task_platform.Prelude.{
  ℕ, String, ◌≡◌, refl, ◌≢◌, Bool, true, false, ◌&&◌, some, List, [], ◌∷◌, arith, string_eq,
  option_eq, pair_eq, eq_iff, option_beq_iff, contains, All, Option-cases, inl, inr,
}
use agent_task_platform.Domain.Status.{
  StageStatus, stage_status_beq, stage_status_eq, stage_status_beq_iff,
}
use agent_task_platform.Domain.Entities.{AgentStage, Dict, Json}
use agent_task_platform.Table.{find, update_where, find-update_where_miss, find-append}
use agent_task_platform.Store.State.{Store, stage_key}
use agent_task_platform.Store.Stages

-- A call of the repository that changes the table, but for the removal of a whole run's stages.
pub data StageCall : Type 0 where
  creates : AgentStage → StageCall
  begins : String → String → ℕ → String → StageCall
  checkpoints : String → String → String → Dict Json → StageCall
  succeeds : String → String → String → Json → StageCall
  fails : String → String → String → String → String → StageCall
  cancels : String → String → String → StageCall
  loses : String → String → String → String → String → StageCall
  begins_once : String → String → String → StageCall
  dispatches : String → String → String → StageCall
  returns : String → String → String → StageCall
  resets : String → StageCall

unfoldable pub perform : StageCall → Store → Store
perform (creates stage) s = (Stages.get_or_create stage s).1
perform (begins run key attempt token) s = (Stages.begin_attempt run key attempt token s).1
perform (checkpoints run key token value) s = (Stages.save_checkpoint run key token value s).1
perform (succeeds run key token output) s = (Stages.mark_succeeded run key token output s).1
perform (fails run key token kind text) s = (Stages.mark_failed run key token kind text s).1
perform (cancels run key token) s = (Stages.mark_canceled run key token s).1
perform (loses run key token kind text) s =
    (Stages.mark_outcome_unknown run key token kind text s).1
perform (begins_once run key token) s = (Stages.begin_side_effect_once run key token s).1
perform (dispatches run idempotency token) s =
    (Stages.mark_side_effect_dispatched run idempotency token s).1
perform (returns run idempotency token) s =
    (Stages.mark_side_effect_returned run idempotency token s).1
perform (resets run) s = (Stages.reset_failed_for_run run s).1

unfoldable pub perform_all : List StageCall → Store → Store
perform_all [] s = s
perform_all (c ∷ cs) s = perform_all cs (perform c s)

-- Sent, and no return recorded.
pub record IsDispatched (r : AgentStage) : Type 0 where
  pub unknown : r.status ≡ StageStatus.outcome_unknown
  pub unreturned : r.error_type ≡ some "SIDE_EFFECT_OUTCOME_UNKNOWN"

-- The call reports the return of this very execution of the effect.
abbrev pub reports_return : AgentStage → StageCall → Bool
reports_return r (returns run idempotency token) =
    Stages.is_effect run idempotency StageStatus.outcome_unknown token r
reports_return r _ = false

codes_differ : ◌≢◌ {A = String} "SIDE_EFFECT_OUTCOME_UNKNOWN" "SIDE_EFFECT_RETURNED"
codes_differ = ground (arith, eq_iff "SIDE_EFFECT_OUTCOME_UNKNOWN" "SIDE_EFFECT_RETURNED")

running_only : contains Stages.only_running StageStatus.outcome_unknown ≡ false
unfolding contains stage_status_beq
running_only = refl

module _ (r : AgentStage) (d : IsDispatched r) where
  not_begun : Stages.can_begin r ≡ false
  not_begun = ground (arith, d.unknown)

  not_active : (token : String) → Stages.is_active Stages.only_running false token r ≡ false
  not_active token = ground (arith, d.unknown, running_only)

  not_returned :
      (active : List StageStatus) (token : String) → Stages.is_active active true token r ≡ false
  not_returned active token = ground (
    arith,
    d.unknown,
    d.unreturned,
    codes_differ,
    stage_status_beq_iff r.status StageStatus.outcome_unknown,
    option_beq_iff r.error_type (some "SIDE_EFFECT_RETURNED"),
  )

  not_running :
      (run idempotency token : String)
      → Stages.is_effect run idempotency StageStatus.running token r ≡ false
  not_running run idempotency token =
      ground (arith, d.unknown, stage_status_beq_iff r.status StageStatus.running)

and_false : (a b : Bool) → b ≡ false → (a && b) ≡ false
and_false a b h = ground arith

module _ (run key : String) (r : AgentStage) (s : Store) (h : Stages.get run key s ≡ some r)
    (d : IsDispatched r) where
  missed :
      (p : AgentStage → Bool) (f : AgentStage → AgentStage)
      → ((a : AgentStage) → p a ≡ true → stage_key (f a) ≡ stage_key a)
      → p r ≡ false
      → find stage_key (run, key) (update_where p f s.stages) ≡ some r
  missed p f same miss = find-update_where_miss stage_key p f same (run, key) s.stages r h miss

  perform-frozen :
      (c : StageCall) → reports_return r c ≡ false → Stages.get run key (perform c s) ≡ some r
  unfolding perform Stages.get_or_create Stages.begin_attempt Stages.begun Stages.save_checkpoint
      Stages.checkpointed Stages.mark_succeeded Stages.succeeded Stages.mark_failed Stages.ended
      Stages.mark_canceled Stages.mark_outcome_unknown Stages.begin_side_effect_once
      Stages.begun_once Stages.mark_side_effect_dispatched Stages.mark_side_effect_returned
      Stages.reset_failed_for_run Stages.reset Stages.update_active
  perform-frozen (creates stage) q =
      elim (Option-cases (Stages.get stage.run_id stage.stage_key s)) [
        | inl e ↦
            rw (e, perform, Stages.get_or_create)
              (find-append stage_key (run, key) s.stages stage r h)
        | inr (old, e) ↦ rw (e, perform, Stages.get_or_create) h
      ]
  perform-frozen (begins run' key' attempt token) q =
      missed _ _ (λ a p. refl) (and_false _ _ (not_begun r d))
  perform-frozen (checkpoints run' key' token value) q =
      missed _ _ (λ a p. refl) (and_false _ _ (not_active r d token))
  perform-frozen (succeeds run' key' token output) q =
      missed _ _ (λ a p. refl) (and_false _ _ (not_returned r d _ token))
  perform-frozen (fails run' key' token kind text) q =
      missed _ _ (λ a p. refl) (and_false _ _ (not_active r d token))
  perform-frozen (cancels run' key' token) q =
      missed _ _ (λ a p. refl) (and_false _ _ (not_active r d token))
  perform-frozen (loses run' key' token kind text) q =
      missed _ _ (λ a p. refl) (and_false _ _ (not_active r d token))
  perform-frozen (begins_once run' key' token) q =
      missed _ _ (λ a p. refl) (and_false _ (Stages.is_untouched r) (ground (arith, d.unknown)))
  perform-frozen (dispatches run' idempotency token) q =
      missed _ _ (λ a p. refl) (not_running r d run' idempotency token)
  perform-frozen (returns run' idempotency token) q = missed _ _ (λ a p. refl) q
  perform-frozen (resets run') q =
      missed _ _ (λ a p. refl) (and_false _ (Stages.is_failed r.status) (ground (arith, d.unknown)))

-- A stage whose side effect was sent, and whose return is not recorded, is not changed by any
-- sequence of the repository's operations, the removal of a run's stages apart, in which nobody
-- reports the return of that very execution: it is not begun again, nor reset by a retry of the run,
-- nor marked as succeeded, failed or canceled.
pub dispatched_effect_frozen :
    (run key : String) (r : AgentStage) (cs : List StageCall) (s : Store)
    → Stages.get run key s ≡ some r
    → IsDispatched r
    → All (λ c. reports_return r c ≡ false) cs
    → Stages.get run key (perform_all cs s) ≡ some r
unfolding perform_all
dispatched_effect_frozen run key r [] s h d q = h
dispatched_effect_frozen run key r (c ∷ cs) s h d q =
    dispatched_effect_frozen run key r cs (perform c s) (perform-frozen run key r s h d c q.0) d q.1
