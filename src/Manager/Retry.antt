-- ===== src/Manager/Retry.antt =====
-- What `retry` queues again, and what it leaves alone; attempts that a lost lease interrupts.
use mathlib.Core.Option
use agent_task_platform.Prelude.{
  none, ◌-◌, ◌≢◌, ◌↔◌, inl, inr, Bool-cases, ℕ, suc, String, ◌≡◌, refl, sym, ◌∙◌, ap, subst, true,
  false, Option, some, arith, if◌then◌else◌, ◌==◌, ◌&&◌, string_eq, pair_eq, eq_iff, contains,
}
use agent_task_platform.Domain.Status.{RunStatus, StageStatus}
use agent_task_platform.Domain.Lifecycle.{is_executing}
use agent_task_platform.Domain.Entities.{AgentRun, AgentSpec, AgentStage}
use agent_task_platform.Table.{find, find-key, find-update_where, find-merge}
use agent_task_platform.Store.State.{Store, run_key, stage_key}
use agent_task_platform.Store.Runs
use agent_task_platform.Store.Runs.{claim}
use agent_task_platform.Store.Runs.Update.{stamped}
use agent_task_platform.Store.Stages
use agent_task_platform.World.{World, ok, run_in, dict_set, dict_pop}
use agent_task_platform.Manager.{
  retry, requeued, can_retry, is_outcome_unknown, start_background, with_store,
}
use agent_task_platform.Executor.Outcome.{Environment}
use agent_task_platform.Executor.{
  started, execute, execute_with_cancel, attempt_loop, attempt_limit, timeout_for,
}
use agent_task_platform.Manager.Recovery.{reclaimed, recovered}

in_background : (id : String) (w : World) → contains (start_background id w).1.background id ≡ true
unfolding start_background contains
in_background id w = ground (arith, eq_iff id id)

kept :
    (id : String) (w : World)
    → ((start_background id w).1.store.runs ≡ w.store.runs)
      × ((start_background id w).1.store.stages ≡ w.store.stages)
unfolding start_background
kept id w = ground arith

module _ (run_id : String) (w : World) (run : AgentRun) (agent : AgentSpec) where
  abbrev queued_again : AgentRun
  queued_again = requeued agent w.store.clock run

  abbrev stored_again : Store
  stored_again = Runs.update queued_again (Stages.reset_failed_for_run run_id w.store).1

  retried :
      (resolve : AgentRun → Option AgentSpec)
      → run_in run_id w ≡ some run
      → resolve run ≡ some agent
      → can_retry run.status ≡ true
      → is_outcome_unknown run.error_type ≡ false
      → retry resolve run_id w
        ≡ (ok queued_again, (start_background run_id (with_store stored_again w)).1)
  unfolding retry
  retried resolve found route may sure = rw (found, may, sure, route, retry) refl

  row_again :
      run_in run_id w ≡ some run
      → Runs.get run_id stored_again ≡ some (stamped queued_again w.store)
  unfolding Runs.update Stages.reset_failed_for_run requeued
  row_again found =
      find-merge run_key (stamped queued_again w.store) run_id w.store.runs
      ∙ ground (arith, find-key run_key run_id w.store.runs run found, eq_iff run.run_id run_id)

  stage_again :
      (owner key : String) (stage : AgentStage)
      → Stages.get owner key w.store ≡ some stage
      → Stages.get owner key stored_again
        ≡ some (
            if owner == run_id && Stages.is_failed stage.status
            then Stages.reset w.store.clock stage
            else stage)
  unfolding Runs.update Stages.reset_failed_for_run
  stage_again owner key stage staged =
      find-update_where stage_key _ (Stages.reset w.store.clock)
        (λ a p. unfold Stages.reset in refl) (owner, key) w.store.stages
      ∙ ap
          (Option.map (λ a.
            if a.run_id == run_id && Stages.is_failed a.status
            then Stages.reset w.store.clock a
            else a))
          staged
      ∙ ap
          (λ o. some (
            if o == run_id && Stages.is_failed stage.status
            then Stages.reset w.store.clock stage
            else stage))
          (ap (λ p. p.0) (find-key stage_key (owner, key) w.store.stages stage staged))

-- The row, the stage and the background after a retry.
retry_effect :
    (resolve : AgentRun → Option AgentSpec) (run_id : String) (w : World) (run : AgentRun)
    (agent : AgentSpec) (owner key : String) (stage : AgentStage)
    → run_in run_id w ≡ some run
    → resolve run ≡ some agent
    → can_retry run.status ≡ true
    → is_outcome_unknown run.error_type ≡ false
    → Stages.get owner key w.store ≡ some stage
    → let after = (retry resolve run_id w).1 in
      (run_in run_id after ≡ some (stamped (requeued agent w.store.clock run) w.store))
      × (Stages.get owner key after.store
          ≡ some (
              if owner == run_id && Stages.is_failed stage.status
              then Stages.reset w.store.clock stage
              else stage))
      × (contains after.background run_id ≡ true)
unfolding retry
retry_effect resolve run_id w run agent owner key stage found route may sure staged =
    let w1 = with_store (stored_again run_id w run agent) w in
    subst
      (λ w2.
        (run_in run_id w2 ≡ some (stamped (requeued agent w.store.clock run) w.store))
        × (Stages.get owner key w2.store
            ≡ some (
                if owner == run_id && Stages.is_failed stage.status
                then Stages.reset w.store.clock stage
                else stage))
        × (contains w2.background run_id ≡ true))
      (ap (λ p. p.1) (sym (retried run_id w run agent resolve found route may sure)))
      (
        ap (λ rows. find run_key run_id rows) (kept run_id w1).0
            ∙ row_again run_id w run agent found,
        ap (λ rows. find stage_key (owner, key) rows) (kept run_id w1).1
            ∙ stage_again run_id w run agent owner key stage staged,
        in_background run_id w1,
      )

-- The row that a retry leaves: queued for the agent, due at once, with no attempt, no error and no
-- owner, and still asking for the same.
pub record IsQueuedAgain (agent : AgentSpec) (now : ℕ) (run row : AgentRun) : Type 0 where
  pub status : row.status ≡ RunStatus.queued
  pub attempts : row.attempts ≡ 0
  pub max_attempts : row.max_attempts ≡ agent.retry_policy.max_attempts
  pub error : (row.error_type ≡ none) × (row.error_message ≡ none)
  pub dead_letter : row.dead_letter_reason ≡ none
  pub queued_at : row.queue_time ≡ some now
  pub due : row.run_after ≡ some now
  pub free : (row.worker ≡ none) × (row.lease_expire_time ≡ none)
  pub request : (row.run_id ≡ run.run_id) × (row.input ≡ run.input)

-- What a retry of a run does with a stage of the run `owner`.
pub data StageAfter (run_id owner : String) (stage : AgentStage) : AgentStage → Type 0 where
  pending_again :
      (row : AgentStage)
      → owner ≡ run_id
      → stage.status ≡ StageStatus.failed
      → row.status ≡ StageStatus.pending
      → row.attempts ≡ 0
      → row.execution_id ≡ none
      → row.error_type ≡ none
      → row.error_message ≡ none
      → row.finish_time ≡ none
      → row.stage_key ≡ stage.stage_key
      → row.checkpoint ≡ stage.checkpoint
      → StageAfter run_id owner stage row
  of_another_run : owner ≢ run_id → StageAfter run_id owner stage stage
  not_failed : stage.status ≢ StageStatus.failed → StageAfter run_id owner stage stage

is_failed_iff : (st : StageStatus) → (Stages.is_failed st ≡ true) ↔ (st ≡ StageStatus.failed)
is_failed_iff st = ((λ h. ground (arith, h)), (λ e. ap Stages.is_failed e))

stage_after :
    (run_id owner : String) (now : ℕ) (stage : AgentStage)
    → StageAfter run_id owner stage
        (if owner == run_id && Stages.is_failed stage.status then Stages.reset now stage else stage)
unfolding Stages.reset
stage_after run_id owner now stage = elim (Bool-cases (owner == run_id)) [
  | inr other' ↦ rw other' (of_another_run (λ e. ground (arith, (eq_iff owner run_id).1 e, other')))
  | inl same ↦
      rw same
        (elim (Bool-cases (Stages.is_failed stage.status))
          as (λ _.
            StageAfter run_id owner stage
              (if Stages.is_failed stage.status then Stages.reset now stage else stage)) [
                | inr live ↦
                    rw live
                      (not_failed (λ e. ground (arith, (is_failed_iff stage.status).1 e, live)))
                | inl dead ↦ rw dead (
                    pending_again (Stages.reset now stage) ((eq_iff owner run_id).0 same)
                      ((is_failed_iff stage.status).0 dead) refl refl refl refl refl refl refl refl)
              ])
]

-- A retry of a run that may be retried and whose agent resolves: the row is queued for the agent with
-- no attempts, errors or owner, and a task for it is in the background; a stage of it that had FAILED
-- is PENDING again with no attempts, token or error, and every other stage, of this run or of another,
-- is exactly as it was.
pub retry_resets_failed_stages :
    (resolve : AgentRun → Option AgentSpec) (run_id : String) (w : World) (run : AgentRun)
    (agent : AgentSpec) (owner key : String) (stage : AgentStage)
    → run_in run_id w ≡ some run
    → resolve run ≡ some agent
    → can_retry run.status ≡ true
    → is_outcome_unknown run.error_type ≡ false
    → Stages.get owner key w.store ≡ some stage
    → let after = (retry resolve run_id w).1 in
      ((row : AgentRun) × (run_in run_id after ≡ some row)
        × IsQueuedAgain agent w.store.clock run row)
      × ((row : AgentStage) × (Stages.get owner key after.store ≡ some row)
          × StageAfter run_id owner stage row)
      × (contains after.background run_id ≡ true)
unfolding requeued
retry_resets_failed_stages resolve run_id w run agent owner key stage found route may sure staged =
    let (row, stage_row, running) =
      retry_effect resolve run_id w run agent owner key stage found route may sure staged in
    (
      (
        stamped (requeued agent w.store.clock run) w.store,
        row,
        record {
          status = refl;
          attempts = refl;
          max_attempts = refl;
          error = (refl, refl);
          dead_letter = refl;
          queued_at = refl;
          due = refl;
          free = (refl, refl);
          request = (refl, refl);
        },
      ),
      (
        if owner == run_id && Stages.is_failed stage.status
            then Stages.reset w.store.clock stage
            else stage,
        stage_row,
        stage_after run_id owner w.store.clock stage,
      ),
      running,
    )

-- How a row whose attempt was begun, and whose worker was lost, stands when it is claimed next: as it
-- was, or queued by the sweep for expired leases, or queued by the recovery sweep.
pub data LeftBehind (agent : AgentSpec) (begun : AgentRun) : AgentRun → Type 0 where
  as_it_was : LeftBehind agent begun begun
  by_reclaim : LeftBehind agent begun (reclaimed begun)
  by_recovery : (now : ℕ) → LeftBehind agent begun (recovered agent now begun)

started-executing : (n now : ℕ) (row : AgentRun) → is_executing (started n now row).status ≡ true
unfolding started
started-executing n now row = ground arith

claimed_attempts :
    (agent : AgentSpec) (n begun_at now lease : ℕ) (worker_id : String) (row left : AgentRun)
    → LeftBehind agent (started (suc n) begun_at row) left
    → (claim worker_id lease now left).attempts ≡ n
unfolding claim reclaimed recovered started
claimed_attempts agent n begun_at now lease worker_id row left (as_it_was) = ground arith
claimed_attempts agent n begun_at now lease worker_id row left (by_reclaim) = ground arith
claimed_attempts agent n begun_at now lease worker_id row left (by_recovery t) = ground arith

-- An attempt that a worker had begun and whose lease was lost is not counted. Let an execution have
-- begun its attempt n + 1 on a row, and the row be claimed again, as it was or after either sweep has
-- queued it. Then the execution under the new claim starts its loop with the same attempt n + 1, with
-- the attempts left from there.
pub lost_attempt_is_repeated :
    (env : Environment) (agent : AgentSpec) (worker_id run_id : String)
    (n begun_at lease_seconds now : ℕ) (row left : AgentRun) (w : World)
    → LeftBehind agent (started (suc n) begun_at row) left
    → run_in run_id w ≡ some (claim worker_id lease_seconds now left)
    → let run = claim worker_id lease_seconds now left in
      let ended =
        attempt_loop
          (attempt_limit agent - n)
          env
          agent
          (some worker_id)
          (timeout_for agent run)
          (suc n)
          (attempt_limit agent)
          run
          (record w { cancellation_events = dict_set run_id false w.cancellation_events }) in
      execute env agent (some worker_id) run_id w ≡ (
        ended.0,
        record ended.1 { cancellation_events = dict_pop run_id ended.1.cancellation_events },
      )
unfolding execute execute_with_cancel
lost_attempt_is_repeated env agent worker_id run_id n begun_at lease_seconds now row left w lost
      found =
    rw
      (
        found,
        claimed_attempts agent n begun_at now lease_seconds worker_id row left lost,
        execute,
        execute_with_cancel,
      )
      refl
