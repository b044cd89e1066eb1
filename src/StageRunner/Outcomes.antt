-- ===== src/StageRunner/Outcomes.antt =====
-- What the end of an execution that still holds its stage writes into the stage's row.
use agent_task_platform.Prelude.{
  ℕ, String, ◌≡◌, refl, Bool, true, false, none, some, List, [], ◌∷◌, arith, if◌then◌else◌,
  string_eq, pair_eq, option_eq, contains, inl, inr, Bool-cases, option_beq_iff,
}
use agent_task_platform.Domain.Status.{StageStatus, stage_status_eq, stage_status_beq}
use agent_task_platform.Domain.Entities.{AgentStage, Json}
use agent_task_platform.Store.State.{StagesUnique}
use agent_task_platform.Store.Stages
use agent_task_platform.Store.Stages.Active.{update_active_hit}
use agent_task_platform.StageRunner.{
  StageWorld, StageEnvironment, Runner, StageRequest, StageResult, done, fault, is_cancelled,
  conclude, store_output, OperationEnd, on_cancelled, on_unknown, on_failed, returned,
  run_cancelled, interrupted, stale, unknown, failed, superseded, canceled, stopped, raised,
  outcome_unknown,
}

-- The independent description of the end of an execution: what is raised or returned, and the row.
abbrev pub answer : Bool → OperationEnd → StageResult
answer stopped_run (returned output) = if stopped_run then fault canceled else done output
answer stopped_run run_cancelled = fault canceled
answer stopped_run interrupted = fault stopped
answer stopped_run stale = fault superseded
answer stopped_run (unknown name text) = fault (outcome_unknown text)
answer stopped_run (failed name text) = fault (raised name text)

abbrev pub recorded : Bool → OperationEnd → ℕ → AgentStage → AgentStage
recorded stopped_run (returned output) now row =
    if stopped_run
    then record row { status = StageStatus.canceled; finish_time = some now; update_time = now }
    else record row {
      status = StageStatus.succeeded;
      output = output;
      checkpoint = none;
      error_type = none;
      error_message = none;
      finish_time = some now;
      update_time = now;
    }
recorded stopped_run run_cancelled now row = record row {
  status = StageStatus.canceled;
  finish_time = some now;
  update_time = now;
}
recorded stopped_run interrupted now row = row
recorded stopped_run stale now row = row
recorded stopped_run (unknown name text) now row = record row {
  status = StageStatus.outcome_unknown;
  error_type = some name;
  error_message = some text;
  finish_time = some now;
  update_time = now;
}
recorded stopped_run (failed name text) now row = record row {
  status = StageStatus.failed;
  error_type = some name;
  error_message = some text;
  finish_time = some now;
  update_time = now;
}

module _ (env : StageEnvironment) (r : Runner) (q : StageRequest) (a : AgentStage) (w : StageWorld)
    (row : AgentStage) (u : StagesUnique w.store)
    (found : Stages.get r.run.run_id q.key w.store ≡ some row) where
  -- The execution ends with this result, and its hook is called in a world with this row.
  pub record EndsWith (e : StageResult × StageWorld) (result : StageResult) (after : AgentStage)
      : Type 0 where
    pub world : StageWorld
    pub answered : e.0 ≡ result
    pub handed_on : e.1 ≡ env.on_stage_end a world
    pub row_after : Stages.get r.run.run_id q.key world.store ≡ some after

  module _ (running : row.status ≡ StageStatus.running)
      (own : row.execution_id ≡ some q.execution_id) where
    active_row :
        (returns : Bool) (others : List StageStatus)
        → Stages.is_active (StageStatus.running ∷ others) returns q.execution_id row ≡ true
    unfolding contains stage_status_beq
    active_row returns others =
        ground (arith, running, own, option_beq_iff row.execution_id (some q.execution_id))

    cancels :
        EndsWith
          (on_cancelled env r q a w)
          (fault canceled)
          (recorded true run_cancelled w.store.clock row)
    unfolding on_cancelled Stages.mark_canceled
    cancels =
        let (_, stored) =
          update_active_hit r.run.run_id q.key Stages.only_running false q.execution_id
            (λ b. record b {
              status = StageStatus.canceled;
              finish_time = some w.store.clock;
              update_time = w.store.clock;
            })
            row w.store u found (λ b. refl) (active_row false []) in
        record { world = _; answered = refl; handed_on = refl; row_after = stored }

    fails :
        (name text : String)
        → EndsWith
            (on_failed env r q a name text w)
            (fault (raised name text))
            (recorded true (failed name text) w.store.clock row)
    unfolding on_failed Stages.mark_failed Stages.ended
    fails name text =
        let (_, stored) =
          update_active_hit r.run.run_id q.key Stages.only_running false q.execution_id
            (Stages.ended StageStatus.failed name text w.store.clock) row w.store u found
            (λ b. refl) (active_row false []) in
        record { world = _; answered = refl; handed_on = refl; row_after = stored }

    loses :
        (name text : String)
        → EndsWith
            (on_unknown env r q a name text w)
            (fault (outcome_unknown text))
            (recorded true (unknown name text) w.store.clock row)
    unfolding on_unknown Stages.mark_outcome_unknown Stages.ended
    loses name text =
        let (_, stored) =
          update_active_hit r.run.run_id q.key Stages.only_running false q.execution_id
            (Stages.ended StageStatus.outcome_unknown name text w.store.clock) row w.store u found
            (λ b. refl) (active_row false []) in
        record { world = _; answered = refl; handed_on = refl; row_after = stored }

    marks :
        (output : Json)
        → let after = Stages.mark_succeeded r.run.run_id q.key q.execution_id output w.store in
          (after.0 ≡ true)
          × (Stages.get r.run.run_id q.key after.1
              ≡ some (recorded false (returned output) w.store.clock row))
    unfolding Stages.mark_succeeded Stages.succeeded
    marks output =
        update_active_hit r.run.run_id q.key
          (StageStatus.running ∷ StageStatus.outcome_unknown ∷ []) true q.execution_id
          (Stages.succeeded output w.store.clock) row w.store u found (λ b. refl)
          (active_row true (StageStatus.outcome_unknown ∷ []))

    stores :
        (output : Json)
        → EndsWith
            (store_output env r q a output w)
            (answer (is_cancelled r w) (returned output))
            (recorded (is_cancelled r w) (returned output) w.store.clock row)
    unfolding store_output
    stores output = elim (Bool-cases (is_cancelled r w)) [
      | inl e ↦ rw (e, store_output) cancels
      | inr e ↦
          let (marked, stored) = marks output in
          rw (e, marked, store_output)
            (record { world = _; answered = refl; handed_on = refl; row_after = stored })
    ]

    ends :
        (o : OperationEnd)
        → EndsWith
            (conclude env r q a o w)
            (answer (is_cancelled r w) o)
            (recorded (is_cancelled r w) o w.store.clock row)
    unfolding conclude
    ends (returned output) = stores output
    ends run_cancelled = cancels
    ends interrupted = record { world = _; answered = refl; handed_on = refl; row_after = found }
    ends stale = record { world = _; answered = refl; handed_on = refl; row_after = found }
    ends (unknown name text) = loses name text
    ends (failed name text) = fails name text

-- However an execution ends that still holds its stage, what is raised or returned and what is
-- recorded in the row of the stage are those of the description above: a failure, an unknown outcome
-- and a cancellation are recorded with their reason, an interruption leaves the stage as it runs, and
-- an output of a run that has been canceled meanwhile is dropped. Then only the hook is called.
pub conclude_records :
    (env : StageEnvironment) (r : Runner) (q : StageRequest) (a : AgentStage) (o : OperationEnd)
    (w : StageWorld) (row : AgentStage) (u : StagesUnique w.store)
    (found : Stages.get r.run.run_id q.key w.store ≡ some row)
    → row.status ≡ StageStatus.running
    → row.execution_id ≡ some q.execution_id
    → EndsWith env r q a w row u found
        (conclude env r q a o w)
        (answer (is_cancelled r w) o)
        (recorded (is_cancelled r w) o w.store.clock row)
conclude_records env r q a o w row u found running own = ends env r q a w row u found running own o
