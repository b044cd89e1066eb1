-- ===== src/StageRunner/Stored.antt =====
-- When a stage ends with an output, the output is stored in its row.
use agent_task_platform.Prelude.{
  String, ◌≡◌, refl, true, Option, some, string_eq, pair_eq, option_eq, nat_eq, inl, inr,
  Bool-cases, Option-cases,
}
use agent_task_platform.Domain.Status.{StageStatus, stage_status_eq}
use agent_task_platform.Domain.Entities.{AgentStage, Json}
use agent_task_platform.Store.State.{StagesUnique}
use agent_task_platform.Store.Stages
use agent_task_platform.StageRunner.{
  StageWorld, StageEnvironment, Runner, StageRequest, done, fault, is_cancelled, is_unchanged,
  resume, begin, execute, conclude, store_output, set_current_step, log, OperationEnd, on_cancelled,
  on_unknown, on_failed, on_refused, superseded, canceled, outcome_unknown, unknown_text, returned,
  run_cancelled, interrupted, stale, unknown, failed,
}
use agent_task_platform.StageRunner.Known.{
  IsKnown, KeepsStage, Ends, marked, begun-IsKnown, step-IsKnown, logged-IsKnown,
}

module _ (env : StageEnvironment) (r : Runner) (q : StageRequest) where
  -- A stage whose end is a fault stores no output.
  cancelled-Ends : (a : AgentStage) (w : StageWorld) → Ends env r q (on_cancelled env r q a w)
  unfolding on_cancelled
  cancelled-Ends a w = tt

  unknown-Ends :
      (a : AgentStage) (name text : String) (w : StageWorld)
      → Ends env r q (on_unknown env r q a name text w)
  unfolding on_unknown
  unknown-Ends a name text w = tt

  failed-Ends :
      (a : AgentStage) (name text : String) (w : StageWorld)
      → Ends env r q (on_failed env r q a name text w)
  unfolding on_failed
  failed-Ends a name text w = tt

  refused-Ends : (a : AgentStage) (w : StageWorld) → Ends env r q (on_refused env r q a w)
  unfolding on_refused
  refused-Ends a w = elim (Option-cases (Stages.get r.run.run_id q.key w.store)) [
    | inl e ↦ rw (e, on_refused) tt
    | inr (row, e) ↦ rw (e, on_refused) (by_status row.status row.error_message)
  ]
    where
      by_status :
          (st : StageStatus) (message : Option String)
          → Ends env r q (elim st [
            | StageStatus.outcome_unknown ↦
                on_unknown env r q a "ExternalSideEffectOutcomeUnknownError"
                  (unknown_text q.key message)
                  w
            | _ ↦ (fault superseded, env.on_stage_end a (log r "stage_superseded" w))
          ])
      by_status StageStatus.outcome_unknown message = unknown-Ends a _ _ w
      by_status _ message = tt

  module _ (keep : KeepsStage env r q) where
    store_output-Ends :
        (a : AgentStage) (output : Json) (w : StageWorld)
        → IsKnown env r q w
        → Ends env r q (store_output env r q a output w)
    unfolding store_output
    store_output-Ends a output w k = elim (Bool-cases (is_cancelled r w)) [
      | inl e ↦ rw (e, store_output) (cancelled-Ends a w)
      | inr e ↦
          elim (Bool-cases
            (Stages.mark_succeeded r.run.run_id q.key q.execution_id output w.store).0) [
              | inr f ↦ rw (e, f, store_output) (refused-Ends a _)
              | inl f ↦
                  let s = marked env r q output w k f in
                  rw (e, f, store_output)
                    (record {
                      row = s.row;
                      found = keep.on_stage_end a _ s.row s.found;
                      unchanged = s.unchanged;
                      status = s.status;
                      same_output = s.same_output;
                    })
            ]
    ]

    conclude-Ends :
        (a : AgentStage) (o : OperationEnd) (w : StageWorld)
        → IsKnown env r q w
        → Ends env r q (conclude env r q a o w)
    unfolding conclude
    conclude-Ends a (returned output) w k = store_output-Ends a output w k
    conclude-Ends a run_cancelled w k = cancelled-Ends a w
    conclude-Ends a interrupted w k = tt
    conclude-Ends a stale w k = tt
    conclude-Ends a (unknown name text) w k = unknown-Ends a name text w
    conclude-Ends a (failed name text) w k = failed-Ends a name text w

    execute-Ends :
        (a : AgentStage) (w : StageWorld) → IsKnown env r q w → Ends env r q (execute env r q a w)
    unfolding execute
    execute-Ends a w k = elim (Bool-cases (set_current_step r q.key w).0) [
      | inr e ↦ rw (e, execute) tt
      | inl e ↦
          let w1 = (set_current_step r q.key w).1 in
          let started = env.on_stage_start a (log r "stage_started" w1) in
          rw (e, execute)
            (conclude-Ends a (env.operation a started).0 (env.operation a started).1 (
              keep.operation a started (
                keep.on_stage_start a (log r "stage_started" w1)
                  (logged-IsKnown env r q "stage_started" w1 (step-IsKnown env r q w k)))))
    ]

    begin-Ends : (w : StageWorld) → IsKnown env r q w → Ends env r q (begin env r q w)
    unfolding begin
    begin-Ends w k =
        elim (Option-cases
          (Stages.begin_attempt r.run.run_id q.key r.run.attempts q.execution_id w.store).0) [
            | inl e ↦ rw (e, begin) tt
            | inr (a, e) ↦ rw (e, begin) (execute-Ends a _ (begun-IsKnown env r q w k))
          ]

    pub resume-Ends :
        (row : AgentStage) (w : StageWorld)
        → Stages.get r.run.run_id q.key w.store ≡ some row
        → StagesUnique w.store
        → Ends env r q (resume env r q row w)
    unfolding resume
    resume-Ends row w found u = elim (Bool-cases (is_unchanged env r q row)) [
      | inr e ↦ rw (e, resume) tt
      | inl e ↦
          rw (e, resume)
            (by_status row.status refl e
              (begin-Ends w (record { row = row; found = found; unchanged = e; unique = u })))
    ]
      where
        by_status :
            (st : StageStatus)
            → row.status ≡ st
            → is_unchanged env r q row ≡ true
            → Ends env r q (begin env r q w)
            → Ends env r q (elim st [
              | StageStatus.succeeded ↦ (done row.output, log r "stage_resumed" w)
              | StageStatus.canceled ↦ (fault canceled, w)
              | StageStatus.outcome_unknown ↦
                  (fault (outcome_unknown (unknown_text q.key row.error_message)), w)
              | _ ↦ begin env r q w
            ])
        by_status StageStatus.succeeded g e b = record {
          row = row;
          found = found;
          unchanged = e;
          status = g;
          same_output = refl;
        }
        by_status StageStatus.canceled g e b = tt
        by_status StageStatus.outcome_unknown g e b = tt
        by_status _ g e b = b
