-- ===== src/StageRunner/Supersede.antt =====
-- What an execution writes that has lost its stage to another one.
use agent_task_platform.Prelude.{
  String, ◌≡◌, refl, ◌≢◌, Bool, true, false, some, List, [], ◌∷◌, arith, string_eq, pair_eq,
  option_eq, inl, inr, Bool-cases, option_beq_iff,
}
use agent_task_platform.Domain.Status.{StageStatus, stage_status_eq}
use agent_task_platform.Domain.Entities.{AgentStage, Json}
use agent_task_platform.Store.State.{StagesUnique}
use agent_task_platform.Store.Stages
use agent_task_platform.Store.Stages.Active.{update_active_refused}
use agent_task_platform.StageRunner.{
  StageWorld, StageEnvironment, Runner, StageRequest, StageResult, done, fault, is_cancelled,
  conclude, store_output, log, OperationEnd, on_cancelled, on_unknown, on_failed, on_refused,
  returned, run_cancelled, interrupted, stale, unknown, failed, superseded, unknown_text,
}

module _ (env : StageEnvironment) (r : Runner) (q : StageRequest) (a : AgentStage) (w : StageWorld)
    (row : AgentStage) (u : StagesUnique w.store)
    (found : Stages.get r.run.run_id q.key w.store ≡ some row) where
  module _ (foreign : row.execution_id ≢ some q.execution_id) where
    inactive :
        (active : List StageStatus) (returns : Bool)
        → Stages.is_active active returns q.execution_id row ≡ false
    inactive active returns =
        ground (arith, foreign, option_beq_iff row.execution_id (some q.execution_id))

    refused_update :
        (active : List StageStatus) (returns : Bool) (f : AgentStage → AgentStage)
        → Stages.update_active r.run.run_id q.key active returns q.execution_id f w.store
          ≡ (false, w.store)
    refused_update active returns f =
        update_active_refused r.run.run_id q.key active returns q.execution_id f row w.store u found
          (inactive active returns)

    -- Nothing is written, and no output is returned.
    pub record IsDisowned (e : StageResult × StageWorld) : Type 0 where
      pub world : StageWorld
      pub no_output : (output : Json) → e.0 ≢ done output
      pub handed_on : e.1 ≡ env.on_stage_end a world
      pub same_stages : world.store.stages ≡ w.store.stages
      pub same_runs : world.store.runs ≡ w.store.runs

    unknown_refused : (name text : String) → IsDisowned (on_unknown env r q a name text w)
    unfolding on_unknown Stages.mark_outcome_unknown
    unknown_refused name text =
        rw
          (refused_update Stages.only_running false
            (Stages.ended StageStatus.outcome_unknown name text w.store.clock))
          (record {
            world = _;
            no_output = λ o. cc;
            handed_on = refl;
            same_stages = refl;
            same_runs = refl;
          })

    failed_refused : (name text : String) → IsDisowned (on_failed env r q a name text w)
    unfolding on_failed Stages.mark_failed
    failed_refused name text =
        rw
          (refused_update Stages.only_running false
            (Stages.ended StageStatus.failed name text w.store.clock))
          (record {
            world = _;
            no_output = λ o. cc;
            handed_on = refl;
            same_stages = refl;
            same_runs = refl;
          })

    cancel_refused : IsDisowned (on_cancelled env r q a w)
    unfolding on_cancelled Stages.mark_canceled
    cancel_refused = rw (refused_update Stages.only_running false _) (record {
      world = _;
      no_output = λ o. cc;
      handed_on = refl;
      same_stages = refl;
      same_runs = refl;
    })

    refusal_refused : IsDisowned (on_refused env r q a w)
    unfolding on_refused
    refusal_refused = rw (found, on_refused) (by_status row.status)
      where
        by_status :
            (st : StageStatus)
            → IsDisowned (elim st [
              | StageStatus.outcome_unknown ↦
                  on_unknown env r q a "ExternalSideEffectOutcomeUnknownError"
                    (unknown_text q.key row.error_message)
                    w
              | _ ↦ (fault superseded, env.on_stage_end a (log r "stage_superseded" w))
            ])
        by_status StageStatus.outcome_unknown = unknown_refused _ _
        by_status _ = record {
          world = _;
          no_output = λ o. cc;
          handed_on = refl;
          same_stages = refl;
          same_runs = refl;
        }

    store_refused : (output : Json) → IsDisowned (store_output env r q a output w)
    unfolding store_output Stages.mark_succeeded
    store_refused output = elim (Bool-cases (is_cancelled r w)) [
      | inl e ↦ rw (e, store_output) cancel_refused
      | inr e ↦
          rw
            (
              e,
              refused_update (StageStatus.running ∷ StageStatus.outcome_unknown ∷ []) true
                  (Stages.succeeded output w.store.clock),
              store_output,
            )
            refusal_refused
    ]

    disowned : (o : OperationEnd) → IsDisowned (conclude env r q a o w)
    unfolding conclude
    disowned (returned output) = store_refused output
    disowned run_cancelled = cancel_refused
    disowned interrupted = record {
      world = _;
      no_output = λ o. cc;
      handed_on = refl;
      same_stages = refl;
      same_runs = refl;
    }
    disowned stale = record {
      world = _;
      no_output = λ o. cc;
      handed_on = refl;
      same_stages = refl;
      same_runs = refl;
    }
    disowned (unknown name text) = unknown_refused name text
    disowned (failed name text) = failed_refused name text

-- An execution whose stage has been begun again under another token meanwhile returns no output and
-- changes neither the stages nor the runs, however its operation ended: only its hook is called.
pub superseded_writes_nothing :
    (env : StageEnvironment) (r : Runner) (q : StageRequest) (a : AgentStage) (o : OperationEnd)
    (w : StageWorld) (row : AgentStage) (u : StagesUnique w.store)
    (found : Stages.get r.run.run_id q.key w.store ≡ some row)
    (foreign : row.execution_id ≢ some q.execution_id)
    → IsDisowned env r q a w row u found foreign (conclude env r q a o w)
superseded_writes_nothing env r q a o w row u found foreign =
    disowned env r q a w row u found foreign o
