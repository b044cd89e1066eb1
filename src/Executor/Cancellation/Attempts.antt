-- ===== src/Executor/Cancellation/Attempts.antt =====
-- The attempts of an execution leave a canceled run canceled.
use agent_task_platform.Prelude.{
  ℕ, zero, suc, String, ◌≡◌, refl, sym, subst, false, Option, none, some, [], ◌∷◌, arith, ◌⊎◌, inl,
  inr, Option-cases,
}
use agent_task_platform.Domain.Status.{run_status_eq}
use agent_task_platform.Domain.Lifecycle.{executing_run_statuses}
use agent_task_platform.Domain.Entities.{AgentRun, AgentSpec, Dict, Json, delay_for_attempt}
use agent_task_platform.Store.Runs.Keeping.{contains-one}
use agent_task_platform.World.{World, run_in, update_owned}
use agent_task_platform.Executor.Outcome.{
  Environment, Outcome, RunErrorResult, handler_kind, checked,
}
use agent_task_platform.Executor.Steps.{
  Step, finished, again, stopped, prepare, prepare_if_asked, log_failed, agent_succeeded, succeed,
  finalize, record_failure, fail, conclude, recovered,
}
use agent_task_platform.Executor.{
  run_attempt, attempt_once, finish, is_canceled, or_status, after_step, attempt_loop, started,
}
use agent_task_platform.Executor.Cancellation.Rows.{
  Holds, Respects, C, owned-keeps, executing-keeps, same-keeps, prepare-keeps,
  prepare_if_asked-keeps, mark_queue_completed-keeps, mark_queue_dead-keeps, StepHolds,
}

module _ (k : String) (env : Environment) (respects : Respects env k C) (agent : AgentSpec)
    (worker : Option String) where
  succeed-keeps :
      (output : Dict Json) (missing : AgentRun → World → Step) (run : AgentRun) (w : World)
      → ((r : AgentRun) (v : World) → Holds k C v → StepHolds k (missing r v))
      → Holds k C w
      → StepHolds k (succeed env worker output missing run w)
  unfolding succeed
  succeed-keeps output missing run w keep h = elim (Option-cases (run_in run.run_id w)) [
    | inl e ↦ rw (e, succeed) (keep run w h)
    | inr (r, e) ↦
        rw (e, succeed)
          (let done = agent_succeeded output r w.store.clock in
            let w1 = (update_owned done executing_run_statuses worker w).1 in
            let h1 : Holds k C w1 = executing-keeps k done worker w h in
            ground (
              arith,
              h1,
              mark_queue_completed-keeps k run.run_id worker (prepare env done w1)
                  (prepare-keeps k env done w1 h1),
            ))
  ]

  finalize-keeps :
      (result : RunErrorResult) (run : AgentRun) (w : World)
      → Holds k C w
      → StepHolds k (finalize env worker result run w)
  unfolding finalize
  finalize-keeps result run w h =
      let done = recovered result run w.store.clock in
      let w1 = (update_owned done executing_run_statuses worker w).1 in
      let h1 : Holds k C w1 = executing-keeps k done worker w h in
      ground (
        arith,
        h1,
        mark_queue_completed-keeps k run.run_id worker (prepare_if_asked env done w1)
            (prepare_if_asked-keeps k env done w1 h1),
      )

  record_failure-keeps :
      (attempt attempts : ℕ) (run : AgentRun) (w : World)
      → Holds k C w
      → StepHolds k (record_failure env agent worker attempt attempts run w)
  unfolding record_failure
  record_failure-keeps attempt attempts run w h =
      let w1 = (update_owned run executing_run_statuses worker w).1 in
      let h1 : Holds k C w1 = executing-keeps k run worker w h in
      let h2 : Holds k C (log_failed run w1) = h1 in
      ground (
        arith,
        h1,
        h2,
        respects.sleep (delay_for_attempt agent.retry_policy attempt) (log_failed run w1) h2,
      )

  fail-keeps :
      (attempt attempts : ℕ) (outcome : Outcome) (run : AgentRun) (w : World)
      → Holds k C w
      → StepHolds k (fail env agent worker attempt attempts outcome run w)
  unfolding fail
  fail-keeps attempt attempts outcome run w h = elim (Option-cases (handler_kind outcome)) [
    | inl e ↦ rw (e, fail) (record_failure-keeps attempt attempts run w h)
    | inr (kind, e) ↦ rw (e, fail) (handled kind (Option-cases (env.handle kind run w).0))
  ]
    where
      handled :
          (kind : String)
          → ((env.handle kind run w).0 ≡ none)
            ⊎ ((r : RunErrorResult) × ((env.handle kind run w).0 ≡ some r))
          → StepHolds k (elim (env.handle kind run w).0 [
            | none ↦ record_failure env agent worker attempt attempts run (env.handle kind run w).1
            | some r ↦ finalize env worker r run (env.handle kind run w).1
          ])
      handled kind (inl e) =
          rw e (record_failure-keeps attempt attempts run _ (respects.handle kind run w h))
      handled kind (inr (r, e)) = rw e (finalize-keeps r run _ (respects.handle kind run w h))

  pub conclude-keeps :
      (timeout attempt attempts : ℕ) (outcome : Outcome) (run : AgentRun) (w : World)
      → Holds k C w
      → StepHolds k (conclude env agent worker timeout attempt attempts outcome run w)
  unfolding conclude
  conclude-keeps timeout attempt attempts (Outcome.returned output) run w h =
      succeed-keeps output _ run w (λ r v g. fail-keeps attempt attempts _ _ v g) h
  conclude-keeps timeout attempt attempts Outcome.run_cancelled run w h = h
  conclude-keeps timeout attempt attempts Outcome.interrupted run w h = h
  conclude-keeps timeout attempt attempts _ run w h = fail-keeps attempt attempts _ _ w h

  run_attempt-keeps :
      (timeout attempt attempts : ℕ) (row : AgentRun) (w : World)
      → is_canceled row.status ≡ false
      → Holds k C w
      → StepHolds k (run_attempt env agent worker timeout attempt attempts row w)
  unfolding run_attempt
  run_attempt-keeps timeout attempt attempts row w live h =
      let run = started attempt w.store.clock row in
      let w1 = (update_owned run (row.status ∷ []) worker w).1 in
      let h1 : Holds k C w1 =
        owned-keeps k run (row.status ∷ []) worker w
          (λ g. cc (subst (λ t. is_canceled t ≡ false) (sym (contains-one row.status C g)) live))
          h in
      let w2 = env.on_run_dequeued run w1 in
      ground (
        arith,
        h1,
        conclude-keeps timeout attempt attempts (checked env agent (env.run agent run w2).0) run
            (env.run agent run w2).1
            (respects.run agent run w2 (respects.on_run_dequeued run w1 h1)),
      )

  attempt_once-keeps :
      (timeout attempt attempts : ℕ) (run_id : String) (w : World)
      → Holds k C w
      → StepHolds k (attempt_once env agent worker timeout attempt attempts run_id w)
  unfolding attempt_once
  attempt_once-keeps timeout attempt attempts run_id w h = elim (Option-cases (run_in run_id w)) [
    | inl e ↦ rw (e, attempt_once) h
    | inr (row, e) ↦
        rw (e, attempt_once)
          (ground (
            arith,
            h,
            λ (p : is_canceled row.status ≡ false).
                run_attempt-keeps timeout attempt attempts row w p h,
          ))
  ]

  pub finish-keeps :
      (last : AgentRun) (w : World) → Holds k C w → Holds k C (finish env worker last w).1
  unfolding finish
  finish-keeps last w h =
      let run = record last { finish_time = some w.store.clock } in
      let w1 = (update_owned run (run.status ∷ []) worker w).1 in
      let h1 : Holds k C w1 = same-keeps k run run.status worker w refl h in
      let w3 = prepare_if_asked env run (env.on_run_end run w1) in
      let h3 : Holds k C w3 = prepare_if_asked-keeps k env run _ (respects.on_run_end run w1 h1) in
      ground (
        arith,
        h1,
        h3,
        mark_queue_completed-keeps k run.run_id worker w3 h3,
        mark_queue_dead-keeps k run.run_id (or_status run.error_message run.status) worker w3 h3,
      )

  pub attempt_loop-keeps :
      (rounds timeout attempt attempts : ℕ) (run : AgentRun) (w : World)
      → Holds k C w
      → Holds k C (attempt_loop rounds env agent worker timeout attempt attempts run w).1
  unfolding attempt_loop
  attempt_loop-keeps zero timeout attempt attempts run w h = finish-keeps run w h
  attempt_loop-keeps (suc rounds) timeout attempt attempts run w h =
      next (attempt_once env agent worker timeout attempt attempts run.run_id w)
        (attempt_once-keeps timeout attempt attempts run.run_id w h)
        (λ run' w' h'. attempt_loop-keeps rounds timeout (suc attempt) attempts run' w' h')
    where
      next :
          (st : Step)
          → StepHolds k st
          → ((run' : AgentRun) (w' : World)
              → Holds k C w'
              → Holds k C
                  (attempt_loop rounds env agent worker timeout (suc attempt) attempts run' w').1)
          → Holds k C
              (after_step st
                (attempt_loop rounds env agent worker timeout (suc attempt) attempts)
                (finish env worker)).1
      next (finished r w') h' rec = h'
      next (again run' w') h' rec = rec run' w' h'
      next (stopped run' w') h' rec = finish-keeps run' w' h'
