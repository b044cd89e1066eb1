-- ===== src/Executor/Cancellation/Rows.antt =====
-- What an execution writes of its rows leaves a canceled run canceled.
use agent_task_platform.Prelude.{
  ℕ, String, ◌≡◌, refl, sym, ◌∙◌, true, Option, none, some, List, [], ◌∷◌, arith, inl, inr,
  contains, Option-cases,
}
use agent_task_platform.Domain.Status.{RunStatus, run_status_eq}
use agent_task_platform.Domain.Lifecycle.{executing_run_statuses, contains-executing}
use agent_task_platform.Domain.Entities.{AgentRun, AgentSpec}
use agent_task_platform.Store.Runs.Keeping.{status_of, status_of-update_if_current, contains-one}
use agent_task_platform.Callback.Outcome.{prepare_for_run_keeps_failure}
use agent_task_platform.World.{World, run_in, update_owned}
use agent_task_platform.Executor.Outcome.{Environment}
use agent_task_platform.Executor.Steps.{
  Step, finished, again, stopped, prepare, prepare_if_asked, released, mark_queue_completed,
  mark_queue_dead,
}

-- The row of the run `k` is in this status.
abbrev pub Holds : String → RunStatus → World → Type 0
Holds k st w = status_of k w.store ≡ some st

-- What other tasks do while this execution waits keeps a status of the run.
pub record Respects (env : Environment) (k : String) (st : RunStatus) : Type 0 where
  pub run :
      (agent : AgentSpec) (r : AgentRun) (w : World)
      → Holds k st w
      → Holds k st (env.run agent r w).1
  pub sleep : (n : ℕ) (w : World) → Holds k st w → Holds k st (env.sleep n w)
  pub on_run_dequeued :
      (r : AgentRun) (w : World) → Holds k st w → Holds k st (env.on_run_dequeued r w)
  pub on_run_end : (r : AgentRun) (w : World) → Holds k st w → Holds k st (env.on_run_end r w)
  pub handle :
      (kind : String) (r : AgentRun) (w : World) → Holds k st w → Holds k st (env.handle kind r w).1

abbrev pub C : RunStatus
C = RunStatus.canceled

module _ (k : String) where
  pub owned-keeps :
      (run : AgentRun) (statuses : List RunStatus) (worker : Option String) (w : World)
      → (contains statuses C ≡ true → run.status ≡ C)
      → Holds k C w
      → Holds k C (update_owned run statuses worker w).1
  unfolding update_owned
  owned-keeps run statuses worker w same h = status_of-update_if_current run _ w.store k C same h

  pub executing-keeps :
      (run : AgentRun) (worker : Option String) (w : World)
      → Holds k C w
      → Holds k C (update_owned run executing_run_statuses worker w).1
  executing-keeps run worker w h =
      owned-keeps run executing_run_statuses worker w (λ g. cc (contains-executing C)) h

  pub same-keeps :
      (run : AgentRun) (st : RunStatus) (worker : Option String) (w : World)
      → run.status ≡ st
      → Holds k C w
      → Holds k C (update_owned run (st ∷ []) worker w).1
  same-keeps run st worker w e h =
      owned-keeps run (st ∷ []) worker w (λ g. e ∙ sym (contains-one st C g)) h

  pub prepare-keeps :
      (env : Environment) (run : AgentRun) (w : World) → Holds k C w → Holds k C (prepare env run w)
  prepare-keeps env run w h =
      prepare_for_run_keeps_failure env.services (env.new_event_id w) run w.store k C tt (λ e. cc) h

  pub prepare_if_asked-keeps :
      (env : Environment) (run : AgentRun) (w : World)
      → Holds k C w
      → Holds k C (prepare_if_asked env run w)
  prepare_if_asked-keeps env run w h = ground (arith, prepare-keeps env run w h)

  pub mark_queue_completed-keeps :
      (run_id : String) (worker : Option String) (w : World)
      → Holds k C w
      → Holds k C (mark_queue_completed run_id worker w)
  unfolding mark_queue_completed
  mark_queue_completed-keeps run_id worker w h = elim (Option-cases (run_in run_id w)) [
    | inl e ↦ rw (e, mark_queue_completed) h
    | inr (r, e) ↦
        rw (e, mark_queue_completed)
          (ground (arith, same-keeps (released r) r.status worker w refl h))
  ]

  abbrev pub OptionHolds : Option World → Type 0
  OptionHolds none = Unit {0}
  OptionHolds (some w) = Holds k C w

  pub mark_queue_dead-keeps :
      (run_id reason : String) (worker : Option String) (w : World)
      → Holds k C w
      → OptionHolds (mark_queue_dead run_id reason worker w)
  unfolding mark_queue_dead
  mark_queue_dead-keeps run_id reason worker w h = elim (Option-cases (run_in run_id w)) [
    | inl e ↦ rw (e, mark_queue_dead) tt
    | inr (r, e) ↦ rw (e, mark_queue_dead) (same-keeps _ r.status worker w refl h)
  ]

  -- The world that a step leaves.
  abbrev pub StepHolds : Step → Type 0
  StepHolds (finished r w) = Holds k C w
  StepHolds (again run w) = Holds k C w
  StepHolds (stopped run w) = Holds k C w
