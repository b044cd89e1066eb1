-- ===== src/Executor/Success/Updates.antt =====
-- What an update under the owner's name leaves in the store, and the release of a run that has ended.
use agent_task_platform.Prelude.{
  String, ◌≡◌, refl, sym, ◌∙◌, ap, true, Option, none, some, List, [], ◌∷◌, arith, ◌&&◌, contains,
  string_eq, option_eq, option_beq_iff, eq_iff, inl, inr, Bool-cases,
}
use agent_task_platform.Domain.Status.{RunStatus, ErrorType, run_status_eq, run_status_beq_iff}
use agent_task_platform.Domain.Entities.{AgentRun, Dict, Json}
use agent_task_platform.Table.{find-key, holds}
use agent_task_platform.Store.State.{Store, RunsUnique, run_key}
use agent_task_platform.Store.Runs
use agent_task_platform.Store.Runs.{Expected, update_if_current, is_current}
use agent_task_platform.Store.Runs.Update.{
  update_if_current_effect, update_if_current-RunsUnique, stamped,
}
use agent_task_platform.Callback.{settle}
use agent_task_platform.World.{World, run_in, update_owned}
use agent_task_platform.Executor.Steps.{mark_queue_completed, released, is_unset}

-- An update whose row is current.
pub swapped_row :
    (run row : AgentRun) (e : Expected) (s : Store)
    → RunsUnique s
    → Runs.get run.run_id s ≡ some row
    → is_current run.run_id e row ≡ true
    → ((update_if_current run e s).0 ≡ true)
      × (Runs.get run.run_id (update_if_current run e s).1 ≡ some (stamped run s))
      × RunsUnique (update_if_current run e s).1
swapped_row run row e s u h c =
    let (answer, stored, _) = update_if_current_effect run e s u in
    let now : holds (is_current run.run_id e) (Runs.get run.run_id s) ≡ true = rw h c in
    (answer ∙ now, stored ∙ rw now refl, update_if_current-RunsUnique run e s u)

pub owned-current :
    (id : String) (statuses : List RunStatus) (worker : Option String) (row : AgentRun)
    → row.run_id ≡ id
    → contains statuses row.status ≡ true
    → row.worker ≡ worker
    → is_current id
        (record { statuses = statuses; worker = some worker; lease_expire_time = none })
        row
      ≡ true
unfolding is_current
owned-current id statuses worker row key st own =
    ground (arith, st, eq_iff row.run_id id, option_beq_iff row.worker worker)

pub own_status : (st : RunStatus) → contains (st ∷ []) st ≡ true
unfolding contains
own_status st = ground (arith, run_status_beq_iff st st)

-- The row of this id, with the outcome of the agent and this owner.
pub record HasEnded (id : String) (output : Dict Json) (owner : Option String) (w : World)
    : Type 0 where
  pub row : AgentRun
  pub found : run_in id w ≡ some row
  pub status : row.status ≡ RunStatus.succeeded
  pub output_stored : row.output ≡ some output
  pub worker : row.worker ≡ owner
  pub unique : RunsUnique w.store

-- An update of the row of this id under its owner's name, seen in the world.
pub owned_update :
    (id : String) (run row : AgentRun) (statuses : List RunStatus) (worker : Option String)
    (w : World)
    → RunsUnique w.store
    → run_in id w ≡ some row
    → run.run_id ≡ id
    → contains statuses row.status ≡ true
    → row.worker ≡ worker
    → ((update_owned run statuses worker w).0 ≡ true)
      × (run_in id (update_owned run statuses worker w).1 ≡ some (stamped run w.store))
      × RunsUnique (update_owned run statuses worker w).1.store
unfolding update_owned
owned_update id run row statuses worker w u found key st own =
    let e : Expected = record {
      statuses = statuses;
      worker = some worker;
      lease_expire_time = none;
    } in
    let (answer, stored, unique) =
      swapped_row run row e w.store u (ap (λ k. run_in k w) key ∙ found) (
        owned-current run.run_id statuses worker row
          (find-key run_key id w.store.runs row found ∙ sym key) st own) in
    (answer, ap (λ k. Runs.get k (update_if_current run e w.store).1) (sym key) ∙ stored, unique)

pub mark_queue_completed-releases :
    (id : String) (output : Dict Json) (worker : Option String) (w : World)
    → HasEnded id output worker w
    → HasEnded id output none (mark_queue_completed id worker w)
unfolding mark_queue_completed
mark_queue_completed-releases id output worker w h =
    let (_, stored, unique) =
      owned_update id (released h.row) h.row (h.row.status ∷ []) worker w h.unique h.found
        (find-key run_key id w.store.runs h.row h.found) (own_status h.row.status) h.worker in
    elim (Bool-cases (is_unset h.row.worker && is_unset h.row.lease_expire_time)) [
      | inl e ↦
          rw (h.found, e, mark_queue_completed)
            (record {
              row = h.row;
              found = h.found;
              status = h.status;
              output_stored = h.output_stored;
              worker = ground (arith, e);
              unique = h.unique;
            })
      | inr e ↦
          rw (h.found, e, mark_queue_completed)
            (record {
              row = stamped (released h.row) w.store;
              found = stored;
              status = h.status;
              output_stored = h.output_stored;
              worker = refl;
              unique = unique;
            })
    ]

pub settles :
    (st : RunStatus) (error : Option ErrorType)
    → st ≡ RunStatus.agent_succeeded
    → error ≡ none
    → settle st error ≡ RunStatus.succeeded
unfolding settle
settles st error e f = rw (e, f) refl
