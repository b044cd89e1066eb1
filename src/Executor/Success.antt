-- ===== src/Executor/Success.antt =====
-- The success path of an execution, from the row that is read to the row that is released.
pub mod Updates
use agent_task_platform.Prelude.{
  ℕ, suc, ◌<◌, ◌-◌, String, ◌≡◌, refl, sym, ◌∙◌, ap, subst, Bool, true, false, Option, none, some,
  List, [], ◌∷◌, arith, ◌&&◌, ◌||◌, if◌then◌else◌, contains, string_eq, option_eq, option_beq_iff,
  eq_iff, inl, inr, Bool-cases, nat_beq,
}
use agent_task_platform.Domain.Status.{
  RunStatus, CallbackStatus, ErrorType, run_status_eq, run_status_beq_iff,
}
use agent_task_platform.Domain.Lifecycle.{executing_run_statuses, contains-executing, is_executing}
use agent_task_platform.Domain.Entities.{AgentRun, AgentSpec, Dict, Json, callback_url}
use agent_task_platform.Table.{find-key, holds}
use agent_task_platform.Store.State.{Store, RunsUnique, run_key}
use agent_task_platform.Store.Runs
use agent_task_platform.Store.Runs.{Expected, update_if_current, is_current}
use agent_task_platform.Store.Runs.Update.{
  update_if_current_effect, update_if_current-RunsUnique, stamped,
}
use agent_task_platform.Callback.{prepare_for_run, skip_callback, settle, settled_status, owned_by}
use agent_task_platform.World.{
  World, run_in, update_owned, cancel_is_set, dict_get, dict_set, or_false,
}
use agent_task_platform.Executor.Outcome.{Environment, returned, checked}
use agent_task_platform.Executor.Steps.{
  fail_unknown, Step, back, prepare, mark_queue_completed, agent_succeeded, succeed, released,
  is_unset, conclude,
}
use agent_task_platform.Executor.{
  started, is_canceled, run_attempt, attempt_once, attempt_loop, attempt_limit, execute,
  execute_with_cancel, timeout_for,
}
use agent_task_platform.Executor.Success.Updates.{
  swapped_row, owned-current, own_status, HasEnded, owned_update, mark_queue_completed-releases,
  settles,
}

module _ (env : Environment) (output : Dict Json) where
  -- A run without a callback is settled as SUCCEEDED.
  prepare-settles :
      (done : AgentRun) (s : Store) (w : World)
      → RunsUnique w.store
      → run_in done.run_id w ≡ some (stamped done s)
      → callback_url done ≡ none
      → done.status ≡ RunStatus.agent_succeeded
      → done.error_type ≡ none
      → done.output ≡ some output
      → HasEnded done.run_id output done.worker (prepare env done w)
  unfolding prepare_for_run skip_callback settle
  prepare-settles done s w u found quiet st fine out =
      let skipped = record done {
        callback_status = CallbackStatus.skipped;
        status = settled_status done;
      } in
      let (_, stored, unique) =
        swapped_row skipped (stamped done s) (owned_by done.status done.worker) w.store u found (
          owned-current done.run_id (done.status ∷ []) done.worker (stamped done s) refl
            (own_status done.status) refl) in
      rw (quiet, prepare_for_run)
        (record {
          row = stamped skipped w.store;
          found = stored;
          status = settles done.status done.error_type st fine;
          output_stored = out;
          worker = refl;
          unique = unique;
        })

  succeed-ends :
      (worker : Option String) (missing : AgentRun → World → Step) (run row : AgentRun) (w : World)
      → RunsUnique w.store
      → run_in run.run_id w ≡ some row
      → callback_url row ≡ none
      → contains executing_run_statuses row.status ≡ true
      → row.worker ≡ worker
      → (w' : World) × (succeed env worker output missing run w ≡ back run.run_id w')
        × HasEnded run.run_id output none w'
  unfolding succeed agent_succeeded
  succeed-ends worker missing run row w u found quiet busy own =
      let done = agent_succeeded output row w.store.clock in
      let key = find-key run_key run.run_id w.store.runs row found in
      let (owned, stored, unique) =
        owned_update run.run_id done row executing_run_statuses worker w u found key busy own in
      let w1 = (update_owned done executing_run_statuses worker w).1 in
      let settled =
        prepare-settles done w.store w1 unique (ap (λ k. run_in k w1) key ∙ stored) quiet refl refl
          refl in
      (
        mark_queue_completed run.run_id worker (prepare env done w1),
        rw (found, owned, succeed) refl,
        mark_queue_completed-releases run.run_id output worker (prepare env done w1) (
            subst (λ k. HasEnded k output worker (prepare env done w1)) key
              (subst (λ o. HasEnded done.run_id output o (prepare env done w1)) own settled)),
      )

dict_get-dict_set {ℓ} :
    {A : Type ℓ} (k : String) (a : A) (d : Dict A) → dict_get k (dict_set k a d) ≡ some a
unfolding dict_get dict_set
dict_get-dict_set k a [] = ground (arith, eq_iff k k)
dict_get-dict_set k a ((j, b) ∷ d) = ground (arith, eq_iff k k, dict_get-dict_set k a d)

-- The agent returns this output, the schema takes it, and nobody changes the world meanwhile.
pub record IsQuiet (env : Environment) (agent : AgentSpec) (output : Dict Json) : Type 0 where
  pub run : (r : AgentRun) (w : World) → env.run agent r w ≡ (returned output, w)
  pub valid : env.invalid_output agent output ≡ none
  pub on_run_dequeued : (r : AgentRun) (w : World) → env.on_run_dequeued r w ≡ w

started-executing :
    (attempt now : ℕ) (row : AgentRun)
    → contains executing_run_statuses (started attempt now row).status ≡ true
unfolding started
started-executing attempt now row =
    contains-executing (started attempt now row).status ∙ executing (nat_beq attempt 1)
  where
    executing :
        (first : Bool)
        → is_executing (if first then RunStatus.running else RunStatus.retrying) ≡ true
    executing true = refl
    executing false = refl

module _ (env : Environment) (agent : AgentSpec) (output : Dict Json)
    (quiet : IsQuiet env agent output) where
  accepted : checked env agent (returned output) ≡ returned output
  unfolding checked
  accepted = rw (quiet.valid, checked) refl

  run_attempt-ends :
      (worker : Option String) (timeout attempt attempts : ℕ) (row : AgentRun) (w : World)
      → RunsUnique w.store
      → run_in row.run_id w ≡ some row
      → callback_url row ≡ none
      → row.worker ≡ worker
      → (w' : World) × (run_attempt env agent worker timeout attempt attempts row w
          ≡ back row.run_id w')
        × HasEnded row.run_id output none w'
  unfolding run_attempt started conclude
  run_attempt-ends worker timeout attempt attempts row w u found url own =
      let run = started attempt w.store.clock row in
      let (owned, stored, unique) =
        owned_update row.run_id run row (row.status ∷ []) worker w u found refl
          (own_status row.status) own in
      let w1 = (update_owned run (row.status ∷ []) worker w).1 in
      let (w2, end', ended) =
        succeed-ends env output worker (fail_unknown env agent worker timeout attempt attempts) run
          (stamped run w.store) w1 unique stored url (started-executing attempt w.store.clock row)
          own in
      (
        w2,
        rw (owned, quiet.on_run_dequeued run w1, quiet.run run w1, accepted, run_attempt) end',
        ended,
      )

  attempt_loop-ends :
      (rounds timeout attempt attempts : ℕ) (worker : Option String) (row : AgentRun) (w : World)
      → RunsUnique w.store
      → run_in row.run_id w ≡ some row
      → (is_canceled row.status || cancel_is_set row.run_id w) ≡ false
      → callback_url row ≡ none
      → row.worker ≡ worker
      → HasEnded row.run_id output none
          (attempt_loop (suc rounds) env agent worker timeout attempt attempts row w).1
  unfolding attempt_loop attempt_once
  attempt_loop-ends rounds timeout attempt attempts worker row w u found live url own =
      let (w', end', ended) =
        run_attempt-ends worker timeout attempt attempts row w u found url own in
      rw (found, live, end', attempt_loop, attempt_once) ended

  execute_ends :
      (worker : Option String) (run_id : String) (row : AgentRun) (w : World)
      → RunsUnique w.store
      → run_in run_id w ≡ some row
      → is_canceled row.status ≡ false
      → callback_url row ≡ none
      → row.worker ≡ worker
      → row.attempts < attempt_limit agent
      → HasEnded run_id output none (execute env agent worker run_id w).1
  unfolding execute execute_with_cancel
  execute_ends worker run_id row w u found live url own left =
      let w1 = record w { cancellation_events = dict_set run_id false w.cancellation_events } in
      let key : row.run_id ≡ run_id = find-key run_key run_id w.store.runs row found in
      let rounds : attempt_limit agent - row.attempts
          ≡ suc (attempt_limit agent - row.attempts - 1) =
        omega (arith, left) in
      let uncanceled : (is_canceled row.status || cancel_is_set row.run_id w1) ≡ false = rw (live) (
        ap or_false (
          ap (λ k. dict_get k w1.cancellation_events) key
          ∙ dict_get-dict_set run_id false w.cancellation_events)) in
      let ended =
        subst (λ k. HasEnded k output none (execute_with_cancel env agent worker row w1).1) key
          (rw (rounds, execute_with_cancel)
            (attempt_loop-ends (attempt_limit agent - row.attempts - 1) (timeout_for agent row)
              (suc row.attempts) (attempt_limit agent) worker row w1 u
              (ap (λ k. run_in k w1) key ∙ found) uncanceled url own)) in
      rw (found, execute)
        (record {
          row = ended.row;
          found = ended.found;
          status = ended.status;
          output_stored = ended.output_stored;
          worker = ended.worker;
          unique = ended.unique;
        })

-- An execution of a run without a callback, under its owner's name, with an attempt left, by an agent
-- that returns an output which its schema takes, and with nobody interfering: the run ends SUCCEEDED
-- with that output, and no worker owns it any more.
pub execute_succeeds :
    (env : Environment) (agent : AgentSpec) (output : Dict Json) (worker : Option String)
    (run_id : String) (row : AgentRun) (w : World)
    → IsQuiet env agent output
    → RunsUnique w.store
    → run_in run_id w ≡ some row
    → is_canceled row.status ≡ false
    → callback_url row ≡ none
    → row.worker ≡ worker
    → row.attempts < attempt_limit agent
    → HasEnded run_id output none (execute env agent worker run_id w).1
execute_succeeds env agent output worker run_id row w quiet u found live url own left =
    execute_ends env agent output quiet worker run_id row w u found live url own left
