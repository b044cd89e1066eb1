-- ===== src/Tests/Steering.antt =====
-- The claims on executions, cancellation and retry, at the concrete world.
use agent_task_platform.Prelude.{
  ◌-◌, ◌≡◌, refl, Bool, true, false, Option, none, some, [], ◌∷◌, ◌||◌, arith, string_eq, contains,
}
use agent_task_platform.Domain.Status.{RunStatus, run_status_beq}
use agent_task_platform.Domain.Lifecycle.{is_terminal}
use agent_task_platform.Domain.Entities.{AgentRun, AgentSpec, AgentStage}
use agent_task_platform.Table.{find, update_where, rowcount}
use agent_task_platform.Store.Runs
use agent_task_platform.Store.Runs.{claim}
use agent_task_platform.Store.Runs.Keeping.{status_of}
use agent_task_platform.Store.Runs.Update.{stamped}
use agent_task_platform.Store.Stages
use agent_task_platform.World.{
  dict_get, dict_set, dict_pop, cancel_is_set, World, run_in, ok, update_owned,
}
use agent_task_platform.Executor.Outcome.{Outcome, Environment}
use agent_task_platform.Executor.{
  execute, is_canceled, attempt_loop, started, attempt_limit, timeout_for,
}
use agent_task_platform.Executor.Cancellation.Rows.{Respects}
use agent_task_platform.Executor.Cancellation.{execute_keeps_canceled, canceled_during_run}
use agent_task_platform.Executor.Success.{execute_succeeds, IsQuiet}
use agent_task_platform.Executor.Success.Updates.{HasEnded}
use agent_task_platform.Manager.Cancellation.{try_cancel, cancel_each, cancel, canceled}
use agent_task_platform.Manager.{retry}
use agent_task_platform.Manager.Recovery.{reclaimed}
use agent_task_platform.Manager.Cancel.{cancel-keeps, cancel_takes_effect, cancel_returns_terminal}
use agent_task_platform.Manager.Retry.{
  retry_resets_failed_stages, lost_attempt_is_repeated, IsQueuedAgain, StageAfter, by_reclaim,
}
use agent_task_platform.Tests.Data.{
  store, world, environment, writer, leased_run, failed_run, failed_stage, found_leased,
  found_failed, found_draft, store-RunsUnique,
}

environment-IsQuiet : IsQuiet environment writer []
environment-IsQuiet = record { run = λ r w. refl; valid = refl; on_run_dequeued = λ r w. refl }

execute_succeeds_example :
    HasEnded "leased" [] none (execute environment writer (some "alice") "leased" world).1
execute_succeeds_example =
    execute_succeeds environment writer [] (some "alice") "leased" leased_run world
      environment-IsQuiet store-RunsUnique found_leased refl refl refl (omega arith)

environment-Respects : Respects environment "canceled" RunStatus.canceled
environment-Respects = record {
  run = λ agent r w h. h;
  sleep = λ n w h. h;
  on_run_dequeued = λ r w h. h;
  on_run_end = λ r w h. h;
  handle = λ kind r w h. h;
}

canceled_in_store : status_of "canceled" store ≡ some RunStatus.canceled
unfolding find
canceled_in_store = refl

execute_keeps_canceled_example :
    status_of "canceled" (execute environment writer none "canceled" world).1.store
    ≡ some RunStatus.canceled
execute_keeps_canceled_example =
    execute_keeps_canceled environment writer none "canceled" "canceled" world environment-Respects
      canceled_in_store

cancel_takes_effect_example :
    let after = cancel 2 (λ w'. w') "leased" world in
    (status_of "leased" after.1.store ≡ some RunStatus.canceled)
    × (after.0 ≡ ok (stamped (canceled 10 leased_run) store))
cancel_takes_effect_example =
    cancel_takes_effect 1 "leased" world leased_run store-RunsUnique found_leased refl

cancel_returns_terminal_example :
    (is_terminal (stamped (canceled 10 leased_run) store).status ≡ true)
    × (status_of "leased" (cancel 2 (λ w. w) "leased" world).1.store
        ≡ some (stamped (canceled 10 leased_run) store).status)
cancel_returns_terminal_example =
    cancel_returns_terminal 2 (λ w. w) "leased" world (stamped (canceled 10 leased_run) store)
      (λ v u. u) (λ v h. h) store-RunsUnique
      (cancel_takes_effect 1 "leased" world leased_run store-RunsUnique found_leased refl).1

abbrev any_agent : AgentRun → Option AgentSpec
any_agent run = some writer

retry_resets_failed_stages_example :
    let after = (retry any_agent "failed" world).1 in
    ((row : AgentRun) × (run_in "failed" after ≡ some row) × IsQueuedAgain writer 10 failed_run row)
    × ((row : AgentStage) × (Stages.get "failed" "draft" after.store ≡ some row)
        × StageAfter "failed" "failed" failed_stage row)
    × (contains after.background "failed" ≡ true)
retry_resets_failed_stages_example =
    retry_resets_failed_stages any_agent "failed" world failed_run writer "failed" "draft"
      failed_stage found_failed refl refl refl found_draft

-- The row of a run whose worker was lost in the second attempt, claimed by another after a sweep.
abbrev again : AgentRun
again = claim "bob" 30 20 (reclaimed (started 2 10 leased_run))

abbrev world_again : World
world_again = record world { store = record store { runs = again ∷ [] } }

found_again : run_in "leased" world_again ≡ some again
unfolding find claim reclaimed started
found_again = refl

lost_attempt_is_repeated_example :
    let ended =
      attempt_loop
        (attempt_limit writer - 1)
        environment
        writer
        (some "bob")
        (timeout_for writer again)
        2
        (attempt_limit writer)
        again
        (record world_again {
          cancellation_events = dict_set "leased" false world_again.cancellation_events;
        }) in
    execute environment writer (some "bob") "leased" world_again ≡ (
      ended.0,
      record ended.1 { cancellation_events = dict_pop "leased" ended.1.cancellation_events },
    )
lost_attempt_is_repeated_example =
    lost_attempt_is_repeated environment writer "bob" "leased" 1 10 30 20 leased_run
      (reclaimed (started 2 10 leased_run)) world_again by_reclaim found_again

-- While the agent runs, somebody cancels its run.
abbrev canceling : Environment
canceling = record environment {
  run = λ agent run w. (Outcome.returned [], (cancel 2 (λ v. v) "leased" w).1);
}

canceling-Respects : Respects canceling "leased" RunStatus.canceled
canceling-Respects = record {
  run = λ agent r w h. cancel-keeps (λ v. v) "leased" (λ v g. g) 2 "leased" w h;
  sleep = λ n w h. h;
  on_run_dequeued = λ r w h. h;
  on_run_end = λ r w h. h;
  handle = λ kind r w h. h;
}

abbrev begun : Bool × World
begun = update_owned (started 2 10 leased_run) (RunStatus.running ∷ []) (some "alice") world

canceled_in_between :
    status_of "leased" (canceling.run writer (started 2 10 leased_run) begun.1).1.store
    ≡ some RunStatus.canceled
unfolding find cancel try_cancel update_owned Runs.update_if_current update_where Runs.is_current
    started contains run_status_beq rowcount canceled cancel_each dict_get dict_set
canceled_in_between = refl

begun_by_alice : begun.0 ≡ true
unfolding update_owned Runs.update_if_current rowcount Runs.is_current started contains
    run_status_beq
begun_by_alice = refl

cancel_is_not_set : (is_canceled RunStatus.running || cancel_is_set "leased" world) ≡ false
unfolding dict_get
cancel_is_not_set = refl

canceled_during_run_example :
    status_of "leased"
      (attempt_loop 2 canceling writer (some "alice") 60 2 3 leased_run world).1.store
    ≡ some RunStatus.canceled
canceled_during_run_example =
    canceled_during_run canceling writer (some "alice") 1 60 2 3 leased_run leased_run world
      canceling-Respects found_leased cancel_is_not_set begun_by_alice canceled_in_between
