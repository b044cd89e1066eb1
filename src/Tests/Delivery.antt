-- ===== src/Tests/Delivery.antt =====
-- The claims on callbacks, stages and submissions, at the concrete store.
use agent_task_platform.Prelude.{
  ◌≢◌, String, ◌≡◌, refl, false, some, List, [], ◌∷◌, arith, string_eq, eq_iff,
}
use agent_task_platform.Domain.Status.{RunStatus, run_status_beq_iff}
use agent_task_platform.Domain.Entities.{AgentRun, CallbackDelivery, Json}
use agent_task_platform.Table.{find}
use agent_task_platform.Store.State.{Store}
use agent_task_platform.Store.Runs.Keeping.{status_of}
use agent_task_platform.Store.Runs.{get_by_request_id, find_request}
use agent_task_platform.Store.Stages
use agent_task_platform.Store.Stages.Fence.{begin_attempt_fences}
use agent_task_platform.Store.Stages.SideEffect.{dispatched_effect_frozen, StageCall, perform_all}
use agent_task_platform.Callback.{prepare_for_run}
use agent_task_platform.Callback.Deliver.{dispatch_pending, dispatch_delivery}
use agent_task_platform.Callback.Outcome.{
  dispatch_pending_keeps_outcome, prepare_for_run_keeps_failure, Undisturbed,
}
use agent_task_platform.Callback.Attempts.{dispatch_delivery-Ended, EndedIn, Keeps}
use agent_task_platform.Submission.{submit, Routing}
use agent_task_platform.Submission.Idempotence.{submit_is_idempotent}
use agent_task_platform.Tests.Data.{
  store, services, network, delivery, failed_run, sent_stage, failed_stage, found_failed,
  found_sent, found_draft, store-StagesUnique, submission, fresh_ids, writer, queued_run,
}

failed_in_store : status_of "failed" store ≡ some RunStatus.failed
unfolding find
failed_in_store = refl

network-Undisturbed : Undisturbed network "failed" RunStatus.failed
network-Undisturbed = record {
  post = λ d s h. h;
  sleep = λ n s h. h;
  on_callback_end = λ b d s h. h;
}

dispatch_pending_keeps_outcome_example :
    status_of "failed" (dispatch_pending services network [] "bob" 30 5 store)
    ≡ some RunStatus.failed
dispatch_pending_keeps_outcome_example =
    dispatch_pending_keeps_outcome services network [] "bob" 30 5 "failed" RunStatus.failed store tt
      network-Undisturbed failed_in_store

failed_is_not_succeeded : RunStatus.failed ≢ RunStatus.succeeded
failed_is_not_succeeded = ground (arith, run_status_beq_iff RunStatus.failed RunStatus.succeeded)

prepare_for_run_keeps_failure_example :
    status_of "failed" (prepare_for_run services "event2" failed_run store).1
    ≡ some RunStatus.failed
prepare_for_run_keeps_failure_example =
    prepare_for_run_keeps_failure services "event2" failed_run store "failed" RunStatus.failed tt
      failed_is_not_succeeded failed_in_store

network-Keeps : Keeps network
network-Keeps = record { on_callback_end = λ b d s. refl }

dispatch_delivery-Ended_example :
    (d' : CallbackDelivery) × (s' : Store) × (dispatch_delivery services network delivery store
      ≡ some (d', s'))
    × EndedIn network 3 delivery d' s'
dispatch_delivery-Ended_example =
    dispatch_delivery-Ended services network network-Keeps delivery store failed_run found_failed

abbrev calls : List StageCall
calls =
    StageCall.begins "leased" "mail" 2 "t2"
    ∷ StageCall.succeeds "leased" "mail" "t1" Json.null
    ∷ StageCall.resets "leased"
    ∷ []

dispatched_effect_frozen_example :
    Stages.get "leased" "mail" (perform_all calls store) ≡ some sent_stage
dispatched_effect_frozen_example =
    dispatched_effect_frozen "leased" "mail" sent_stage calls store found_sent
      (record { unknown = refl; unreturned = refl }) (refl, (refl, (refl, tt)))

tokens_differ : ◌≢◌ {A = String} "t0" "t1"
tokens_differ = ground (arith, eq_iff "t0" "t1")

begin_attempt_fences_example :
    let s' = (Stages.begin_attempt "failed" "draft" 2 "t1" store).1 in
    Stages.update_active "failed" "draft" Stages.only_running false "t0"
      (Stages.succeeded Json.null 11)
      s'
    ≡ (false, s')
begin_attempt_fences_example =
    begin_attempt_fences "failed" "draft" 2 "t1" "t0" Stages.only_running false
      (Stages.succeeded Json.null 11) failed_stage store store-StagesUnique found_draft refl
      tokens_differ

abbrev any_route : AgentRun → Routing
any_route run = Routing.routed writer []

abbrev after : Store
after = (submit any_route (λ s. s) fresh_ids (submission "queued") store).1

answered :
    (submit any_route (λ s. s) fresh_ids (submission "queued") store).0 ≡ some (queued_run, false)
unfolding submit find_request
answered = refl

submit_is_idempotent_example :
    (get_by_request_id "desk" "report" "queued" after ≡ some queued_run)
    × ((submit any_route (λ s. s) fresh_ids (submission "queued") after).0
        ≡ some (queued_run, false))
    × ((submit any_route (λ s. s) fresh_ids (submission "queued") after).1.runs ≡ after.runs)
submit_is_idempotent_example =
    submit_is_idempotent any_route any_route (λ s. s) (λ s. s) fresh_ids fresh_ids
      (submission "queued") (submission "queued") store queued_run false (refl, refl, refl) answered
