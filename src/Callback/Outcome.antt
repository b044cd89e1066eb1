-- ===== src/Callback/Outcome.antt =====
-- Delivery state must never erase the business outcome: what the callback service may do to the
-- status of a run, whatever happens to the store while it waits.
use agent_task_platform.Prelude.{
  ℕ, zero, suc, ◌-◌, String, ◌≡◌, refl, sym, subst, ◌∙◌, ap, string_eq, Bool, true, false, Option,
  some, List, [], ◌∷◌, arith, inl, inr, contains, Option-cases, ◌≢◌,
}
use agent_task_platform.Domain.Status.{RunStatus, ErrorType, run_status_eq}
use agent_task_platform.Domain.Entities.{AgentRun, CallbackDelivery, callback_url, or_else, truthy}
use agent_task_platform.Store.State.{Store, add_log}
use agent_task_platform.Store.Runs.{Expected, update_if_current, get}
use agent_task_platform.Store.Runs.Keeping.{status_of, status_of-update_if_current, contains-one}
use agent_task_platform.Store.Callbacks.{update_run_with_callback, save, claim_pending}
use agent_task_platform.Callback.{
  Services, settle, in_status, owned_by, skip_callback, awaiting, waiting_status, prepare_for_run,
  delivery_for, delay_for_attempt,
}
use agent_task_platform.Callback.Deliver.{
  Network, request, delivered, settled, record_delivered, undelivered, record_failed, exhaust,
  attempts_loop, dispatch_delivery, dispatch_all, dispatch_pending, after_dispatch,
}

-- A status that the delivery of a callback has nothing to settle about.
abbrev pub IsSettled : RunStatus → Type 0
IsSettled RunStatus.agent_succeeded = ⊥
IsSettled RunStatus.waiting_callback = ⊥
IsSettled _ = Unit {0}

settle-IsSettled : (st : RunStatus) (e : Option ErrorType) → IsSettled st → settle st e ≡ st
unfolding settle
settle-IsSettled RunStatus.agent_succeeded e h = absurd h
settle-IsSettled RunStatus.waiting_callback e h = absurd h
settle-IsSettled _ e h = refl

-- While the service awaits the network, a retry or a hook, others may do anything that keeps this status.
pub record Undisturbed (net : Network) (k : String) (st : RunStatus) : Type 0 where
  pub post :
      (d : CallbackDelivery) (s : Store)
      → status_of k s ≡ some st
      → status_of k (net.post d s).1 ≡ some st
  pub sleep : (n : ℕ) (s : Store) → status_of k s ≡ some st → status_of k (net.sleep n s) ≡ some st
  pub on_callback_end :
      (b : Bool) (d : CallbackDelivery) (s : Store)
      → status_of k s ≡ some st
      → status_of k (net.on_callback_end b d s).1 ≡ some st

module _ (k : String) (st : RunStatus) (fixed : IsSettled st) where
  save-keeps :
      (d : CallbackDelivery) (s : Store)
      → status_of k s ≡ some st
      → status_of k (save d s) ≡ some st
  unfolding save
  save-keeps d s h = h

  update_run_with_callback-keeps :
      (run : AgentRun) (d : CallbackDelivery) (e : Expected) (s : Store)
      → (contains e.statuses st ≡ true → run.status ≡ st)
      → status_of k s ≡ some st
      → status_of k (update_run_with_callback run d e s).1 ≡ some st
  unfolding update_run_with_callback
  update_run_with_callback-keeps run d e s same h = ground (
    arith,
    status_of-update_if_current run e s k st same h,
    save-keeps d (update_if_current run e s).1,
  )

  settled-status :
      (run : AgentRun) (s : Store)
      → contains (run.status ∷ []) st ≡ true
      → (settled run s).status ≡ st
  unfolding settled
  settled-status run s h =
      let e : st ≡ run.status = contains-one run.status st h in
      ap (λ t. settle t run.error_type) (sym e) ∙ settle-IsSettled st run.error_type fixed

  record_delivered-keeps :
      (d : CallbackDelivery) (run : AgentRun) (s : Store)
      → status_of k s ≡ some st
      → status_of k (record_delivered d run s) ≡ some st
  unfolding record_delivered
  record_delivered-keeps d run s h = ground (
    arith,
    update_run_with_callback-keeps (settled run s) (delivered d) (in_status run.status) s
        (settled-status run s) h,
    save-keeps (delivered d)
        (update_run_with_callback (settled run s) (delivered d) (in_status run.status) s).1,
  )

  exhaust-keeps :
      (d : CallbackDelivery) (run : AgentRun) (s : Store)
      → status_of k s ≡ some st
      → status_of k (exhaust d run s).1 ≡ some st
  unfolding exhaust
  exhaust-keeps d run s h = save-keeps _ _ (
      status_of-update_if_current _ (in_status run.status) s k st
        (λ g. sym (contains-one run.status st g)) h)

  module _ (sv : Services) (net : Network) (keep : Undisturbed net k st) where
    request-keeps :
        (d : CallbackDelivery) (s : Store)
        → status_of k s ≡ some st
        → status_of k (request sv net d s).1 ≡ some st
    unfolding request
    request-keeps d s h = ground (arith, keep.post d s h)

    record_failed-keeps :
        (d : CallbackDelivery) (attempt : ℕ) (run : AgentRun) (s : Store)
        → status_of k s ≡ some st
        → status_of k (record_failed sv net d attempt run s) ≡ some st
    unfolding record_failed
    record_failed-keeps d attempt run s h =
        let saved = add_log run.run_id run.trace_id "callback" "callback_failed" (save d s) in
        let h' : status_of k saved ≡ some st = save-keeps d s h in
        ground (arith, h', keep.sleep (delay_for_attempt sv.settings attempt) saved h')

    attempts_loop-keeps :
        (rounds attempt : ℕ) (d : CallbackDelivery) (run : AgentRun) (s : Store)
        → status_of k s ≡ some st
        → status_of k (attempts_loop rounds sv net attempt d run s).1 ≡ some st
    unfolding attempts_loop
    attempts_loop-keeps zero attempt d run s h =
        keep.on_callback_end false (exhaust d run s).0 (exhaust d run s).1 (exhaust-keeps d run s h)
    attempts_loop-keeps (suc rounds) attempt d run s h =
        let d1 = record d { attempts = attempt } in
        let (error, s1) = request sv net d1 s in
        let h1 : status_of k s1 ≡ some st = request-keeps d1 s h in
        let told = net.on_callback_end true (delivered d1) (record_delivered d1 run s1) in
        let h2 : status_of k told.1 ≡ some st =
          keep.on_callback_end true (delivered d1) (record_delivered d1 run s1)
            (record_delivered-keeps d1 run s1 h1) in
        elim (Option-cases error) [
          | inl e ↦ elim (Option-cases told.0) [
            | inl f ↦ rw (e, attempts_loop, f) h2
            | inr (t, f) ↦
                rw (e, attempts_loop, f)
                  (attempts_loop-keeps rounds (suc attempt) _ (settled run s1) _ (
                    record_failed-keeps (undelivered sv (delivered d1) attempt t told.1) attempt
                      (settled run s1) told.1 h2))
          ]
          | inr (t, e) ↦
              rw (e, attempts_loop)
                (attempts_loop-keeps rounds (suc attempt) _ run _
                  (record_failed-keeps (undelivered sv d1 attempt t s1) attempt run s1 h1))
        ]

    dispatch_delivery-keeps :
        (d : CallbackDelivery) (s : Store)
        → status_of k s ≡ some st
        → status_of k (after_dispatch (dispatch_delivery sv net d s) s) ≡ some st
    unfolding dispatch_delivery
    dispatch_delivery-keeps d s h = elim (Option-cases (get d.run_id s)) [
      | inl e ↦ rw (e, dispatch_delivery) h
      | inr (run, e) ↦
          rw (e, dispatch_delivery)
            (attempts_loop-keeps (sv.settings.max_attempts - d.attempts) (suc d.attempts) d run s h)
    ]

    dispatch_all-keeps :
        (ds : List CallbackDelivery) (s : Store)
        → status_of k s ≡ some st
        → status_of k (dispatch_all sv net ds s) ≡ some st
    unfolding dispatch_all
    dispatch_all-keeps [] s h = h
    dispatch_all-keeps (d ∷ ds) s h = dispatch_all-keeps ds _ (dispatch_delivery-keeps d s h)

-- A run whose status is not one of the two that wait for a callback keeps its status through a whole
-- round of deliveries, whether they succeed, fail or run out of attempts, provided that the other
-- tasks which run while the service awaits the network, a retry or a hook keep it.
pub dispatch_pending_keeps_outcome :
    (sv : Services) (net : Network) (locked : List String) (worker_id : String) (lease limit : ℕ)
    (k : String) (st : RunStatus) (s : Store)
    → IsSettled st
    → Undisturbed net k st
    → status_of k s ≡ some st
    → status_of k (dispatch_pending sv net locked worker_id lease limit s) ≡ some st
unfolding dispatch_pending claim_pending
dispatch_pending_keeps_outcome sv net locked worker_id lease limit k st s fixed keep h =
    dispatch_all-keeps k st fixed sv net keep _ _ h

skip_callback-keeps :
    (k : String) (st : RunStatus) (fixed : IsSettled st) (run : AgentRun) (s : Store)
    → status_of k s ≡ some st
    → status_of k (skip_callback run s).1 ≡ some st
unfolding skip_callback
skip_callback-keeps k st fixed run s h =
    status_of-update_if_current _ (owned_by run.status run.worker) s k st
      (λ g.
        let e : st ≡ run.status = contains-one run.status st g in
        ap (λ t. settle t run.error_type) (sym e) ∙ settle-IsSettled st run.error_type fixed)
      h

waiting_status-IsSettled :
    (st t : RunStatus) → IsSettled st → st ≢ RunStatus.succeeded → st ≡ t → waiting_status t ≡ st
waiting_status-IsSettled st RunStatus.agent_succeeded fixed other e =
    absurd (subst IsSettled e fixed)
waiting_status-IsSettled st RunStatus.succeeded fixed other e = absurd (other e)
waiting_status-IsSettled st t fixed other e = sym e

-- Preparing a callback leaves a failed, timed out or canceled run as it is, and every other status
-- but the successes: a notification that is pending never hides the failure.
pub prepare_for_run_keeps_failure :
    (sv : Services) (fresh : String) (run : AgentRun) (s : Store) (k : String) (st : RunStatus)
    → IsSettled st
    → st ≢ RunStatus.succeeded
    → status_of k s ≡ some st
    → status_of k (prepare_for_run sv fresh run s).1 ≡ some st
unfolding prepare_for_run
prepare_for_run_keeps_failure sv fresh run s k st fixed other h =
    elim (Option-cases (callback_url run)) [
      | inl e ↦ rw (e, prepare_for_run) (skip_callback-keeps k st fixed run s h)
      | inr (url, e) ↦
          rw (e, prepare_for_run)
            (ground (arith, stored url, skip_callback-keeps k st fixed run s h))
    ]
  where
    event_id : String
    event_id = or_else (truthy run.callback_event_id) fresh

    saved : (url : String) → Bool × Store
    saved url =
        update_run_with_callback (awaiting run event_id)
          (delivery_for sv (record run { callback_event_id = some event_id }) url event_id s)
          (owned_by run.status run.worker) s

    stored : (url : String) → status_of k (saved url).1 ≡ some st
    stored url =
        update_run_with_callback-keeps k st fixed _ _ (owned_by run.status run.worker) s
          (λ g.
            unfold awaiting in
            waiting_status-IsSettled st run.status fixed other (contains-one run.status st g))
          h
