-- ===== src/Callback/Deliver.antt =====
-- orchestration/callback_service.py: the delivery loop, the acknowledgement, dispatch and resend.
-- The network, the waits and the hook at the end are parameters: other tasks may change the store while
-- one is awaited. What `on_callback_start`, or the hook after the last attempt, raises leaves
-- `dispatch_delivery` before its first or after its last change of the store, and is left out.
use agent_task_platform.Prelude.{
  ℕ, zero, suc, ◌+◌, ◌-◌, String, Bool, true, false, Option, none, some, List, [], ◌∷◌, ltb,
  if◌then◌else◌, ◌==◌, string_eq,
}
use agent_task_platform.Domain.Status.{CallbackStatus}
use agent_task_platform.Domain.Entities.{
  AgentRun, CallbackDelivery, Json, JsonFields, or_now, truthy,
}
use agent_task_platform.Store.State.{Store, add_log}
use agent_task_platform.Store.Runs
use agent_task_platform.Store.Runs.{update_if_current}
use agent_task_platform.Store.Callbacks
use agent_task_platform.Store.Callbacks.{update_run_with_callback, save, claim_pending}
use agent_task_platform.Callback.{
  Services, delay_for_attempt, settled_status, in_status, prepare_for_run,
}

-- What `http_client.post` and `raise_for_status` come to: an exception, given by its text, or a
-- response whose body is JSON, or is not.
pub data Answer : Type 0 where
  raised : String → Answer
  responded : Option Json → Answer

pub record Network : Type 0 where
  pub post : CallbackDelivery → Store → Answer × Store
  pub sleep : ℕ → Store → Store
  pub ack_text : Json → String
  -- The hook that is told whether the delivery was made: the text of what it raises, or none.
  pub on_callback_end : Bool → CallbackDelivery → Store → Option String × Store

abbrev pub ack_status : JsonFields → Option Json
ack_status JsonFields.end = none
ack_status (JsonFields.field k v d) = if k == "ackStatus" then some v else ack_status d

abbrev pub is_received : Option Json → Bool
is_received (some (Json.text t)) = t == "RECEIVED"
is_received _ = false

-- `_validate_ack`: the text of the exception, or none.
unfoldable pub validate_ack : Network → Option Json → Option String
validate_ack net none = some "ValueError: Callback ack must be JSON"
validate_ack net (some (Json.object d)) =
    if is_received (ack_status d) then none else some (net.ack_text (Json.object d))
validate_ack net (some v) = some (net.ack_text v)

abbrev pub answer_error : Network → Answer → Option String
answer_error net (raised t) = some t
answer_error net (responded body) = validate_ack net body

-- The body of the `try`: the URL is checked, then the request is made and its answer judged.
unfoldable pub request : Services → Network → CallbackDelivery → Store → Option String × Store
request sv net d s = elim (sv.refuse_url d.url) [
  | some t ↦ (some t, s)
  | none ↦ let (answer, s') = net.post d s in (answer_error net answer, s')
]

unfoldable pub delivered : CallbackDelivery → CallbackDelivery
delivered d = record d {
  status = CallbackStatus.delivered;
  last_error = none;
  worker = none;
  lease_expire_time = none;
}

unfoldable pub settled : AgentRun → Store → AgentRun
settled run s = record run {
  callback_status = CallbackStatus.delivered;
  status = settled_status run;
  finish_time = or_now run.finish_time s.clock;
}

-- The success path of an attempt.
unfoldable pub record_delivered : CallbackDelivery → AgentRun → Store → Store
record_delivered d run s =
    let (stored, s') =
      update_run_with_callback (settled run s) (delivered d) (in_status run.status) s in
    add_log run.run_id run.trace_id "callback" "callback_delivered"
      (if stored then s' else save (delivered d) s')

unfoldable pub undelivered : Services → CallbackDelivery → ℕ → String → Store → CallbackDelivery
undelivered sv d attempt error s = record d {
  status = CallbackStatus.failed;
  last_error = some error;
  run_after = s.clock + delay_for_attempt sv.settings attempt;
}

-- The `except` path of an attempt, with the wait before the next one.
unfoldable pub record_failed : Services → Network → CallbackDelivery → ℕ → AgentRun → Store → Store
record_failed sv net d attempt run s =
    let s' = add_log run.run_id run.trace_id "callback" "callback_failed" (save d s) in
    if ltb attempt sv.settings.max_attempts
    then net.sleep (delay_for_attempt sv.settings attempt) s'
    else s'

-- After the last attempt.
unfoldable pub exhaust : CallbackDelivery → AgentRun → Store → CallbackDelivery × Store
exhaust d run s =
    let d' = record d { worker = none; lease_expire_time = none } in
    (
      d',
      save d'
          (update_if_current (record run { callback_status = CallbackStatus.failed })
            (in_status run.status) s).1,
    )

-- `for attempt in range(delivery.attempts + 1, max_attempts + 1)`, by the rounds that are left. The
-- hook after a delivery is called within the `try`: what it raises counts as a failed attempt.
unfoldable pub attempts_loop :
    ℕ → Services → Network → ℕ → CallbackDelivery → AgentRun → Store → CallbackDelivery × Store
attempts_loop zero sv net attempt d run s =
    let (d', s') = exhaust d run s in (d', (net.on_callback_end false d' s').1)
attempts_loop (suc rounds) sv net attempt d run s =
    let d1 = record d { attempts = attempt } in
    let (error, s1) = request sv net d1 s in
    elim error [
      | none ↦
          let (raised', s2) =
            net.on_callback_end true (delivered d1) (record_delivered d1 run s1) in
          elim raised' [
            | none ↦ (delivered d1, s2)
            | some t ↦
                let d2 = undelivered sv (delivered d1) attempt t s2 in
                attempts_loop rounds sv net (suc attempt) d2 (settled run s1)
                  (record_failed sv net d2 attempt (settled run s1) s2)
          ]
      | some t ↦
          let d2 = undelivered sv d1 attempt t s1 in
          attempts_loop rounds sv net (suc attempt) d2 run (record_failed sv net d2 attempt run s1)
    ]

-- `dispatch_delivery`; none is the `KeyError` for an unknown run.
unfoldable pub dispatch_delivery :
    Services → Network → CallbackDelivery → Store → Option (CallbackDelivery × Store)
dispatch_delivery sv net d s = elim (Runs.get d.run_id s) [
  | none ↦ none
  | some run ↦
      some (attempts_loop (sv.settings.max_attempts - d.attempts) sv net (suc d.attempts) d run s)
]

abbrev pub after_dispatch : Option (CallbackDelivery × Store) → Store → Store
after_dispatch none s = s
after_dispatch (some (d, s')) s = s'

-- `dispatch_for_run`
unfoldable pub dispatch_for_run : Services → Network → String → AgentRun → Store → Store
dispatch_for_run sv net fresh run s =
    let (prepared, s') = prepare_for_run sv fresh run s in
    elim prepared [ none ↦ s' | some d ↦ after_dispatch (dispatch_delivery sv net d s') s' ]

-- `resend`: an explicit operator request starts the attempts afresh.
unfoldable pub resend : Services → Network → String → AgentRun → Store → Store
resend sv net fresh run s = elim (truthy run.callback_event_id) [
  | none ↦ dispatch_for_run sv net fresh run s
  | some event_id ↦ elim (Callbacks.get event_id s) [
    | none ↦ dispatch_for_run sv net fresh run s
    | some d ↦ dispatch_for_run sv net fresh run (
        save
          (record d {
            status = CallbackStatus.pending;
            attempts = 0;
            last_error = none;
            run_after = s.clock;
            worker = none;
            lease_expire_time = none;
          })
          s)
  ]
]

-- The deliveries of a batch, one after another: `dispatch_pending` runs up to `concurrency` of them
-- at a time, and what the others do meanwhile is in the waits of each.
unfoldable pub dispatch_all : Services → Network → List CallbackDelivery → Store → Store
dispatch_all sv net [] s = s
dispatch_all sv net (d ∷ ds) s =
    dispatch_all sv net ds (after_dispatch (dispatch_delivery sv net d s) s)

unfoldable pub dispatch_pending : Services → Network → List String → String → ℕ → ℕ → Store → Store
dispatch_pending sv net locked worker_id lease_seconds limit s =
    let (claimed, s') =
      claim_pending locked worker_id lease_seconds sv.settings.max_attempts limit s in
    dispatch_all sv net claimed s'
