-- ===== src/Store/Callbacks.antt =====
-- infra/store/repository/callback.py, `CallbackRepository`: the queue of outbound callbacks, and
-- infra/store/sqlalchemy_store.py, `update_run_with_callback`.
use agent_task_platform.Prelude.{
  ℕ, ◌+◌, String, Bool, true, false, ◌&&◌, Option, none, some, List, map, leb, ltb, if◌then◌else◌,
  keep, take, contains, string_eq,
}
use agent_task_platform.Domain.Status.{CallbackStatus}
use agent_task_platform.Domain.Entities.{AgentRun, CallbackDelivery}
use agent_task_platform.Table.{find, merge, update_where}
use agent_task_platform.Table.Sort.{order_by}
use agent_task_platform.Store.State.{Store, callback_key}
use agent_task_platform.Store.Runs.{Expected, update_if_current, unset_or_before}

abbrev pub get : String → Store → Option CallbackDelivery
get event_id s = find callback_key event_id s.callbacks

unfoldable pub save : CallbackDelivery → Store → Store
save d s = record s {
  callbacks = merge callback_key (record d { update_time = s.clock }) s.callbacks;
}

abbrev pub is_unowned : ℕ → CallbackDelivery → Bool
is_unowned now d = elim d.worker [ none ↦ true | some _ ↦ unset_or_before d.lease_expire_time now ]

abbrev pub is_retryable_status : ℕ → CallbackDelivery → Bool
is_retryable_status max_attempts d = elim d.status [
  | CallbackStatus.pending ↦ true
  | CallbackStatus.failed ↦ ltb d.attempts max_attempts
  | _ ↦ false
]

-- The `WHERE` clause of `claim_pending`, with `max_attempts` given.
abbrev pub is_pending : ℕ → ℕ → CallbackDelivery → Bool
is_pending max_attempts now d =
    is_retryable_status max_attempts d && (leb d.run_after now && is_unowned now d)

-- `run_after ASC, update_time ASC`
unfoldable pub delivery_le : CallbackDelivery → CallbackDelivery → Bool
delivery_le a b =
    if ltb a.run_after b.run_after
    then true
    else if ltb b.run_after a.run_after
    then false
    else leb a.update_time b.update_time

unfoldable pub lease : String → ℕ → ℕ → CallbackDelivery → CallbackDelivery
lease worker_id lease_seconds now d = record d {
  worker = some worker_id;
  lease_expire_time = some (now + lease_seconds);
  update_time = now;
}

abbrev pub is_claimable : List String → ℕ → ℕ → CallbackDelivery → Bool
is_claimable locked max_attempts now d =
    is_pending max_attempts now d && (if contains locked d.event_id then false else true)

unfoldable pub select_pending :
    List String → ℕ → ℕ → ℕ → List CallbackDelivery → List CallbackDelivery
select_pending locked max_attempts now limit rows =
    take limit (order_by delivery_le (keep (is_claimable locked max_attempts now) rows))

abbrev pub ids : List CallbackDelivery → List String
ids = map callback_key

unfoldable pub claim_pending :
    List String → String → ℕ → ℕ → ℕ → Store → List CallbackDelivery × Store
claim_pending locked worker_id lease_seconds max_attempts limit s =
    let chosen = select_pending locked max_attempts s.clock limit s.callbacks in
    (
      map (lease worker_id lease_seconds s.clock) chosen,
      record s {
        callbacks =
            update_where (λ d. contains (ids chosen) d.event_id)
              (lease worker_id lease_seconds s.clock) s.callbacks;
      },
    )

-- One transaction: the callback is saved only if the run's row was current.
unfoldable pub update_run_with_callback :
    AgentRun → CallbackDelivery → Expected → Store → Bool × Store
update_run_with_callback run delivery e s =
    let (updated, s') = update_if_current run e s in
    if updated then (true, save delivery s') else (false, s')
