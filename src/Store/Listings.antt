-- ===== src/Store/Listings.antt =====
-- infra/store/repository/run.py and callback.py: the listings and counts, which only read. The rates,
-- which are floating-point quotients of these counts, are left out.
pub mod Counts
use agent_task_platform.Prelude.{
  ℕ, suc, ◌+◌, ◌-◌, String, Bool, true, false, Option, some, List, [], ◌∷◌, map, length, take, keep,
  leb, contains, ◌==◌, string_eq, option_eq,
}
use agent_task_platform.Domain.Status.{
  RunStatus, CallbackStatus, run_status_beq, callback_status_eq,
}
use agent_task_platform.Domain.Entities.{AgentRun, CallbackDelivery}
use agent_task_platform.Table.{rowcount}
use agent_task_platform.Table.Sort.{order_by}
use agent_task_platform.Store.State.{Store}

abbrev pub newest_first : AgentRun → AgentRun → Bool
newest_first a b = leb b.create_time a.create_time

abbrev pub oldest_first : AgentRun → AgentRun → Bool
oldest_first a b = leb a.create_time b.create_time

-- `RunRepository.list`
unfoldable pub list_runs : ℕ → Store → List AgentRun
list_runs limit s = take limit (order_by newest_first s.runs)

unfoldable pub list_by_conversation : String → ℕ → Store → List AgentRun
list_by_conversation conversation_id limit s =
    take limit
      (order_by oldest_first (keep (λ r. r.conversation_id == some conversation_id) s.runs))

abbrev pub all_run_statuses : List RunStatus
all_run_statuses =
    RunStatus.created ∷ RunStatus.queued ∷ RunStatus.running ∷ RunStatus.waiting_tool
    ∷ RunStatus.retrying ∷ RunStatus.agent_succeeded ∷ RunStatus.waiting_callback
    ∷ RunStatus.succeeded ∷ RunStatus.failed ∷ RunStatus.timeout ∷ RunStatus.canceled ∷ []

abbrev pub status_count : List AgentRun → RunStatus → RunStatus × ℕ
status_count runs status = (status, rowcount (λ r. run_status_beq r.status status) runs)

-- `status_counts`: a status that no run has is counted as 0.
unfoldable pub status_counts : Store → List (RunStatus × ℕ)
status_counts s = map (status_count s.runs) all_run_statuses

abbrev pub updated_le : CallbackDelivery → CallbackDelivery → Bool
updated_le a b = leb a.update_time b.update_time

-- `CallbackRepository.for_run`
unfoldable pub for_run : String → Store → List CallbackDelivery
for_run run_id s = order_by updated_le (keep (λ d. d.run_id == run_id) s.callbacks)

abbrev pub all_callback_statuses : List CallbackStatus
all_callback_statuses =
    CallbackStatus.pending ∷ CallbackStatus.delivered ∷ CallbackStatus.failed
    ∷ CallbackStatus.skipped ∷ []

-- `counts`
unfoldable pub callback_counts : Store → List (CallbackStatus × ℕ)
callback_counts s =
    map (λ status. (status, rowcount (λ d. d.status == status) s.callbacks)) all_callback_statuses

-- `CallbackRepository.list`; no statuses are all statuses.
unfoldable pub list_callbacks : List CallbackStatus → ℕ → Store → List CallbackDelivery
list_callbacks [] limit s = take limit (order_by updated_le s.callbacks)
list_callbacks (status ∷ statuses) limit s =
    take limit (order_by updated_le (keep (λ d. contains (status ∷ statuses) d.status) s.callbacks))
