-- ===== src/Manager/Recovery.antt =====
-- orchestration/manager.py: `recover_incomplete` and `reclaim_expired_leases`.
-- reclaiming of expired leases. A started task is a run id in `background`; what it then does is
-- the executor's part. `other` is what other tasks and processes do between two statements that the
-- database does not join in one transaction.
use agent_task_platform.Prelude.{
  ℕ, ◌-◌, Bool, true, false, not, Option, none, some, List, [], ◌∷◌, ltb, leb, if◌then◌else◌,
  string_eq, option_eq,
}
use agent_task_platform.Domain.Status.{RunStatus, run_status_eq}
use agent_task_platform.Domain.Lifecycle.{executing_run_statuses, is_executing}
use agent_task_platform.Domain.Entities.{AgentRun, AgentSpec, or_now, or_else}
use agent_task_platform.Store.State.{add_log}
use agent_task_platform.Store.Runs.{Expected, update_if_current, list_by_status}
use agent_task_platform.World.{World}
use agent_task_platform.Manager.{with_store, count, is_running, start_background}

-- The compare-and-swap of `recover_incomplete` and `reclaim_expired_leases`: status, owner and lease
-- must be those of the row that was read.
abbrev pub expect_row : AgentRun → Expected
expect_row run = record {
  statuses = run.status ∷ [];
  worker = some run.worker;
  lease_expire_time = some run.lease_expire_time;
}

-- `run.worker is not None and run.lease_expire_time is not None and run.lease_expire_time > now`
abbrev pub is_leased : ℕ → AgentRun → Bool
is_leased now run = elim run.worker [
  | none ↦ false
  | some _ ↦ elim run.lease_expire_time [ none ↦ false | some t ↦ ltb now t ]
]

unfoldable pub recovered : AgentSpec → ℕ → AgentRun → AgentRun
recovered agent now run =
    let queue_time = or_now run.queue_time now in
    record run {
      status = RunStatus.queued;
      attempts = if is_executing run.status then run.attempts - 1 else run.attempts;
      queue_time = queue_time;
      run_after = or_now run.run_after (or_else queue_time now);
      max_attempts = agent.retry_policy.max_attempts;
      worker = none;
      lease_expire_time = none;
    }

-- One record of `recover_incomplete`.
unfoldable pub recover_run :
    (AgentRun → Option AgentSpec) → (World → World) → AgentRun → World → Bool × World
recover_run resolve other run w =
    if is_leased w.store.clock run then (false, w) else elim (resolve run) [
      | none ↦ (false, w)
      | some agent ↦
          let w1 = other w in
          let (done, s) =
            update_if_current (recovered agent w.store.clock run) (expect_row run) w1.store in
          if done
          then (true, (start_background run.run_id (with_store s w1)).1)
          else (false, with_store s w1)
    ]

unfoldable pub recover_each :
    (AgentRun → Option AgentSpec) → (World → World) → List AgentRun → ℕ → World → ℕ × World
recover_each resolve other [] n w = (n, w)
recover_each resolve other (r ∷ rs) n w =
    let (done, w') = recover_run resolve other r w in
    recover_each resolve other rs (count done n) w'

abbrev pub incomplete_statuses : List RunStatus
incomplete_statuses =
    RunStatus.created ∷ RunStatus.queued ∷ RunStatus.running ∷ RunStatus.waiting_tool
    ∷ RunStatus.retrying ∷ []

unfoldable pub recover_incomplete :
    (AgentRun → Option AgentSpec) → (World → World) → ℕ → World → ℕ × World
recover_incomplete resolve other limit w =
    recover_each resolve other (list_by_status incomplete_statuses limit w.store) 0 w

unfoldable pub reclaimed : AgentRun → AgentRun
reclaimed run = record run {
  status = RunStatus.queued;
  attempts = run.attempts - 1;
  worker = none;
  lease_expire_time = none;
}

abbrev pub is_expired : ℕ → AgentRun → Bool
is_expired now run = elim run.lease_expire_time [ none ↦ false | some t ↦ leb t now ]

-- One record of `reclaim_expired_leases`.
unfoldable pub reclaim_run : (World → World) → ℕ → AgentRun → World → Bool × World
reclaim_run other now run w =
    if not (is_expired now run)
    then (false, w)
    else if is_running run.run_id w
    then (
      false,
      with_store
          (add_log run.run_id run.trace_id "run_manager" "lease_reclaim_skipped_active_run" w.store)
          w,
    )
    else let w1 = other w in
      let (done, s) = update_if_current (reclaimed run) (expect_row run) w1.store in
      if done
      then (
        true,
        with_store (add_log run.run_id run.trace_id "run_manager" "lease_expired_reclaimed" s) w1,
      )
      else (false, with_store s w1)

unfoldable pub reclaim_each : (World → World) → ℕ → List AgentRun → ℕ → World → ℕ × World
reclaim_each other now [] n w = (n, w)
reclaim_each other now (r ∷ rs) n w =
    let (done, w') = reclaim_run other now r w in reclaim_each other now rs (count done n) w'

unfoldable pub reclaim_expired_leases : (World → World) → ℕ → World → ℕ × World
reclaim_expired_leases other limit w =
    reclaim_each other w.store.clock (list_by_status executing_run_statuses limit w.store) 0 w
