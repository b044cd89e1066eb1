-- ===== src/Manager/Lease/Sweeps.antt =====
-- Leases against the sweeps and the calls of other workers.

use agent_task_platform.Prelude.{
  ℕ, String, ◌≡◌, refl, true, false, Option, none, some, List, [], ◌∷◌, All, arith, ◌≢◌, inl, inr,
  Bool-cases, Option-cases, string_eq, option_eq, nat_eq, option_beq_iff,
}
use agent_task_platform.Domain.Lifecycle.{is_executing}
use agent_task_platform.Domain.Status.{RunStatus, run_status_eq}
use agent_task_platform.Domain.Entities.{AgentRun, AgentSpec}
use agent_task_platform.Table.{find-update_where_miss, update_where-Unique}
use agent_task_platform.Store.State.{RunsUnique, run_key}
use agent_task_platform.Store.Runs.Fencing.{claim_ready-RunsUnique}
use agent_task_platform.Store.Runs.{
  Expected, is_ready, claim_ready, owned_execution, renew_lease, update_if_current, is_current,
}
use agent_task_platform.Store.Runs.Update.{update_if_current-RunsUnique}
use agent_task_platform.Manager.Lease.{
  missed, unleased-not_current, expired-not_current, claim_ready_keeps,
}
use agent_task_platform.World.{World, run_in, update_owned}
use agent_task_platform.Manager.Recovery.{
  is_leased, is_expired, expect_row, recover_run, recover_each, recover_incomplete, reclaim_run,
  reclaim_each, reclaim_expired_leases, recovered, reclaimed,
}
use agent_task_platform.Manager.{
  dispatch_each, dispatch_ready, renew_tick, start_background, with_store,
}

abbrev pub Leased : String → AgentRun → World → Type 0
Leased k row w = (run_in k w ≡ some row) × (is_leased w.store.clock row ≡ true) × RunsUnique w.store

module _ (k : String) (row : AgentRun) (resolve : AgentRun → Option AgentSpec)
    (other : World → World) (keep : (w : World) → Leased k row w → Leased k row (other w)) where
  start_background-Leased :
      (id : String) (w : World) → Leased k row w → Leased k row (start_background id w).1
  unfolding start_background
  start_background-Leased id w h = ground (arith, h)

  -- A compare-and-swap for a row without the lease, after others have acted.
  swap-Leased :
      (run r : AgentRun) (w : World)
      → Leased k row w
      → ((j : String) → is_current j (expect_row r) row ≡ false)
      → Leased k row (with_store (update_if_current run (expect_row r) (other w).store).1 (other w))
  swap-Leased run r w h stale = (
    missed run (expect_row r) (other w).store k row (keep w h).0 (stale run.run_id),
    unfold update_if_current in (keep w h).1,
    update_if_current-RunsUnique run (expect_row r) (other w).store (keep w h).2,
  )

  recover_run-Leased :
      (r : AgentRun) (w : World) → Leased k row w → Leased k row (recover_run resolve other r w).1
  unfolding recover_run
  recover_run-Leased r w h = elim (Bool-cases (is_leased w.store.clock r)) [
    | inl e ↦ rw (e, recover_run) h
    | inr e ↦ elim (Option-cases (resolve r)) [
      | inl g ↦ rw (e, g, recover_run) h
      | inr (agent, g) ↦
          let run = recovered agent w.store.clock r in
          let after =
            with_store (update_if_current run (expect_row r) (other w).store).1 (other w) in
          let kept =
            swap-Leased run r w h (λ j. unleased-not_current j w.store.clock row r h.1 e) in
          rw (e, g, recover_run) (ground (arith, kept, start_background-Leased r.run_id after kept))
    ]
  ]

  reclaim_run-Leased :
      (now : ℕ) (r : AgentRun) (w : World)
      → is_leased now row ≡ true
      → Leased k row w
      → Leased k row (reclaim_run other now r w).1
  unfolding reclaim_run
  reclaim_run-Leased now r w g h = elim (Bool-cases (is_expired now r)) [
    | inl e ↦
        let kept = swap-Leased (reclaimed r) r w h (λ j. expired-not_current j now row r g e) in
        rw (e, reclaim_run) (ground (arith, h, kept))
    | inr e ↦ rw (e, reclaim_run) h
  ]

  recover_each-Leased :
      (rs : List AgentRun) (n : ℕ) (w : World)
      → Leased k row w
      → Leased k row (recover_each resolve other rs n w).1
  unfolding recover_each
  recover_each-Leased [] n w h = h
  recover_each-Leased (r ∷ rs) n w h = recover_each-Leased rs _ _ (recover_run-Leased r w h)

  reclaim_each-Leased :
      (now : ℕ) (rs : List AgentRun) (n : ℕ) (w : World)
      → is_leased now row ≡ true
      → Leased k row w
      → Leased k row (reclaim_each other now rs n w).1
  unfolding reclaim_each
  reclaim_each-Leased now [] n w g h = h
  reclaim_each-Leased now (r ∷ rs) n w g h =
      reclaim_each-Leased now rs _ _ g (reclaim_run-Leased now r w g h)

  dispatch_each-Leased :
      (rs : List AgentRun) (n : ℕ) (w : World)
      → Leased k row w
      → Leased k row (dispatch_each rs n w).1
  unfolding dispatch_each
  dispatch_each-Leased [] n w h = h
  dispatch_each-Leased (r ∷ rs) n w h =
      dispatch_each-Leased rs _ _ (ground (arith, start_background-Leased r.run_id w h))

  dispatch_ready-Leased :
      (locked : List String) (worker_id : String) (lease_seconds limit : ℕ) (w : World)
      → is_ready w.store.clock row ≡ false
      → Leased k row w
      → Leased k row (dispatch_ready locked worker_id lease_seconds limit w).1
  unfolding dispatch_ready
  dispatch_ready-Leased locked worker_id lease_seconds limit w idle h = dispatch_each-Leased _ 0 _ (
    claim_ready_keeps k locked w.background worker_id lease_seconds limit w.store row h.2 h.0 idle,
    unfold claim_ready in h.1,
    claim_ready-RunsUnique locked w.background worker_id lease_seconds limit w.store h.2,
  )

  renew_tick-Leased :
      (run_id worker_id : String) (lease_seconds : ℕ) (w : World)
      → row.worker ≢ some worker_id
      → Leased k row w
      → Leased k row (renew_tick run_id worker_id lease_seconds w).1
  unfolding renew_tick renew_lease
  renew_tick-Leased run_id worker_id lease_seconds w ne h =
      let s = (renew_lease run_id worker_id lease_seconds w.store).1 in
      let kept : Leased k row (with_store s w) = (
        find-update_where_miss run_key (owned_execution run_id worker_id) _ (λ a p. refl) k
            w.store.runs row h.0 (ground (arith, option_beq_iff row.worker (some worker_id))),
        h.1,
        update_where-Unique run_key (owned_execution run_id worker_id) _ (λ a p. refl) w.store.runs
            h.2,
      ) in
      ground (arith, kept)

  update_owned-Leased :
      (run : AgentRun) (statuses : List RunStatus) (worker_id : Option String) (w : World)
      → row.worker ≢ worker_id
      → Leased k row w
      → Leased k row (update_owned run statuses worker_id w).1
  unfolding update_owned
  update_owned-Leased run statuses worker_id w ne h =
      let e : Expected = record {
        statuses = statuses;
        worker = some worker_id;
        lease_expire_time = none;
      } in
      (
        missed run e w.store k row h.0
            (unfold is_current in ground (arith, option_beq_iff row.worker worker_id)),
        unfold update_if_current in h.1,
        update_if_current-RunsUnique run e w.store h.2,
      )

-- What other workers do to the queue of a run, and what every process sweeps for: claims, recovery,
-- reclaiming, renewals, and the updates of an execution under its owner's name.
pub data Sweep : Type 0 where
  dispatch : (locked : List String) (worker_id : String) (lease_seconds limit : ℕ) → Sweep
  recover reclaim : (limit : ℕ) → Sweep
  renew : (run_id worker_id : String) (lease_seconds : ℕ) → Sweep
  write : (run : AgentRun) (statuses : List RunStatus) (worker_id : Option String) → Sweep

abbrev pub sweep : (AgentRun → Option AgentSpec) → (World → World) → Sweep → World → World
sweep resolve other (Sweep.dispatch locked worker_id lease_seconds limit) w =
    (dispatch_ready locked worker_id lease_seconds limit w).1
sweep resolve other (Sweep.recover limit) w = (recover_incomplete resolve other limit w).1
sweep resolve other (Sweep.reclaim limit) w = (reclaim_expired_leases other limit w).1
sweep resolve other (Sweep.renew run_id worker_id lease_seconds) w =
    (renew_tick run_id worker_id lease_seconds w).1
sweep resolve other (Sweep.write run statuses worker_id) w =
    (update_owned run statuses worker_id w).1

abbrev pub sweep_all : (AgentRun → Option AgentSpec) → (World → World) → List Sweep → World → World
sweep_all resolve other [] w = w
sweep_all resolve other (c ∷ cs) w = sweep_all resolve other cs (sweep resolve other c w)

-- Not in the name of the worker that holds the row.
abbrev pub IsForeign : AgentRun → Sweep → Type 0
IsForeign row (Sweep.renew run_id worker_id lease_seconds) = row.worker ≢ some worker_id
IsForeign row (Sweep.write run statuses worker_id) = row.worker ≢ worker_id
IsForeign row _ = Unit {0}

-- While a worker executes a run under a lease that has not run out, the row of the run stays exactly
-- as it is through any sequence of claims by any worker, recovery sweeps, sweeps for expired leases,
-- and renewals and updates of any run under another owner's name, with anything happening between
-- their statements that itself leaves the row, the run ids and the running lease alone.
pub lease_excludes_others :
    (k : String) (row : AgentRun) (resolve : AgentRun → Option AgentSpec) (other : World → World)
    (calls : List Sweep) (w : World)
    → ((v : World) → Leased k row v → Leased k row (other v))
    → is_executing row.status ≡ true
    → All (IsForeign row) calls
    → Leased k row w
    → run_in k (sweep_all resolve other calls w) ≡ some row
lease_excludes_others k row resolve other calls w keep busy foreign h = (all calls w foreign h).0
  where
    one :
        (c : Sweep) (v : World)
        → IsForeign row c
        → Leased k row v
        → Leased k row (sweep resolve other c v)
    one (Sweep.dispatch locked worker_id lease_seconds limit) v f g =
        dispatch_ready-Leased k row resolve other keep locked worker_id lease_seconds limit v
          (ground (arith, busy, g.1)) g
    one (Sweep.recover limit) v f g =
        unfold recover_incomplete in recover_each-Leased k row resolve other keep _ 0 v g
    one (Sweep.reclaim limit) v f g =
        unfold reclaim_expired_leases in reclaim_each-Leased k row resolve other keep _ _ 0 v g.1 g
    one (Sweep.renew run_id worker_id lease_seconds) v f g =
        renew_tick-Leased k row resolve other keep run_id worker_id lease_seconds v f g
    one (Sweep.write run statuses worker_id) v f g =
        update_owned-Leased k row resolve other keep run statuses worker_id v f g

    all :
        (cs : List Sweep) (v : World)
        → All (IsForeign row) cs
        → Leased k row v
        → Leased k row (sweep_all resolve other cs v)
    all [] v f g = g
    all (c ∷ cs) v f g = all cs (sweep resolve other c v) f.1 (one c v f.0 g)
