-- ===== src/Manager/Lease.antt =====
-- An unexpired lease, seen from the run table: which updates and claims pass its row over.
pub mod Sweeps
use mathlib.Core.Option
use agent_task_platform.Prelude.{
  ℕ, String, ◌≡◌, refl, sym, ◌∙◌, ap, Bool, true, false, Option, none, some, List, [], ◌∷◌, ltb,
  All, All-of, All-map, contains, ◌==◌, arith, ◌≢◌, ◌⊎◌, inl, inr, if◌then◌else◌, Bool-cases,
  Option-cases, not, string_eq, option_eq, nat_eq, option_beq_iff, eq_iff,
}
use agent_task_platform.Domain.Status.{RunStatus, run_status_eq}
use agent_task_platform.Domain.Entities.{AgentRun, AgentSpec}
use agent_task_platform.Table.{
  find-key, holds, find, Unique, find-update_where_miss, update_where-Unique,
}
use agent_task_platform.Store.State.{Store, add_log, RunsUnique, run_key}
use agent_task_platform.Store.Runs
use agent_task_platform.Store.Runs.Claim.{All-select_ready}
use agent_task_platform.Store.Runs.Fencing.{get-claim_ready, claim_ready-RunsUnique}
use agent_task_platform.Store.Runs.{
  Expected, is_ready, is_selected, select_ready, ids, claim_ready, claim, owned_execution,
  renew_lease, update_if_current, is_current,
}
use agent_task_platform.Store.Runs.Update.{get-update_if_current, update_if_current-RunsUnique}
use agent_task_platform.World.{World, run_in, update_owned}
use agent_task_platform.Manager.Recovery.{
  is_leased, is_expired, expect_row, recover_run, recover_each, recover_incomplete, reclaim_run,
  reclaim_each, reclaim_expired_leases, recovered, reclaimed,
}
use agent_task_platform.Manager.{
  dispatch_each, dispatch_ready, renew_tick, start_background, with_store, count,
}

-- An update that expects another row than the one that is there misses it.
pub missed :
    (run : AgentRun) (e : Expected) (s : Store) (k : String) (row : AgentRun)
    → Runs.get k s ≡ some row
    → is_current run.run_id e row ≡ false
    → Runs.get k (update_if_current run e s).1 ≡ some row
missed run e s k row h miss = get-update_if_current run e s k ∙ rw (h, miss) refl

-- The row that was read without a lease is not the row with the lease.
pub unleased-not_current :
    (k : String) (now : ℕ) (row r : AgentRun)
    → is_leased now row ≡ true
    → is_leased now r ≡ false
    → is_current k (expect_row r) row ≡ false
unfolding is_current
unleased-not_current k now row r h g = ground (
  arith,
  option_beq_iff row.worker r.worker,
  option_beq_iff row.lease_expire_time r.lease_expire_time,
)

pub expired-not_current :
    (k : String) (now : ℕ) (row r : AgentRun)
    → is_leased now row ≡ true
    → is_expired now r ≡ true
    → is_current k (expect_row r) row ≡ false
unfolding is_current
expired-not_current k now row r h g =
    ground (arith, option_beq_iff row.lease_expire_time r.lease_expire_time)

module _ (k : String) where
  absent : (rows : List AgentRun) → find run_key k rows ≡ none → All (λ r. r.run_id ≡ k → ⊥) rows
  unfolding find
  absent [] h = tt
  absent (r ∷ rows) h = (
    λ e. ground (arith, h, e, eq_iff r.run_id k),
    absent rows (ground (arith, h, eq_iff r.run_id k)),
  )

  only_row :
      (row : AgentRun) (rows : List AgentRun)
      → Unique run_key rows
      → find run_key k rows ≡ some row
      → All (λ r. r.run_id ≡ k → r ≡ row) rows
  unfolding find
  only_row row [] u h = tt
  only_row row (r ∷ rows) u h = elim (Bool-cases (r.run_id == k)) [
    | inl e ↦ (
      (λ _. ground (arith, h, e)),
      All-map (λ a. a.run_id ≡ k → ⊥) (λ a. a.run_id ≡ k → a ≡ row) (λ a no' g. absurd (no' g)) rows
          (absent rows (ap (λ j. find run_key j rows) (sym ((eq_iff r.run_id k).0 e)) ∙ u.0)),
    )
    | inr e ↦ (λ g. ground (arith, eq_iff r.run_id k), only_row row rows u.1 (ground (arith, h, e)))
  ]

  member_of :
      (P : AgentRun → Type 0) (rows : List AgentRun)
      → All P rows
      → contains (ids rows) k ≡ true
      → (r : AgentRun) × (r.run_id ≡ k) × P r
  unfolding contains
  member_of P [] h e = cc
  member_of P (r ∷ rows) h e = elim (Bool-cases (k == r.run_id)) [
    | inl g ↦ (r, sym ((eq_iff k r.run_id).0 g), h.0)
    | inr g ↦ member_of P rows h.1 (ground (arith, g, e))
  ]

  -- A claim takes no row that is not ready.
  pub claim_ready_keeps :
      (locked excluded : List String) (worker : String) (lease limit : ℕ) (s : Store)
      (row : AgentRun)
      → RunsUnique s
      → Runs.get k s ≡ some row
      → is_ready s.clock row ≡ false
      → Runs.get k (claim_ready locked worker lease limit excluded s).1 ≡ some row
  claim_ready_keeps locked excluded worker lease limit s row u h idle =
      elim (Bool-cases
        (contains (ids (select_ready locked excluded s.clock limit s.runs)) row.run_id)) [
          | inl e ↦
              let (r, key, (same, ready)) =
                member_of (λ r. (r.run_id ≡ k → r ≡ row) × (is_ready s.clock r ≡ true)) _
                  (All-select_ready (λ r. (r.run_id ≡ k → r ≡ row) × (is_ready s.clock r ≡ true))
                    locked excluded s.clock limit s.runs
                    (All-map (λ r. r.run_id ≡ k → r ≡ row)
                      (λ r.
                        is_selected locked excluded s.clock r ≡ true
                        → (r.run_id ≡ k → r ≡ row) × (is_ready s.clock r ≡ true))
                      (λ r g sel. (g, ground (arith, sel))) s.runs (only_row row s.runs u h)))
                  (ap (contains (ids (select_ready locked excluded s.clock limit s.runs)))
                      (sym (find-key run_key k s.runs row h))
                    ∙ e) in
              cc (same key, ready, idle)
          | inr e ↦
              get-claim_ready locked excluded worker lease limit s k ∙ rw (h, Option.map, e) refl
        ]
