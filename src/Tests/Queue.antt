-- ===== src/Tests/Queue.antt =====
-- The claims on the queue and its leases, at the concrete store.
use mathlib.Core.List.{Perm}
use agent_task_platform.Prelude.{
  ℕ, ◌≤◌, ◌≢◌, ◌↔◌, ◌⊎◌, String, ◌≡◌, refl, true, false, Option, none, some, List, [], ◌∷◌, ◌++◌,
  arith, All, contains, length, string_eq, option_beq_iff, keep,
}
use agent_task_platform.Domain.Status.{RunStatus}
use agent_task_platform.Domain.Entities.{AgentRun, AgentSpec}
use agent_task_platform.Table.{find}
use agent_task_platform.Table.Sort.{order_by}
use agent_task_platform.Store.Runs
use agent_task_platform.Store.Runs.{
  claim_ready, select_ready, ids, is_selected, is_current, queue_le, update_if_current, Expected,
}
use agent_task_platform.Store.Runs.Claim.{
  claim_ready_exclusive, claim_ready_grants, claim_ready_order, ComesBefore, IsGranted,
}
use agent_task_platform.Store.Runs.Fencing.{claim_fences}
use agent_task_platform.Store.Runs.Update.{update_if_current_swaps, IsExpected, stamped}
use agent_task_platform.Manager.Lease.Sweeps.{lease_excludes_others, Sweep, sweep_all}
use agent_task_platform.World.{run_in}
use agent_task_platform.Store.Listings.{status_counts}
use agent_task_platform.Store.Listings.Counts.{total, total-status_counts, count_for, Counted}
use agent_task_platform.Tests.Data.{
  store, world, leased_run, lost_run, writer, store-RunsUnique, found_leased,
}

abbrev as_alice : Expected
as_alice = record {
  statuses = RunStatus.running ∷ [];
  worker = some (some "alice");
  lease_expire_time = none;
}

claim_ready_exclusive_example :
    All
      (λ r. contains (ids (select_ready [] [] 10 1 store.runs)) r.run_id ≡ false)
      (claim_ready [] "carol" 30 5 []
        (record (claim_ready [] "bob" 30 1 [] store).1 { clock = 20 })).0
claim_ready_exclusive_example =
    claim_ready_exclusive [] [] [] [] "bob" "carol" 30 30 1 5 20 store (omega arith)

claim_ready_grants_example :
    (length (claim_ready [] "bob" 30 1 [] store).0 ≤ 1)
    × All (IsGranted "bob" 40 [] []) (claim_ready [] "bob" 30 1 [] store).0
claim_ready_grants_example = claim_ready_grants [] [] "bob" 30 1 store

claim_ready_order_example :
    (waiting : List AgentRun) × Perm
      (select_ready [] [] 10 1 store.runs ++ waiting)
      (keep (is_selected [] [] 10) store.runs)
    × All (λ a. All (ComesBefore a) waiting) (select_ready [] [] 10 1 store.runs)
claim_ready_order_example = claim_ready_order [] [] 1 store

found_lost : Runs.get "lost" store ≡ some lost_run
unfolding find
found_lost = refl

lost_is_chosen : contains (ids (select_ready [] [] 10 5 store.runs)) "lost" ≡ true
unfolding contains select_ready order_by queue_le keep
lost_is_chosen = refl

alice_is_not_bob : ◌≢◌ {A = Option String} (some "alice") (some "bob")
alice_is_not_bob = ground (arith, option_beq_iff {A = String} (some "alice") (some "bob"))

claim_fences_example :
    update_if_current lost_run as_alice (claim_ready [] "bob" 30 5 [] store).1
    ≡ (false, (claim_ready [] "bob" 30 5 [] store).1)
claim_fences_example =
    claim_fences [] [] "bob" 30 5 store lost_run lost_run as_alice (some "alice") store-RunsUnique
      found_lost lost_is_chosen refl alice_is_not_bob

update_if_current_swaps_example :
    let after = update_if_current leased_run as_alice store in
    ((after.0 ≡ true)
      ↔ ((r : AgentRun) × (Runs.get "leased" store ≡ some r) × IsExpected "leased" as_alice r))
    × (((after.0 ≡ true) × (Runs.get "leased" after.1 ≡ some (stamped leased_run store)))
        ⊎ (after ≡ (false, store)))
    × ((k : String) → k ≢ "leased" → Runs.get k after.1 ≡ Runs.get k store)
update_if_current_swaps_example = update_if_current_swaps leased_run as_alice store store-RunsUnique

abbrev any_agent : AgentRun → Option AgentSpec
any_agent run = some writer

abbrev calls : List Sweep
calls =
    Sweep.recover 10
    ∷ Sweep.dispatch [] "bob" 30 10
    ∷ Sweep.reclaim 10
    ∷ Sweep.renew "leased" "bob" 30
    ∷ Sweep.write lost_run (RunStatus.running ∷ []) (some "bob")
    ∷ []

lease_excludes_others_example :
    run_in "leased" (sweep_all any_agent (λ w. w) calls world) ≡ some leased_run
lease_excludes_others_example =
    lease_excludes_others "leased" leased_run any_agent (λ w. w) calls world (λ v h. h) refl
      (tt, (tt, (tt, (alice_is_not_bob, (alice_is_not_bob, tt)))))
      (found_leased, refl, store-RunsUnique)

total-status_counts_example :
    ((st : RunStatus)
      → (n : ℕ) × (count_for st (status_counts store) ≡ some n) × Counted st store.runs n)
    × (total (status_counts store) ≡ 5)
total-status_counts_example = total-status_counts store
