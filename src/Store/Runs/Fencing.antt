-- ===== src/Store/Runs/Fencing.antt =====
-- Fencing: a worker that lost its run to another worker cannot write the run's row any more.
use mathlib.Core.Option
use agent_task_platform.Prelude.{
  ℕ, String, ◌≡◌, refl, ◌≢◌, true, false, Option, some, List, arith, string_eq, option_eq,
  option_beq_iff, if◌then◌else◌, contains,
}
use agent_task_platform.Domain.Entities.{AgentRun}
use agent_task_platform.Table.{find-key, find-update_where, update_where-Unique}
use agent_task_platform.Store.State.{Store, RunsUnique, run_key}
use agent_task_platform.Store.Runs.{
  Expected, is_current, update_if_current, get, claim, select_ready, ids, claim_ready,
}
use agent_task_platform.Store.Runs.Update.{update_if_current_refused}

module _ (locked excluded : List String) (worker : String) (lease limit : ℕ) (s : Store) where
  abbrev taken : List String
  taken = ids (select_ready locked excluded s.clock limit s.runs)

  claim-key : (r : AgentRun) → (claim worker lease s.clock r).run_id ≡ r.run_id
  unfolding claim
  claim-key r = refl

  -- The row of each run after a claim.
  pub get-claim_ready :
      (k : String)
      → get k (claim_ready locked worker lease limit excluded s).1
        ≡ Option.map
            (λ r. if contains taken r.run_id then claim worker lease s.clock r else r)
            (get k s)
  unfolding claim_ready
  get-claim_ready k =
      find-update_where run_key (λ r. contains taken r.run_id) (claim worker lease s.clock)
        (λ r _. claim-key r) k s.runs

  pub claim_ready-RunsUnique :
      RunsUnique s → RunsUnique (claim_ready locked worker lease limit excluded s).1
  unfolding claim_ready
  claim_ready-RunsUnique u =
      update_where-Unique run_key (λ r. contains taken r.run_id) (claim worker lease s.clock)
        (λ r _. claim-key r) s.runs u

-- A row owned by one worker is not current for another owner.
other_owner-not_current :
    (run_id b : String) (e : Expected) (r : AgentRun) (w : Option String)
    → e.worker ≡ some w
    → w ≢ some b
    → r.worker ≡ some b
    → is_current run_id e r ≡ false
unfolding is_current
other_owner-not_current run_id b e r w he ne hr = ground (arith, option_beq_iff r.worker w)

-- Once a worker has claimed a run, an update of that run made on behalf of any other owner (another
-- worker, or none) is refused and changes nothing in the store, whatever it writes and whatever
-- statuses it expects.
pub claim_fences :
    (locked excluded : List String) (worker : String) (lease limit : ℕ) (s : Store)
    (run row : AgentRun) (e : Expected) (w : Option String)
    → RunsUnique s
    → get run.run_id s ≡ some row
    → contains (ids (select_ready locked excluded s.clock limit s.runs)) run.run_id ≡ true
    → e.worker ≡ some w
    → w ≢ some worker
    → let s' = (claim_ready locked worker lease limit excluded s).1 in
      update_if_current run e s' ≡ (false, s')
claim_fences locked excluded worker lease limit s run row e w u found chosen he ne =
    update_if_current_refused run e _
      (claim_ready-RunsUnique locked excluded worker lease limit s u)
      (rw (get-claim_ready locked excluded worker lease limit s run.run_id, found, hit)
        (other_owner-not_current run.run_id worker e (claim worker lease s.clock row) w he ne
          (unfold claim in refl)))
  where
    hit : contains (taken locked excluded worker lease limit s) row.run_id ≡ true
    hit = rw (find-key run_key run.run_id s.runs row found) chosen
