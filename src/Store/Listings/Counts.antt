-- ===== src/Store/Listings/Counts.antt =====
-- infra/store/repository/run.py: the counts of `status_counts` are those of all runs.
use agent_task_platform.Prelude.{
  Option, none, some, ◌≢◌, inl, inr, Bool-cases, refl, ℕ, suc, ◌+◌, ◌≡◌, ◌∙◌, ap, List, [], ◌∷◌,
  map, length, arith, if◌then◌else◌,
}
use agent_task_platform.Domain.Status.{RunStatus, run_status_beq, run_status_beq_iff}
use agent_task_platform.Domain.Entities.{AgentRun}
use agent_task_platform.Table.{rowcount}
use agent_task_platform.Store.State.{Store}
use agent_task_platform.Store.Listings.{status_counts, status_count, all_run_statuses}

abbrev pub total {ℓ} : {A : Type ℓ} → List (A × ℕ) → ℕ
total [] = 0
total ((a, n) ∷ rest) = n + total rest

-- One more run adds one to the count of its status.
abbrev with_one : RunStatus → List AgentRun → RunStatus → RunStatus × ℕ
with_one one runs status = (
  status,
  (let rest = rowcount (λ r. run_status_beq r.status status) runs in
      if run_status_beq one status then suc rest else rest),
)

total-with_one :
    (one : RunStatus) (runs : List AgentRun)
    → total (map (with_one one runs) all_run_statuses)
      ≡ suc (total (map (status_count runs) all_run_statuses))
unfolding run_status_beq
total-with_one RunStatus.created runs = omega arith
total-with_one RunStatus.queued runs = omega arith
total-with_one RunStatus.running runs = omega arith
total-with_one RunStatus.waiting_tool runs = omega arith
total-with_one RunStatus.retrying runs = omega arith
total-with_one RunStatus.agent_succeeded runs = omega arith
total-with_one RunStatus.waiting_callback runs = omega arith
total-with_one RunStatus.succeeded runs = omega arith
total-with_one RunStatus.failed runs = omega arith
total-with_one RunStatus.timeout runs = omega arith
total-with_one RunStatus.canceled runs = omega arith

counted : (runs : List AgentRun) → total (map (status_count runs) all_run_statuses) ≡ length runs
unfolding rowcount run_status_beq
counted [] = omega arith
counted (r ∷ runs) = total-with_one r.status runs ∙ ap (λ n. suc n) (counted runs)

-- The number of the runs with a status, by going through them one by one.
pub data Counted (st : RunStatus) : List AgentRun → ℕ → Type 0 where
  none_left : Counted st [] 0
  one_more :
      (r : AgentRun) (rs : List AgentRun) (n : ℕ)
      → r.status ≡ st
      → Counted st rs n
      → Counted st (r ∷ rs) (suc n)
  passed_over :
      (r : AgentRun) (rs : List AgentRun) (n : ℕ)
      → r.status ≢ st
      → Counted st rs n
      → Counted st (r ∷ rs) n

rowcount-Counted :
    (st : RunStatus) (runs : List AgentRun)
    → Counted st runs (rowcount (λ r. run_status_beq r.status st) runs)
unfolding rowcount
rowcount-Counted st [] = none_left
rowcount-Counted st (r ∷ rs) = elim (Bool-cases (run_status_beq r.status st)) [
  | inl same ↦
      rw same (one_more r rs _ ((run_status_beq_iff r.status st).0 same) (rowcount-Counted st rs))
  | inr differs' ↦ rw differs' (
      passed_over r rs _ (λ e. ground (arith, (run_status_beq_iff r.status st).1 e, differs'))
        (rowcount-Counted st rs))
]

-- The number that a list of counts gives for a status.
abbrev pub count_for : RunStatus → List (RunStatus × ℕ) → Option ℕ
count_for st [] = none
count_for st ((st', n) ∷ rest) = if run_status_beq st' st then some n else count_for st rest

count_for-all :
    (st : RunStatus) (runs : List AgentRun)
    → count_for st (map (status_count runs) all_run_statuses)
      ≡ some (rowcount (λ r. run_status_beq r.status st) runs)
unfolding run_status_beq
count_for-all RunStatus.created runs = refl
count_for-all RunStatus.queued runs = refl
count_for-all RunStatus.running runs = refl
count_for-all RunStatus.waiting_tool runs = refl
count_for-all RunStatus.retrying runs = refl
count_for-all RunStatus.agent_succeeded runs = refl
count_for-all RunStatus.waiting_callback runs = refl
count_for-all RunStatus.succeeded runs = refl
count_for-all RunStatus.failed runs = refl
count_for-all RunStatus.timeout runs = refl
count_for-all RunStatus.canceled runs = refl

-- Every status has a count, which is the number of the runs with that status, also where that is 0;
-- and all counts add up to the number of runs.
pub total-status_counts :
    (s : Store)
    → ((st : RunStatus) → (n : ℕ) × (count_for st (status_counts s) ≡ some n) × Counted st s.runs n)
      × (total (status_counts s) ≡ length s.runs)
unfolding status_counts
total-status_counts s = (
  λ st. (
    rowcount (λ r. run_status_beq r.status st) s.runs,
    count_for-all st s.runs,
    rowcount-Counted st s.runs,
  ),
  counted s.runs,
)
