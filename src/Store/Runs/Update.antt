-- ===== src/Store/Runs/Update.antt =====
-- `update_if_current` is a compare-and-swap on the row of one run.
use mathlib.Core.Option
use agent_task_platform.Prelude.{
  String, ◌≡◌, refl, sym, ◌∙◌, true, false, Option, none, some, arith, string_eq, eq_iff, ℕ,
  if◌then◌else◌, inl, inr, Bool-cases, ◌≢◌, ◌↔◌, ◌⊎◌, contains, ap, option_eq, nat_eq,
  option_beq_iff,
}
use agent_task_platform.Domain.Status.{run_status_eq}
use agent_task_platform.Domain.Entities.{AgentRun}
use agent_task_platform.Table.{
  find-key, find-update_where, holds, rowcount-Unique, update_where-Unique, update_where-missed,
}
use agent_task_platform.Store.State.{Store, RunsUnique, run_key}
use agent_task_platform.Store.Runs.{
  Expected, is_current, update_if_current, get, worker_matches, lease_matches,
}

-- What the update writes.
abbrev pub stamped : AgentRun → Store → AgentRun
stamped run s = record run { update_time = s.clock }

module _ (run : AgentRun) (e : Expected) where
  is_current-key : (r : AgentRun) → is_current run.run_id e r ≡ true → r.run_id ≡ run.run_id
  unfolding is_current
  is_current-key r h = ground (arith, eq_iff r.run_id run.run_id)

  -- Every row after the update: the row of this run is replaced if it is current, no other changes.
  pub get-update_if_current :
      (s : Store) (k : String)
      → get k (update_if_current run e s).1
        ≡ (if holds (is_current run.run_id e) (get k s) then some (stamped run s) else get k s)
  unfolding update_if_current
  get-update_if_current s k =
      find-update_where run_key (is_current run.run_id e) (λ _. stamped run s)
        (λ r h. sym (is_current-key r h)) k s.runs
      ∙ split (get k s)
    where
      split :
          (o : Option AgentRun)
          → Option.map (λ r. if is_current run.run_id e r then stamped run s else r) o
            ≡ (if holds (is_current run.run_id e) o then some (stamped run s) else o)
      split none = refl
      split (some r) = ground arith

  -- The result says whether the row was current.
  pub update_if_current_result :
      (s : Store)
      → RunsUnique s
      → (update_if_current run e s).0 ≡ holds (is_current run.run_id e) (get run.run_id s)
  unfolding update_if_current
  update_if_current_result s u =
      rowcount-Unique run_key (is_current run.run_id e) run.run_id s.runs is_current-key u

  pub update_if_current-RunsUnique :
      (s : Store) → RunsUnique s → RunsUnique (update_if_current run e s).1
  unfolding update_if_current
  update_if_current-RunsUnique s u =
      update_where-Unique run_key (is_current run.run_id e) (λ _. stamped run s)
        (λ r h. sym (is_current-key r h)) s.runs u

  -- An update whose row is not current is a no-op on the whole store.
  pub update_if_current_refused :
      (s : Store)
      → RunsUnique s
      → holds (is_current run.run_id e) (get run.run_id s) ≡ false
      → update_if_current run e s ≡ (false, s)
  unfolding update_if_current
  update_if_current_refused s u h = cc (
    rowcount-Unique run_key (is_current run.run_id e) run.run_id s.runs is_current-key u,
    update_where-missed run_key (is_current run.run_id e) (λ _. stamped run s) run.run_id s.runs
        is_current-key u h,
  )

-- The answer, the row of the run and the other rows, in terms of the conditions of the `WHERE` clause.
pub update_if_current_effect :
    (run : AgentRun) (e : Expected) (s : Store)
    → RunsUnique s
    → let after = update_if_current run e s in
      let current = holds (is_current run.run_id e) (get run.run_id s) in
      (after.0 ≡ current)
      × (get run.run_id after.1 ≡ (if current then some (stamped run s) else get run.run_id s))
      × ((k : String) → k ≢ run.run_id → get k after.1 ≡ get k s)
update_if_current_effect run e s u = (
  update_if_current_result run e s u,
  get-update_if_current run e s run.run_id,
  λ k other.
      get-update_if_current run e s k ∙ other_row (get k s) k other (find-key run_key k s.runs),
)
  where
    other_row :
        (o : Option AgentRun) (k : String)
        → k ≢ run.run_id
        → ((r : AgentRun) → o ≡ some r → r.run_id ≡ k)
        → (if holds (is_current run.run_id e) o then some (stamped run s) else o) ≡ o
    other_row none k other h = refl
    other_row (some r) k other h = elim (Bool-cases (is_current run.run_id e r)) [
      | inl yes' ↦ absurd (other (sym (h r refl) ∙ is_current-key run e r yes'))
      | inr no' ↦ rw no'
    ]

-- A column against a test that may not have been asked for.
abbrev pub Passes : {A : Type 0} → Option A → A → Type 0
Passes none x = Unit {0}
Passes (some asked) x = x ≡ asked

-- The row of this run, in one of the expected statuses, with the owner and the lease that were asked
-- for, where they were.
pub record IsExpected (run_id : String) (e : Expected) (r : AgentRun) : Type 0 where
  pub key : r.run_id ≡ run_id
  pub status : contains e.statuses r.status ≡ true
  pub owner : Passes e.worker r.worker
  pub lease_until : Passes e.lease_expire_time r.lease_expire_time

worker_matches-Passes :
    (asked : Option (Option String)) (w : Option String)
    → (worker_matches asked w ≡ true) ↔ Passes asked w
worker_matches-Passes none w = (λ _. tt, λ _. refl)
worker_matches-Passes (some x) w = option_beq_iff w x

lease_matches-Passes :
    (asked : Option (Option ℕ)) (l : Option ℕ) → (lease_matches asked l ≡ true) ↔ Passes asked l
lease_matches-Passes none l = (λ _. tt, λ _. refl)
lease_matches-Passes (some x) l = option_beq_iff l x

is_current-IsExpected :
    (run_id : String) (e : Expected) (r : AgentRun)
    → (is_current run_id e r ≡ true) ↔ IsExpected run_id e r
unfolding is_current
is_current-IsExpected run_id e r = (
  (λ h. record {
    key = (eq_iff r.run_id run_id).0 (ground arith);
    status = ground arith;
    owner = (worker_matches-Passes e.worker r.worker).0 (ground arith);
    lease_until = (lease_matches-Passes e.lease_expire_time r.lease_expire_time).0 (ground arith);
  }),
  (λ h. ground (
    arith,
    (eq_iff r.run_id run_id).1 h.key,
    h.status,
    (worker_matches-Passes e.worker r.worker).1 h.owner,
    (lease_matches-Passes e.lease_expire_time r.lease_expire_time).1 h.lease_until,
  )),
)

holds-Expected :
    (run_id : String) (e : Expected) (o : Option AgentRun)
    → (holds (is_current run_id e) o ≡ true)
      ↔ ((r : AgentRun) × (o ≡ some r) × IsExpected run_id e r)
holds-Expected run_id e none = ((λ h. cc), (λ (r, h, _). cc))
holds-Expected run_id e (some r) = (
  (λ h. (r, refl, (is_current-IsExpected run_id e r).0 h)),
  (λ (r', h, x). ap (holds (is_current run_id e)) h ∙ (is_current-IsExpected run_id e r').1 x),
)

-- The update of a run answers true exactly when the table has its row with an expected status and
-- the owner and the lease asked for. Where it answers true the row holds the run; where it answers
-- false the whole store is as it was. Rows of other runs never change.
pub update_if_current_swaps :
    (run : AgentRun) (e : Expected) (s : Store)
    → RunsUnique s
    → let after = update_if_current run e s in
      ((after.0 ≡ true)
        ↔ ((r : AgentRun) × (get run.run_id s ≡ some r) × IsExpected run.run_id e r))
      × (((after.0 ≡ true) × (get run.run_id after.1 ≡ some (stamped run s)))
          ⊎ (after ≡ (false, s)))
      × ((k : String) → k ≢ run.run_id → get k after.1 ≡ get k s)
update_if_current_swaps run e s u =
    let (answer, stored, others) = update_if_current_effect run e s u in
    let (sound, complete) = holds-Expected run.run_id e (get run.run_id s) in
    (
      ((λ h. sound (sym answer ∙ h)), (λ x. answer ∙ complete x)),
      elim (Bool-cases (holds (is_current run.run_id e) (get run.run_id s))) [
        | inl yes' ↦ inl (answer ∙ yes', stored ∙ rw yes' refl)
        | inr no' ↦ inr (update_if_current_refused run e s u no')
      ],
      others,
    )
