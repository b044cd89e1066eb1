-- ===== src/Store/Runs/Claim.antt =====
-- Claims, leases and fencing: who may execute a run, and until when.
use mathlib.Core.List.{Perm}
use agent_task_platform.Prelude.{
  ℕ, ◌+◌, ◌≤◌, ◌<◌, String, ◌≡◌, refl, sym, true, false, some, List, [], ◌∷◌, arith, string_eq,
  option_eq, contains, inl, inr, Bool-cases, All, All-of, length-map, take-append-drop, subst, ◌++◌,
  Option, none, ◌∙◌, ap, leb, take, All-map, ltb, if◌then◌else◌, All-take, All-keep, All-of-map,
  keep, length, length-take, drop,
}
use agent_task_platform.Prelude.Int.{ℤ, pos, negsuc, pos_part, neg_part, ltbℤ}
use agent_task_platform.Domain.Status.{RunStatus}
use agent_task_platform.Domain.Entities.{AgentRun}
use agent_task_platform.Table.{update_where}
use agent_task_platform.Table.Sort.{
  order_by, All-order_by, order_by-perm, order_by-IsOrdered, take-le-drop,
}
use agent_task_platform.Store.State.{Store}
use agent_task_platform.Store.Runs.{
  run_after_lt, is_ready, is_selected, queue_le, claim, select_ready, ids, claim_ready,
}

-- What holds of every row of the table that passes the `WHERE` clause holds of the selected rows.
module _ {κ} (P : AgentRun → Type κ) (locked excluded : List String) (now limit : ℕ) where
  pub All-select_ready :
      (rows : List AgentRun)
      → All (λ r. is_selected locked excluded now r ≡ true → P r) rows
      → All P (select_ready locked excluded now limit rows)
  unfolding select_ready
  All-select_ready rows h =
      All-take P limit _
        (All-order_by queue_le P _ (All-keep P (is_selected locked excluded now) rows h))

-- A row that a claim has just written is not ready before its lease has run out.
claim-not_ready :
    (worker : String) (lease now later : ℕ) (r : AgentRun)
    → later < now + lease
    → is_ready later (claim worker lease now r) ≡ false
unfolding claim
claim-not_ready worker lease now later r h = ground arith

-- After a claim under a lease, until the lease runs out nobody can claim any of those runs again,
-- whatever the worker, its limit and its own list of exclusions.
pub claim_ready_exclusive :
    (locked locked' excluded excluded' : List String) (a b : String)
    (lease lease' limit limit' later : ℕ) (s : Store)
    → later < s.clock + lease
    → let first = claim_ready locked a lease limit excluded s in
      All
        (λ r. contains (ids (select_ready locked excluded s.clock limit s.runs)) r.run_id ≡ false)
        (claim_ready locked' b lease' limit' excluded' (record first.1 { clock = later })).0
unfolding claim_ready claim update_where
claim_ready_exclusive locked locked' excluded excluded' a b lease lease' limit limit' later s h =
    All-of-map _ (claim b lease' later) _ (
      All-select_ready (λ r. contains taken r.run_id ≡ false) locked' excluded' later limit' _
        (rest s.runs))
  where
    taken : List String
    taken = ids (select_ready locked excluded s.clock limit s.runs)

    rest :
        (rows : List AgentRun)
        → All
            (λ r. is_selected locked' excluded' later r ≡ true → contains taken r.run_id ≡ false)
            (update_where (λ r. contains taken r.run_id) (claim a lease s.clock) rows)
    rest [] = tt
    rest (r ∷ rows) = elim (Bool-cases (contains taken r.run_id)) [
      | inl e ↦ rw e ((λ g. ground (arith, claim-not_ready a lease s.clock later r h)), rest rows)
      | inr e ↦ rw e ((λ _. e), rest rows)
    ]

queue_le-total : (a b : AgentRun) → queue_le a b ≡ false → queue_le b a ≡ true
unfolding queue_le
queue_le-total a b h = ground arith

queue_le_trans :
    (a b c : AgentRun) → queue_le a b ≡ true → queue_le b c ≡ true → queue_le a c ≡ true
unfolding queue_le
queue_le_trans a b c h k = ground arith

-- A run that is running, owned by the worker under a lease until `expiry`, in neither list.
pub record IsGranted (worker : String) (expiry : ℕ) (excluded locked : List String) (r : AgentRun)
    : Type 0 where
  pub is_running : r.status ≡ RunStatus.running
  pub owner : r.worker ≡ some worker
  pub leased : r.lease_expire_time ≡ some expiry
  pub not_excluded : contains excluded r.run_id ≡ false
  pub not_locked : contains locked r.run_id ≡ false

-- What a worker gets from a claim: at most `limit` runs, each now running, owned by this worker under
-- a lease of the asked length, and none of them excluded or locked.
pub claim_ready_grants :
    (locked excluded : List String) (worker : String) (lease limit : ℕ) (s : Store)
    → let claimed = (claim_ready locked worker lease limit excluded s).0 in
      (length claimed ≤ limit) × All (IsGranted worker (s.clock + lease) excluded locked) claimed
unfolding claim_ready claim
claim_ready_grants locked excluded worker lease limit s = (
  unfold select_ready in
      omega (
        arith,
        length-map (select_ready locked excluded s.clock limit s.runs) (claim worker lease s.clock),
        length-take limit (order_by queue_le (keep (is_selected locked excluded s.clock) s.runs)),
      ),
  All-of-map Granted (claim worker lease s.clock) _ (
      All-select_ready (λ r. Granted (claim worker lease s.clock r)) locked excluded s.clock limit
        s.runs
        (All-of
          (λ r.
            is_selected locked excluded s.clock r ≡ true → Granted (claim worker lease s.clock r))
          grant s.runs)),
)
  where
    Granted : AgentRun → Type 0
    Granted = IsGranted worker (s.clock + lease) excluded locked

    grant :
        (r : AgentRun)
        → is_selected locked excluded s.clock r ≡ true
        → Granted (claim worker lease s.clock r)
    grant r h = record {
      is_running = refl;
      owner = refl;
      leased = refl;
      not_excluded = ground arith;
      not_locked = ground arith;
    }

-- The order of the queue, said of priorities, due times and ages: the run that comes before has the
-- higher priority, or the same and is due first, or the same in both and was created first. A run
-- without a due time comes after those that have one.
pub data ComesBefore (a b : AgentRun) : Type 0 where
  by_priority :
      pos_part b.priority + neg_part a.priority < pos_part a.priority + neg_part b.priority
      → ComesBefore a b
  by_due :
      (t u : ℕ)
      → a.priority ≡ b.priority
      → a.run_after ≡ some t
      → b.run_after ≡ some u
      → t < u
      → ComesBefore a b
  by_having_due :
      (t : ℕ)
      → a.priority ≡ b.priority
      → a.run_after ≡ some t
      → b.run_after ≡ none
      → ComesBefore a b
  by_age :
      a.priority ≡ b.priority
      → a.run_after ≡ b.run_after
      → a.create_time ≤ b.create_time
      → ComesBefore a b

same_priority : (a b : ℤ) → ltbℤ a b ≡ false → ltbℤ b a ≡ false → a ≡ b
same_priority (pos m) (pos n) h k = ap pos (ground arith)
same_priority (pos m) (negsuc n) h k = ground arith
same_priority (negsuc m) (pos n) h k = ground arith
same_priority (negsuc m) (negsuc n) h k = ap negsuc (ground arith)

due_first :
    (a b : AgentRun)
    → a.priority ≡ b.priority
    → (t u : Option ℕ) → a.run_after ≡ t
    → b.run_after ≡ u
    → (if run_after_lt t u
        then true
        else if run_after_lt u t
        then false
        else leb a.create_time b.create_time)
      ≡ true
    → ComesBefore a b
due_first a b same none none f g h = by_age same (f ∙ sym g) (ground arith)
due_first a b same none (some u) f g h = cc
due_first a b same (some t) none f g h = by_having_due t same f g
due_first a b same (some t) (some u) f g h = elim (Bool-cases (ltb t u)) [
  | inl less ↦ by_due t u same f g (ground arith)
  | inr not_less ↦ elim (Bool-cases (ltb u t)) [
    | inl more ↦ ground arith
    | inr not_more ↦
        let equal : t ≡ u = ground arith in by_age same (f ∙ ap some equal ∙ sym g) (ground arith)
  ]
]

queue_le-ComesBefore : (a b : AgentRun) → queue_le a b ≡ true → ComesBefore a b
unfolding queue_le
queue_le-ComesBefore a b h = elim (Bool-cases (ltbℤ b.priority a.priority)) [
  | inl higher ↦ by_priority (ground arith)
  | inr not_higher ↦ elim (Bool-cases (ltbℤ a.priority b.priority)) [
    | inl lower ↦ cc
    | inr not_lower ↦
        due_first a b (same_priority a.priority b.priority not_lower not_higher) a.run_after
          b.run_after refl refl (ground arith)
  ]
]

-- The queue discipline: the claimed runs with those left waiting are all the eligible runs, and every
-- claimed run comes before every run left waiting: by its higher priority, or with equal priorities by
-- its earlier due time, or with both equal by being created no later.
pub claim_ready_order :
    (locked excluded : List String) (limit : ℕ) (s : Store)
    → let chosen = select_ready locked excluded s.clock limit s.runs in
      (waiting : List AgentRun) × Perm
        (chosen ++ waiting)
        (keep (is_selected locked excluded s.clock) s.runs)
      × All (λ a. All (ComesBefore a) waiting) chosen
unfolding select_ready
claim_ready_order locked excluded limit s =
    let eligible = keep (is_selected locked excluded s.clock) s.runs in
    let sorted = order_by queue_le eligible in
    (
      drop limit sorted,
      subst (λ rows. Perm rows eligible) (sym (take-append-drop limit sorted))
          (order_by-perm queue_le eligible),
      All-map (λ a. All (λ b. queue_le a b ≡ true) (drop limit sorted))
          (λ a. All (ComesBefore a) (drop limit sorted))
          (λ a.
            All-map (λ b. queue_le a b ≡ true) (ComesBefore a) (queue_le-ComesBefore a)
              (drop limit sorted))
          (take limit sorted)
          (take-le-drop queue_le limit sorted
            (order_by-IsOrdered queue_le queue_le-total queue_le_trans eligible)),
    )
