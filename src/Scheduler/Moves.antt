-- ===== src/Scheduler/Moves.antt =====
-- orchestration/scheduler.py: what each step of a call moves.
use agent_task_platform.Prelude.{
  ℕ, ◌+◌, ◌-◌, String, ◌≡◌, refl, sym, ◌∙◌, ap, subst, true, false, none, some, [], ◌∷◌, string_eq,
  arith, nat_beq, inl, inr, Bool-cases, Option-cases, List,
}
use agent_task_platform.Domain.Entities.{Dict}
use agent_task_platform.World.{dict_pop}
use agent_task_platform.World.Dicts.{dict_get-dict_set}
use agent_task_platform.Scheduler.{
  Semaphore, global, same_semaphore, Slot, Scheduler, Request, Task, semaphore_for, set_value,
}
use agent_task_platform.Scheduler.Steps.{
  look_up, take_next, admit, finish, release_all, count_of, add_one, less_one, without_lanes,
  uncount,
}
use agent_task_platform.Scheduler.Totals.{
  total, count, same_semaphore-equal, Found, semaphore_for-Found, release_all-value,
  release_all-Same,
}
use agent_task_platform.Scheduler.Capacity.{weight, Counted, Moves}

-- A step that changes no count, of a call that is counted as before.
same-Counted :
    (field : Request → String) (t u : Task) (counts counts' : Dict ℕ)
    → counts' ≡ counts
    → u.request ≡ t.request
    → u.admitted ≡ t.admitted
    → Counted field t (u ∷ []) counts counts'
unfolding total
same-Counted field t u counts counts' e r a name h = ground (arith, e, r, a)

-- A step that leaves the call and the scheduler as they are.
still-Moves : (t : Task) (s : Scheduler) → Moves t (t ∷ []) s s
unfolding total
still-Moves t s = record {
  limits = refl;
  generation = refl;
  balance = omega arith;
  future = λ g late. omega arith;
  agents = same-Counted (λ q. q.agent) t t s.running_by_agent s.running_by_agent refl refl refl;
  route_tags =
      same-Counted (λ q. q.route_tag) t t s.running_by_route_tag s.running_by_route_tag refl refl
        refl;
  callers = same-Counted (λ q. q.caller) t t s.running_by_caller s.running_by_caller refl refl refl;
}

module _ (t : Task) (s : Scheduler) where
  asked-Moves :
      (rest : List Slot) (r : Semaphore × Scheduler)
      → t.next ≡ none
      → Found s r
      → Moves t (record t { waits = rest; next = some r.0 } ∷ []) s r.1
  unfolding total count
  asked-Moves rest r free f =
      let u : Task = record t { waits = rest; next = some r.0 } in
      record {
        limits = f.same.limits;
        generation = f.same.generation;
        balance = omega (arith, f.value s.generation);
        future = λ g late. ground (arith, free, late, f.id g);
        agents = same-Counted (λ q. q.agent) t u _ _ f.same.agents refl refl;
        route_tags = same-Counted (λ q. q.route_tag) t u _ _ f.same.route_tags refl refl;
        callers = same-Counted (λ q. q.caller) t u _ _ f.same.callers refl refl;
      }

  abbrev pub StepMoves : Task × Scheduler → Type 0
  StepMoves r = Moves t (r.0 ∷ []) s r.1

  pub look_up-Moves : StepMoves (look_up t s)
  unfolding look_up
  look_up-Moves = elim (Option-cases t.next) [
    | inr (id, e) ↦
        let same : look_up t s ≡ (t, s) = ground (arith, e) in
        subst StepMoves (sym same) (still-Moves t s)
    | inl e ↦ by_waits t.waits refl e
  ]
    where
      by_waits : (slots : List Slot) → t.waits ≡ slots → t.next ≡ none → StepMoves (look_up t s)
      by_waits [] w e =
          let same : look_up t s ≡ (t, s) = ground (arith, e, w) in
          subst StepMoves (sym same) (still-Moves t s)
      by_waits (slot ∷ rest) w e =
          let r = semaphore_for t.request slot s in
          let same : look_up t s ≡ (record t { waits = rest; next = some r.0 }, r.1) =
            ground (arith, e, w) in
          subst StepMoves (sym same) (asked-Moves rest r e (semaphore_for-Found t.request slot s))

  taken-Moves :
      (id : Semaphore)
      → t.next ≡ some id
      → nat_beq (s.value id) 0 ≡ false
      → Moves t
          (record t { next = none; taken = id ∷ t.taken } ∷ [])
          s
          (set_value id (s.value id - 1) s)
  unfolding total count
  taken-Moves id e free =
      let u : Task = record t { next = none; taken = id ∷ t.taken } in
      let g = global s.generation in
      record {
        limits = refl;
        generation = refl;
        balance = ground (
          arith,
          free,
          λ (h : same_semaphore g id ≡ true). ap s.value (same_semaphore-equal g id h),
        );
        future = λ j late. ground (arith, e);
        agents = same-Counted (λ q. q.agent) t u _ _ refl refl refl;
        route_tags = same-Counted (λ q. q.route_tag) t u _ _ refl refl refl;
        callers = same-Counted (λ q. q.caller) t u _ _ refl refl refl;
      }

  pub take_next-Moves : StepMoves (take_next t s)
  unfolding take_next
  take_next-Moves = elim (Option-cases t.next) [
    | inl e ↦
        let same : take_next t s ≡ (t, s) = ground (arith, e) in
        subst StepMoves (sym same) (still-Moves t s)
    | inr (id, e) ↦ elim (Bool-cases (nat_beq (s.value id) 0)) [
      | inl z ↦
          let same : take_next t s ≡ (t, s) = ground (arith, e, z) in
          subst StepMoves (sym same) (still-Moves t s)
      | inr z ↦
          let same : take_next t s
              ≡ (record t { next = none; taken = id ∷ t.taken }, set_value id (s.value id - 1) s) =
            ground (arith, e, z) in
          subst StepMoves (sym same) (taken-Moves id e z)
    ]
  ]

-- A call that is counted from now on, and one that no longer is.
more-Counted :
    (field : Request → String) (t u : Task) (counts : Dict ℕ)
    → t.admitted ≡ false
    → u.admitted ≡ true
    → u.request ≡ t.request
    → Counted field t (u ∷ []) counts (add_one (field t.request) counts)
unfolding total
more-Counted field t u counts a b r name h = ground (
  arith,
  a,
  b,
  r,
  string_eq.eqb_iff (field t.request) name,
  dict_get-dict_set (field t.request) name (count_of (field t.request) counts + 1) counts,
)

less-Counted :
    (field : Request → String) (t : Task) (counts : Dict ℕ)
    → t.admitted ≡ true
    → Counted field t [] counts (less_one (field t.request) counts)
unfolding total
less-Counted field t counts a name h = ground (
  arith,
  a,
  h,
  string_eq.eqb_iff (field t.request) name,
  dict_get-dict_set (field t.request) name (count_of (field t.request) counts - 1) counts,
)

pub admit-Moves :
    (t : Task) (s : Scheduler) → t.admitted ≡ false → Moves t ((admit t s).0 ∷ []) s (admit t s).1
unfolding admit total
admit-Moves t s a =
    let u = (admit t s).0 in
    record {
      limits = refl;
      generation = refl;
      balance = omega arith;
      future = λ g late. omega arith;
      agents = more-Counted (λ q. q.agent) t u s.running_by_agent a refl refl;
      route_tags = more-Counted (λ q. q.route_tag) t u s.running_by_route_tag a refl refl;
      callers = more-Counted (λ q. q.caller) t u s.running_by_caller a refl refl;
    }

-- A call that ends returns what it has, and nothing else changes of the semaphores.
released-balance :
    (ids : List Semaphore) (s : Scheduler) (id : Semaphore)
    → 0 + (release_all ids s).value id ≡ count id ids + s.value id
released-balance ids s id = omega (arith, release_all-value ids s id)

pub gives_up-Moves :
    (t : Task) (s : Scheduler) → t.admitted ≡ false → Moves t [] s (release_all t.taken s)
unfolding total
gives_up-Moves t s a =
    let same = release_all-Same t.taken s in
    record {
      limits = same.limits;
      generation = same.generation;
      balance = released-balance t.taken s (global s.generation);
      future = λ g late. omega arith;
      agents = λ name h. ground (arith, a, same.agents);
      route_tags = λ name h. ground (arith, a, same.route_tags);
      callers = λ name h. ground (arith, a, same.callers);
    }

-- The scheduler after a run that is no longer counted.
record Uncounted (q : Request) (s s' : Scheduler) : Type 0 where
  limits : s'.limits ≡ s.limits
  generation : s'.generation ≡ s.generation
  value : s'.value ≡ s.value
  agents : s'.running_by_agent ≡ less_one q.agent s.running_by_agent
  route_tags : s'.running_by_route_tag ≡ less_one q.route_tag s.running_by_route_tag
  callers : s'.running_by_caller ≡ less_one q.caller s.running_by_caller

uncount-Uncounted : (q : Request) (s : Scheduler) → Uncounted q s (uncount q s)
uncount-Uncounted q s = ground arith

pub finish-Moves : (t : Task) (s : Scheduler) → t.admitted ≡ true → Moves t [] s (finish t s)
unfolding finish total
finish-Moves t s a =
    let counted = uncount-Uncounted t.request s in
    let s1 : Scheduler = uncount t.request s in
    let s2 = record s1 { holders = dict_pop t.request.run_id s1.holders } in
    let s3 = without_lanes t.request.run_id s2 in
    let same = release_all-Same t.taken s3 in
    record {
      limits = same.limits ∙ counted.limits;
      generation = same.generation ∙ counted.generation;
      balance =
          released-balance t.taken s3 (global s.generation)
          ∙ ap
              (λ (v : Semaphore → ℕ). count (global s.generation) t.taken + v (global s.generation))
              counted.value;
      future = λ g late. omega arith;
      agents = λ name h.
          ap (λ d. count_of name d + weight (λ q. q.agent) name t) (same.agents ∙ counted.agents)
          ∙ less-Counted (λ q. q.agent) t s.running_by_agent a name h;
      route_tags = λ name h.
          ap (λ d. count_of name d + weight (λ q. q.route_tag) name t)
            (same.route_tags ∙ counted.route_tags)
          ∙ less-Counted (λ q. q.route_tag) t s.running_by_route_tag a name h;
      callers = λ name h.
          ap (λ d. count_of name d + weight (λ q. q.caller) name t) (same.callers ∙ counted.callers)
          ∙ less-Counted (λ q. q.caller) t s.running_by_caller a name h;
    }
