-- ===== src/Scheduler/Totals.antt =====
-- orchestration/scheduler.py: totals over the calls under way, and what the steps do to the scheduler.
use agent_task_platform.Prelude.{
  ℕ, suc, ◌+◌, ◌≡◌, refl, ap, true, Option, none, some, List, [], ◌∷◌, ◌++◌, string_eq, arith,
  if◌then◌else◌,
}
use agent_task_platform.World.{dict_get}
use agent_task_platform.Scheduler.{
  Semaphore, global, other, same_semaphore, Slot, global_slot, nested_slot, agent_slot, route_slot,
  caller_slot, lane_slot, Scheduler, Request, Task, semaphore_for, lane_get, set_value, setdefault,
  allocated, put_nested, put_agent, put_route, put_caller, put_lane,
}
use agent_task_platform.Scheduler.Steps.{release_all}

unfoldable pub total : (Task → ℕ) → List Task → ℕ
total weight [] = 0
total weight (t ∷ ts) = weight t + total weight ts

pub total-append :
    (weight : Task → ℕ) (xs ys : List Task)
    → total weight (xs ++ ys) ≡ total weight xs + total weight ys
unfolding total
total-append weight [] ys = omega arith
total-append weight (t ∷ xs) ys = omega (arith, total-append weight xs ys)

-- How often a semaphore stands among those that a call has.
unfoldable pub count : Semaphore → List Semaphore → ℕ
count id [] = 0
count id (j ∷ ids) = let rest = count id ids in if same_semaphore id j then suc rest else rest

-- The parts of the scheduler that the other semaphores leave alone.
pub record Same (s s' : Scheduler) : Type 0 where
  pub limits : s'.limits ≡ s.limits
  pub generation : s'.generation ≡ s.generation
  pub agents : s'.running_by_agent ≡ s.running_by_agent
  pub route_tags : s'.running_by_route_tag ≡ s.running_by_route_tag
  pub callers : s'.running_by_caller ≡ s.running_by_caller

pub record Found (s : Scheduler) (r : Semaphore × Scheduler) : Type 0 where
  pub same : Same s r.1
  pub value : (g : ℕ) → r.1.value (global g) ≡ s.value (global g)
  pub id : (g : ℕ) → same_semaphore (global g) r.0 ≡ true → g ≡ s.generation

pub kept :
    (s s' : Scheduler)
    → s'.limits ≡ s.limits
    → s'.generation ≡ s.generation
    → s'.running_by_agent ≡ s.running_by_agent
    → s'.running_by_route_tag ≡ s.running_by_route_tag
    → s'.running_by_caller ≡ s.running_by_caller
    → Same s s'
kept s s' a b c d e = record { limits = a; generation = b; agents = c; route_tags = d; callers = e }

pub unchanged : (s : Scheduler) → Same s s
unchanged s = kept s s refl refl refl refl refl

pub same_semaphore-equal : (a b : Semaphore) → same_semaphore a b ≡ true → a ≡ b
same_semaphore-equal (global m) (global n) h = ap global (ground (arith, h))
same_semaphore-equal (other m) (other n) h = ap other (ground (arith, h))
same_semaphore-equal (global m) (other n) h = cc
same_semaphore-equal (other m) (global n) h = cc

setdefault-Found :
    (found : Option ℕ) (limit : ℕ) (put : ℕ → Scheduler → Scheduler) (s : Scheduler)
    → ((n : ℕ) (s' : Scheduler) → Same s' (put n s'))
    → ((n : ℕ) (s' : Scheduler) (g : ℕ) → (put n s').value (global g) ≡ s'.value (global g))
    → Found s (setdefault found limit put s)
setdefault-Found (some n) limit put s same value = record {
  same = unchanged s;
  value = λ g. refl;
  id = λ g h. ground (arith, h);
}
setdefault-Found none limit put s same value =
    let s1 = allocated limit s in
    let put_same = same s.fresh s1 in
    record {
      same = record {
        limits = put_same.limits;
        generation = put_same.generation;
        agents = put_same.agents;
        route_tags = put_same.route_tags;
        callers = put_same.callers;
      };
      value = λ g. value s.fresh s1 g;
      id = λ g h. ground (arith, h);
    }

pub semaphore_for-Found :
    (q : Request) (slot : Slot) (s : Scheduler) → Found s (semaphore_for q slot s)
unfolding semaphore_for
semaphore_for-Found q global_slot s = record {
  same = unchanged s;
  value = λ g. refl;
  id = λ g h. ground (arith, h);
}
semaphore_for-Found q (nested_slot root) s =
    setdefault-Found (dict_get root s.nested_children_semaphores) _ (put_nested root) s
      (λ n s'. kept s' (put_nested root n s') refl refl refl refl refl) (λ n s' g. refl)
semaphore_for-Found q (agent_slot name) s =
    setdefault-Found (dict_get name s.agent_semaphores) _ (put_agent name) s
      (λ n s'. kept s' (put_agent name n s') refl refl refl refl refl) (λ n s' g. refl)
semaphore_for-Found q (route_slot tag) s =
    setdefault-Found (dict_get tag s.task_tag_semaphores) _ (put_route tag) s
      (λ n s'. kept s' (put_route tag n s') refl refl refl refl refl) (λ n s' g. refl)
semaphore_for-Found q (caller_slot caller) s =
    setdefault-Found (dict_get caller s.caller_semaphores) _ (put_caller caller) s
      (λ n s'. kept s' (put_caller caller n s') refl refl refl refl refl) (λ n s' g. refl)
semaphore_for-Found q (lane_slot key) s =
    setdefault-Found (lane_get key s.ancestor_reentrant_semaphores) _ (put_lane key) s
      (λ n s'. kept s' (put_lane key n s') refl refl refl refl refl) (λ n s' g. refl)

-- `release_all` adds to each semaphore what the call had of it.
pub release_all-value :
    (ids : List Semaphore) (s : Scheduler) (id : Semaphore)
    → (release_all ids s).value id ≡ s.value id + count id ids
unfolding release_all count
release_all-value [] s id = omega arith
release_all-value (j ∷ ids) s id = ground (
  arith,
  release_all-value ids (set_value j (s.value j + 1) s) id,
  λ (h : same_semaphore id j ≡ true). ap s.value (same_semaphore-equal id j h),
)

pub release_all-Same : (ids : List Semaphore) (s : Scheduler) → Same s (release_all ids s)
unfolding release_all
release_all-Same [] s = unchanged s
release_all-Same (j ∷ ids) s =
    let rest = release_all-Same ids (set_value j (s.value j + 1) s) in
    record {
      limits = rest.limits;
      generation = rest.generation;
      agents = rest.agents;
      route_tags = rest.route_tags;
      callers = rest.callers;
    }
