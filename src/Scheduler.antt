-- ===== src/Scheduler.antt =====
-- orchestration/scheduler.py, `RunScheduler`: which semaphores a run takes, in which order, and what is
-- counted while it runs. A semaphore is an object of its own: one that a dict has dropped, or that was
-- the global one before, is still released by the runs that took it.
pub mod Steps
pub mod Totals
pub mod Capacity
pub mod Moves
pub mod Consistency
pub mod Ancestors
use agent_task_platform.Prelude.{
  ℕ, zero, suc, ◌+◌, ◌-◌, String, Bool, true, false, not, ◌&&◌, Option, none, some, List, [], ◌∷◌,
  ◌++◌, ◌==◌, string_eq, pair_eq, if◌then◌else◌, ltb, nat_beq, keep, length, contains, max,
}
use Prim.Native.String.{◌++◌ as str_append}
use agent_task_platform.Domain.Entities.{Dict, or_else, truthy}
use agent_task_platform.World.{dict_get, dict_set, dict_pop}

pub record SchedulerLimits : Type 0 where
  pub global_max_concurrency : ℕ
  pub route_tag_max_concurrency : Dict ℕ
  pub caller_max_concurrency : Dict ℕ
  pub max_nested_depth : ℕ
  pub max_active_children_per_root : ℕ

-- An entry of `_active_run_holders`.
pub record Holder : Type 0 where
  pub agent : String
  pub route_tag : String
  pub caller : String
  pub parent_run_id : Option String
  pub root_run_id : String

-- The objects: the global semaphores, one after the other, and the others.
pub data Semaphore : Type 0 where
  global other : ℕ → Semaphore

abbrev pub same_semaphore : Semaphore → Semaphore → Bool
same_semaphore (global m) (global n) = nat_beq m n
same_semaphore (other m) (other n) = nat_beq m n
same_semaphore a b = false

-- What a run waits for: the global semaphore, or the entry of a dict.
pub data Slot : Type 0 where
  global_slot : Slot
  nested_slot agent_slot route_slot caller_slot : String → Slot
  lane_slot : String × String → Slot

pub record Scheduler : Type 0 where
  pub limits : SchedulerLimits
  pub generation : ℕ
  pub value : Semaphore → ℕ
  pub fresh : ℕ
  pub agent_semaphores : Dict ℕ
  pub task_tag_semaphores : Dict ℕ
  pub caller_semaphores : Dict ℕ
  pub nested_children_semaphores : Dict ℕ
  pub ancestor_reentrant_semaphores : List ((String × String) × ℕ)
  pub running_by_agent : Dict ℕ
  pub running_by_route_tag : Dict ℕ
  pub running_by_caller : Dict ℕ
  pub holders : Dict Holder

-- What the scheduler reads of a run and its agent.
pub record Request : Type 0 where
  pub run_id : String
  pub agent : String
  pub agent_max_concurrency : ℕ
  pub route_tag : String
  pub caller : String
  pub parent_run_id : Option String
  pub root_run_id : Option String
  pub call_depth : ℕ

-- A call of `run_with_limits`: what it still has to wait for, the semaphore that it waits for now, those
-- that it has, and whether the run is registered and executes.
pub record Task : Type 0 where
  pub request : Request
  pub waits : List Slot
  pub next : Option Semaphore
  pub taken : List Semaphore
  pub admitted : Bool

abbrev pub root_of : Request → String
root_of q = or_else (truthy q.root_run_id) q.run_id

abbrev pub is_child : Request → Bool
is_child q = elim (truthy q.parent_run_id) [ none ↦ false | some p ↦ true ]

-- The active ancestors, the nearest first; the loop has a bound of steps.
unfoldable pub ancestors : ℕ → Option String → Dict Holder → List (String × Holder)
ancestors zero parent holders = []
ancestors (suc steps) parent holders = elim (truthy parent) [
  | none ↦ []
  | some p ↦ elim (dict_get p holders) [
    | none ↦ []
    | some h ↦ (p, h) ∷ ancestors steps h.parent_run_id holders
  ]
]

-- `ancestor_…_holders.get(name)`: by `setdefault`, the nearest that has it.
unfoldable pub nearest : (Holder → String) → String → List (String × Holder) → Option String
nearest field name [] = none
nearest field name ((p, h) ∷ rest) = if field h == name then some p else nearest field name rest

abbrev pub lane_or : Option String → String → Slot → Slot
lane_or none tag slot = slot
lane_or (some ancestor) tag slot = lane_slot (ancestor, tag)

abbrev pub is_some : Option String → Bool
is_some none = false
is_some (some a) = true

-- The semaphores that `run_with_limits` enters, in order.
unfoldable pub slots_of : Request → List (String × Holder) → List Slot
slots_of q chain =
    (if is_child q then nested_slot (root_of q) else global_slot)
    ∷ lane_or (nearest (λ h. h.agent) q.agent chain) (str_append "agent:" q.agent)
        (agent_slot q.agent)
    ∷ lane_or (nearest (λ h. h.route_tag) q.route_tag chain) (str_append "route:" q.route_tag)
        (route_slot q.route_tag)
    ∷ (if is_child q && is_some (nearest (λ h. h.caller) q.caller chain)
        then []
        else caller_slot q.caller ∷ [])

-- The call up to its first semaphore; none is the error that the depth limit is exceeded. No chain of
-- ancestors without a circle is longer than the table of the holders.
unfoldable pub submit : Request → Scheduler → Option Task
submit q s =
    if ltb s.limits.max_nested_depth q.call_depth
    then none
    else some (record {
      request = q;
      waits = slots_of q (ancestors (length s.holders) q.parent_run_id s.holders);
      next = none;
      taken = [];
      admitted = false;
    })

abbrev pub set_value : Semaphore → ℕ → Scheduler → Scheduler
set_value id n s = record s { value = λ j. if same_semaphore j id then n else s.value j }

-- `dict.setdefault(key, asyncio.Semaphore(limit))`, and the dict after it.
abbrev pub allocated : ℕ → Scheduler → Scheduler
allocated limit s = record (set_value (other s.fresh) limit s) { fresh = suc s.fresh }

abbrev pub default_of : Option ℕ → ℕ → ℕ
default_of none d = d
default_of (some n) d = n

-- The value that `setdefault` gives, of a dict that answers `found`, in a store of the dict by `put`.
abbrev pub setdefault :
    Option ℕ → ℕ → (ℕ → Scheduler → Scheduler) → Scheduler → Semaphore × Scheduler
setdefault (some n) limit put s = (other n, s)
setdefault none limit put s = (other s.fresh, put s.fresh (allocated limit s))

unfoldable pub lane_get : String × String → List ((String × String) × ℕ) → Option ℕ
lane_get key [] = none
lane_get key ((k, n) ∷ lanes) = if k == key then some n else lane_get key lanes

abbrev pub put_nested : String → ℕ → Scheduler → Scheduler
put_nested root n s = record s {
  nested_children_semaphores = dict_set root n s.nested_children_semaphores;
}

abbrev pub put_agent : String → ℕ → Scheduler → Scheduler
put_agent name n s = record s { agent_semaphores = dict_set name n s.agent_semaphores }

abbrev pub put_route : String → ℕ → Scheduler → Scheduler
put_route tag n s = record s { task_tag_semaphores = dict_set tag n s.task_tag_semaphores }

abbrev pub put_caller : String → ℕ → Scheduler → Scheduler
put_caller caller n s = record s { caller_semaphores = dict_set caller n s.caller_semaphores }

abbrev pub put_lane : String × String → ℕ → Scheduler → Scheduler
put_lane key n s = record s {
  ancestor_reentrant_semaphores = s.ancestor_reentrant_semaphores ++ (key, n) ∷ [];
}

-- `semaphore_for_…`
unfoldable pub semaphore_for : Request → Slot → Scheduler → Semaphore × Scheduler
semaphore_for q global_slot s = (global s.generation, s)
semaphore_for q (nested_slot root) s =
    setdefault (dict_get root s.nested_children_semaphores) s.limits.max_active_children_per_root
      (put_nested root) s
semaphore_for q (agent_slot name) s =
    setdefault (dict_get name s.agent_semaphores) q.agent_max_concurrency (put_agent name) s
semaphore_for q (route_slot tag) s =
    setdefault (dict_get tag s.task_tag_semaphores)
      (default_of (dict_get tag s.limits.route_tag_max_concurrency) 10000) (put_route tag) s
semaphore_for q (caller_slot caller) s =
    setdefault (dict_get caller s.caller_semaphores)
      (default_of (dict_get caller s.limits.caller_max_concurrency) 10000) (put_caller caller) s
semaphore_for q (lane_slot key) s =
    setdefault (lane_get key s.ancestor_reentrant_semaphores) 1 (put_lane key) s

-- The slots of `_run_with_distributed_limits`, with the limit of each, for a backend that has a wider
-- scope than the process.
unfoldable pub distributed_slots :
    Request → SchedulerLimits → Bool → Bool → Bool → List (String × ℕ)
distributed_slots q limits agent_held route_tag_held caller_held =
    (if is_child q
      then (
        str_append "scheduler:nested_children:" (root_of q),
        limits.max_active_children_per_root,
      )
      else ("scheduler:global", limits.global_max_concurrency))
    ∷ (unless agent_held (str_append "scheduler:agent:" q.agent, q.agent_max_concurrency)
        (unless route_tag_held
          (
            str_append "scheduler:route_tag:" q.route_tag,
            default_of (dict_get q.route_tag limits.route_tag_max_concurrency) 10000,
          )
          (unless caller_held
            (
              str_append "scheduler:caller:" q.caller,
              default_of (dict_get q.caller limits.caller_max_concurrency) 10000,
            )
            [])))
  where
    unless : Bool → String × ℕ → List (String × ℕ) → List (String × ℕ)
    unless held slot slots = if held then slots else slot ∷ slots
