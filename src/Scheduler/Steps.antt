-- ===== src/Scheduler/Steps.antt =====
-- orchestration/scheduler.py: the steps of the calls of `run_with_limits`, in any order.
use agent_task_platform.Prelude.{
  ℕ, suc, ◌+◌, ◌-◌, String, ◌≡◌, true, false, not, ◌&&◌, Option, none, some, List, [], ◌∷◌, ◌++◌,
  ◌==◌, string_eq, if◌then◌else◌, nat_beq, keep,
}
use agent_task_platform.Domain.Entities.{Dict, or_else}
use agent_task_platform.World.{dict_get, dict_set, dict_pop}
use agent_task_platform.Scheduler.{
  SchedulerLimits, Semaphore, global, Scheduler, Request, Task, root_of, is_child, submit,
  set_value, semaphore_for,
}

-- A call looks up the next semaphore that it needs. It waits for this object then, also if the
-- scheduler is given another meanwhile.
unfoldable pub look_up : Task → Scheduler → Task × Scheduler
look_up t s = elim t.next [
  | some id ↦ (t, s)
  | none ↦ elim t.waits [
    | [] ↦ (t, s)
    | slot ∷ rest ↦
        let (id, s1) = semaphore_for t.request slot s in
        (record t { waits = rest; next = some id }, s1)
  ]
]

-- It takes the semaphore that it waits for, unless that is at 0.
unfoldable pub take_next : Task → Scheduler → Task × Scheduler
take_next t s = elim t.next [
  | none ↦ (t, s)
  | some id ↦
      if nat_beq (s.value id) 0
      then (t, s)
      else (record t { next = none; taken = id ∷ t.taken }, set_value id (s.value id - 1) s)
]

abbrev pub count_of : String → Dict ℕ → ℕ
count_of name counts = or_else (dict_get name counts) 0

abbrev pub add_one : String → Dict ℕ → Dict ℕ
add_one name counts = dict_set name (count_of name counts + 1) counts

abbrev pub less_one : String → Dict ℕ → Dict ℕ
less_one name counts = dict_set name (count_of name counts - 1) counts

-- All semaphores are taken: the run is registered, and `_run_admitted` counts it.
unfoldable pub admit : Task → Scheduler → Task × Scheduler
admit t s =
    let q = t.request in
    (
      record t { admitted = true },
      record s {
        holders =
            dict_set q.run_id
              (record {
                agent = q.agent;
                route_tag = q.route_tag;
                caller = q.caller;
                parent_run_id = q.parent_run_id;
                root_run_id = root_of q;
              })
              s.holders;
        running_by_agent = add_one q.agent s.running_by_agent;
        running_by_route_tag = add_one q.route_tag s.running_by_route_tag;
        running_by_caller = add_one q.caller s.running_by_caller;
      },
    )

-- The lanes of an ancestor are removed.
abbrev pub without_lanes : String → Scheduler → Scheduler
without_lanes run_id s = record s {
  ancestor_reentrant_semaphores =
      keep (λ (e : (String × String) × ℕ). not (e.0.0 == run_id)) s.ancestor_reentrant_semaphores;
}

unfoldable pub release_all : List Semaphore → Scheduler → Scheduler
release_all [] s = s
release_all (id ∷ ids) s = release_all ids (set_value id (s.value id + 1) s)

-- The `finally` of `_run_admitted`.
abbrev pub uncount : Request → Scheduler → Scheduler
uncount q s =
    let s1 = record s {
      running_by_agent = less_one q.agent s.running_by_agent;
      running_by_route_tag = less_one q.route_tag s.running_by_route_tag;
      running_by_caller = less_one q.caller s.running_by_caller;
    } in
    if not (is_child q) && not (root_of q == "")
    then without_lanes (root_of q) (record s1 {
      nested_children_semaphores = dict_pop (root_of q) s1.nested_children_semaphores;
    })
    else s1

-- The run has ended: it is no longer counted nor registered, and its semaphores are released.
unfoldable pub finish : Task → Scheduler → Scheduler
finish t s =
    let s1 = uncount t.request s in
    release_all t.taken (
      without_lanes t.request.run_id (record s1 { holders = dict_pop t.request.run_id s1.holders }))

-- `reconfigure`, from the settings as limits; none is an exception.
unfoldable pub reconfigure : SchedulerLimits → Scheduler → Option Scheduler
reconfigure limits s = if nat_beq limits.global_max_concurrency 0 then none else elim s.holders [
  | h ∷ rest ↦ none
  | [] ↦ some (record (set_value (global (suc s.generation)) limits.global_max_concurrency s) {
    limits = limits;
    generation = suc s.generation;
    task_tag_semaphores = [];
    caller_semaphores = [];
    nested_children_semaphores = [];
    ancestor_reentrant_semaphores = [];
  })
]

-- `__init__`
abbrev pub initial : SchedulerLimits → Scheduler
initial limits = record {
  limits = limits;
  generation = 0;
  value = λ id. limits.global_max_concurrency;
  fresh = 0;
  agent_semaphores = [];
  task_tag_semaphores = [];
  caller_semaphores = [];
  nested_children_semaphores = [];
  ancestor_reentrant_semaphores = [];
  running_by_agent = [];
  running_by_route_tag = [];
  running_by_caller = [];
  holders = [];
}

-- The scheduler and the calls that are under way, which take their steps in any order; a call may be
-- given up while it waits.
pub data Step : Scheduler × List Task → Scheduler × List Task → Type 0 where
  submits :
      (q : Request) (t : Task) (s : Scheduler) (ts : List Task)
      → submit q s ≡ some t
      → Step (s, ts) (s, t ∷ ts)
  looks_up :
      (t : Task) (s : Scheduler) (before after : List Task)
      → Step (s, before ++ t ∷ after) ((look_up t s).1, before ++ (look_up t s).0 ∷ after)
  takes :
      (t : Task) (s : Scheduler) (before after : List Task)
      → Step (s, before ++ t ∷ after) ((take_next t s).1, before ++ (take_next t s).0 ∷ after)
  admits :
      (t : Task) (s : Scheduler) (before after : List Task)
      → t.waits ≡ []
      → t.next ≡ none
      → t.admitted ≡ false
      → Step (s, before ++ t ∷ after) ((admit t s).1, before ++ (admit t s).0 ∷ after)
  finishes :
      (t : Task) (s : Scheduler) (before after : List Task)
      → t.admitted ≡ true
      → Step (s, before ++ t ∷ after) (finish t s, before ++ after)
  gives_up :
      (t : Task) (s : Scheduler) (before after : List Task)
      → t.admitted ≡ false
      → Step (s, before ++ t ∷ after) (release_all t.taken s, before ++ after)
  reconfigures :
      (limits : SchedulerLimits) (s s' : Scheduler) (ts : List Task)
      → reconfigure limits s ≡ some s'
      → Step (s, ts) (s', ts)

-- What any steps lead to from the beginning.
pub data Reachable (limits : SchedulerLimits) : Scheduler × List Task → Type 0 where
  start : Reachable limits (initial limits, [])
  then_step : (x y : Scheduler × List Task) → Reachable limits x → Step x y → Reachable limits y
