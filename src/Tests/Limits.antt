-- ===== src/Tests/Limits.antt =====
-- The claims on the slots of the coordination and on the scheduler, at a few bodies and calls.
use agent_task_platform.Prelude.{
  ℕ, suc, zero, false, ◌≤◌, String, ◌≡◌, refl, none, some, List, [], ◌∷◌, string_eq,
}
use Prim.Native.String.{◌++◌ as str_append}
use agent_task_platform.World.{dict_get}
use agent_task_platform.Coordination.{Backend, LocalState, local_backend}
use agent_task_platform.Coordination.Limits.{
  SlotEvent, asks, ask, history, in_use, limited_slots_bounded, local_backend-IsMutex,
  initial as empty,
}
use agent_task_platform.Scheduler.{
  Scheduler, SchedulerLimits, Request, Task, submit, slots_of, ancestors,
}
use agent_task_platform.Scheduler.Steps.{
  look_up, take_next, initial, submits, looks_up, takes, Reachable, start, then_step,
}
use agent_task_platform.Scheduler.Capacity.{IsConsistent}
use agent_task_platform.Scheduler.Consistency.{Reachable-IsConsistent}

-- A number in unary.
unary : ℕ → String
unary zero = ""
unary (suc n) = str_append "I" (unary n)

abbrev events : List SlotEvent
events = asks "mail" 1 ∷ asks "mail" 2 ∷ []

abbrev backend : Backend LocalState
backend = local_backend (λ n s. s)

limited_slots_bounded_example :
    let (s, inside) = history unary backend empty events in
    (in_use unary "mail" 0 2 inside ≤ 2)
    × ((ask unary backend empty "mail" 2 s).0 ≡ none → in_use unary "mail" 0 2 inside ≡ 2)
limited_slots_bounded_example =
    limited_slots_bounded backend empty (local_backend-IsMutex (λ n s. s)) unary events "mail" 2

abbrev limits : SchedulerLimits
limits = record {
  global_max_concurrency = 2;
  route_tag_max_concurrency = [];
  caller_max_concurrency = [];
  max_nested_depth = 3;
  max_active_children_per_root = 5;
}

abbrev request : Request
request = record {
  run_id = "run";
  agent = "writer";
  agent_max_concurrency = 1;
  route_tag = "report";
  caller = "desk";
  parent_run_id = none;
  root_run_id = none;
  call_depth = 0;
}

abbrev submitted : Task
submitted = record {
  request = request;
  waits = slots_of request [];
  next = none;
  taken = [];
  admitted = false;
}

is_submitted : submit request (initial limits) ≡ some submitted
unfolding submit slots_of dict_get ancestors
is_submitted = refl

-- The call has looked up the global semaphore, and has taken it.
abbrev waiting : Task × Scheduler
waiting = look_up submitted (initial limits)

abbrev holding : Task × Scheduler
holding = take_next waiting.0 waiting.1

holding-Reachable : Reachable limits (holding.1, holding.0 ∷ [])
holding-Reachable =
    then_step (waiting.1, waiting.0 ∷ []) _
      (then_step (initial limits, submitted ∷ []) _
        (then_step (initial limits, []) _ start
          (submits request submitted (initial limits) [] is_submitted))
        (looks_up submitted (initial limits) [] []))
      (takes waiting.0 waiting.1 [] [])

Reachable-IsConsistent_example : IsConsistent holding.1 (holding.0 ∷ [])
Reachable-IsConsistent_example =
    Reachable-IsConsistent limits holding.1 (holding.0 ∷ []) holding-Reachable
