-- ===== src/Scheduler/Consistency.antt =====
-- orchestration/scheduler.py: the global semaphore and the counts, after any steps of any calls.
use agent_task_platform.Prelude.{
  suc, ◌+◌, ◌≤◌, ◌≡◌, refl, ◌∙◌, ap, false, none, some, List, [], ◌∷◌, arith, string_eq,
}
use agent_task_platform.World.{dict_get}
use agent_task_platform.Scheduler.{
  SchedulerLimits, Semaphore, global, Scheduler, Request, Task, submit,
}
use agent_task_platform.Scheduler.Steps.{
  look_up, take_next, admit, reconfigure, initial, Step, submits, looks_up, takes, admits, finishes,
  gives_up, reconfigures, Reachable, start, then_step,
}
use agent_task_platform.Scheduler.Totals.{total, count}
use agent_task_platform.Scheduler.Capacity.{held, reserved, IsConsistent, moved-IsConsistent}
use agent_task_platform.Scheduler.Moves.{
  look_up-Moves, take_next-Moves, admit-Moves, gives_up-Moves, finish-Moves,
}

-- A new call has no semaphore and is not counted.
record IsNew (t : Task) : Type 0 where
  taken : t.taken ≡ []
  next : t.next ≡ none
  admitted : t.admitted ≡ false

submit-IsNew : (q : Request) (s : Scheduler) (t : Task) → submit q s ≡ some t → IsNew t
unfolding submit
submit-IsNew q s t h = ground (arith, h)

submitted-IsConsistent :
    (t : Task) (s : Scheduler) (ts : List Task)
    → IsNew t
    → IsConsistent s ts
    → IsConsistent s (t ∷ ts)
unfolding total count
submitted-IsConsistent t s ts n h = record {
  balance = ground (arith, n.taken, h.balance);
  future = λ g late. ground (arith, n.taken, n.next, h.future g late);
  agents = λ name. ground (arith, n.admitted, h.agents name);
  route_tags = λ name. ground (arith, n.admitted, h.route_tags name);
  callers = λ name. ground (arith, n.admitted, h.callers name);
}

held-le-reserved : (id : Semaphore) (ts : List Task) → held id ts ≤ reserved id ts
unfolding total count
held-le-reserved id [] = omega arith
held-le-reserved id (t ∷ ts) = ground (arith, held-le-reserved id ts)

-- What `reconfigure` leaves of the scheduler.
record Renewed (limits : SchedulerLimits) (s s' : Scheduler) : Type 0 where
  generation : s'.generation ≡ suc s.generation
  value : s'.value (global (suc s.generation)) ≡ s'.limits.global_max_concurrency
  agents : s'.running_by_agent ≡ s.running_by_agent
  route_tags : s'.running_by_route_tag ≡ s.running_by_route_tag
  callers : s'.running_by_caller ≡ s.running_by_caller

reconfigure-Renewed :
    (limits : SchedulerLimits) (s s' : Scheduler)
    → reconfigure limits s ≡ some s'
    → Renewed limits s s'
unfolding reconfigure
reconfigure-Renewed limits s s' h = ground (arith, h)

reconfigured-IsConsistent :
    (limits : SchedulerLimits) (s s' : Scheduler) (ts : List Task)
    → Renewed limits s s'
    → IsConsistent s ts
    → IsConsistent s' ts
reconfigured-IsConsistent limits s s' ts r h =
    let g = suc s.generation in
    record {
      balance =
          ap (λ n. held (global n) ts + s'.value (global n)) r.generation
          ∙ omega (arith, r.value, h.future g (omega arith), held-le-reserved (global g) ts);
      future = λ j late. h.future j (omega (arith, late, r.generation));
      agents = λ name. ground (arith, r.agents, h.agents name);
      route_tags = λ name. ground (arith, r.route_tags, h.route_tags name);
      callers = λ name. ground (arith, r.callers, h.callers name);
    }

Step-IsConsistent :
    {x y : Scheduler × List Task} → Step x y → IsConsistent x.0 x.1 → IsConsistent y.0 y.1
Step-IsConsistent (submits q t s ts e) h = submitted-IsConsistent t s ts (submit-IsNew q s t e) h
Step-IsConsistent (looks_up t s before after) h =
    moved-IsConsistent t ((look_up t s).0 ∷ []) before after s _ (look_up-Moves t s) h
Step-IsConsistent (takes t s before after) h =
    moved-IsConsistent t ((take_next t s).0 ∷ []) before after s _ (take_next-Moves t s) h
Step-IsConsistent (admits t s before after w n a) h =
    moved-IsConsistent t ((admit t s).0 ∷ []) before after s _ (admit-Moves t s a) h
Step-IsConsistent (finishes t s before after a) h =
    moved-IsConsistent t [] before after s _ (finish-Moves t s a) h
Step-IsConsistent (gives_up t s before after a) h =
    moved-IsConsistent t [] before after s _ (gives_up-Moves t s a) h
Step-IsConsistent (reconfigures limits s s' ts e) h =
    reconfigured-IsConsistent limits s s' ts (reconfigure-Renewed limits s s' e) h

initial-IsConsistent : (limits : SchedulerLimits) → IsConsistent (initial limits) []
unfolding total dict_get
initial-IsConsistent limits = record {
  balance = omega arith;
  future = λ g late. refl;
  agents = λ name. refl;
  route_tags = λ name. refl;
  callers = λ name. refl;
}

history-IsConsistent :
    {limits : SchedulerLimits} {x : Scheduler × List Task}
    → Reachable limits x
    → IsConsistent x.0 x.1
history-IsConsistent {limits} start = initial-IsConsistent limits
history-IsConsistent (then_step x y before step) =
    Step-IsConsistent step (history-IsConsistent before)

-- In whatever order the calls of `run_with_limits` take their steps, with new limits in between: the
-- semaphore for runs without a parent is held exactly as often as its value is below its limit, so no
-- more calls have it than `global_max_concurrency`; no call has, or waits for, one that is still to be
-- made; and the three counts are, for each agent, route tag and caller, how many of the calls
-- under way are admitted.
pub Reachable-IsConsistent :
    (limits : SchedulerLimits) (s : Scheduler) (ts : List Task)
    → Reachable limits (s, ts)
    → IsConsistent s ts
Reachable-IsConsistent limits s ts r = history-IsConsistent r
