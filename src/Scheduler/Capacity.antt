-- ===== src/Scheduler/Capacity.antt =====
-- orchestration/scheduler.py: the global semaphore and the counts of running runs, over all steps.
use agent_task_platform.Prelude.{
  ℕ, ◌+◌, ◌<◌, ◌≤◌, String, ◌≡◌, sym, ◌∙◌, ap, subst, ◌&&◌, none, some, List, ◌∷◌, ◌++◌, ◌==◌,
  string_eq, arith, if◌then◌else◌,
}
use agent_task_platform.Domain.Entities.{Dict}
use agent_task_platform.Scheduler.{SchedulerLimits, Semaphore, global, Scheduler, Request, Task}
use agent_task_platform.Scheduler.Steps.{count_of}
use agent_task_platform.Scheduler.Totals.{total, total-append, count}

-- The runs that have a semaphore, and the running ones of a name, by their agent or another field.
abbrev pub held : Semaphore → List Task → ℕ
held id ts = total (λ t. count id t.taken) ts

-- The semaphores of a call, with the one that it waits for.
abbrev pub known : Task → List Semaphore
known t = elim t.next [ none ↦ t.taken | some id ↦ id ∷ t.taken ]

abbrev pub reserved : Semaphore → List Task → ℕ
reserved id ts = total (λ t. count id (known t)) ts

abbrev pub weight : (Request → String) → String → Task → ℕ
weight field name t = if t.admitted && field t.request == name then 1 else 0

abbrev pub running : (Request → String) → String → List Task → ℕ
running field name ts = total (weight field name) ts

pub record IsConsistent (s : Scheduler) (ts : List Task) : Type 0 where
  pub balance :
      held (global s.generation) ts + s.value (global s.generation)
      ≡ s.limits.global_max_concurrency
  pub future : (g : ℕ) → s.generation < g → reserved (global g) ts ≡ 0
  pub agents : (name : String) → count_of name s.running_by_agent ≡ running (λ q. q.agent) name ts
  pub route_tags :
      (name : String) → count_of name s.running_by_route_tag ≡ running (λ q. q.route_tag) name ts
  pub callers :
      (name : String) → count_of name s.running_by_caller ≡ running (λ q. q.caller) name ts

-- A count that has moved with the weight of a call, which becomes `rest`.
abbrev pub Counted : (Request → String) → Task → List Task → Dict ℕ → Dict ℕ → Type 0
Counted field t rest counts counts' =
    (name : String)
    → weight field name t ≤ count_of name counts
    → count_of name counts' + weight field name t ≡ count_of name counts + running field name rest

-- What a step of one call does, which becomes `rest`: itself later, or nothing.
pub record Moves (t : Task) (rest : List Task) (s s' : Scheduler) : Type 0 where
  pub limits : s'.limits ≡ s.limits
  pub generation : s'.generation ≡ s.generation
  pub balance :
      held (global s.generation) rest + s'.value (global s.generation)
      ≡ count (global s.generation) t.taken + s.value (global s.generation)
  pub future : (g : ℕ) → s.generation < g → reserved (global g) rest ≤ count (global g) (known t)
  pub agents : Counted (λ q. q.agent) t rest s.running_by_agent s'.running_by_agent
  pub route_tags : Counted (λ q. q.route_tag) t rest s.running_by_route_tag s'.running_by_route_tag
  pub callers : Counted (λ q. q.caller) t rest s.running_by_caller s'.running_by_caller

moved-counts :
    (field : Request → String) (t : Task) (rest before after : List Task) (counts counts' : Dict ℕ)
    → Counted field t rest counts counts'
    → ((name : String) → count_of name counts ≡ running field name (before ++ t ∷ after))
    → (name : String) → count_of name counts' ≡ running field name (before ++ (rest ++ after))
unfolding total
moved-counts field t rest before after counts counts' moved h name =
    let whole = total-append (weight field name) before (t ∷ after) in
    omega (
      arith,
      h name,
      whole,
      moved name (omega (arith, h name, whole)),
      total-append (weight field name) before (rest ++ after),
      total-append (weight field name) rest after,
    )

pub moved-IsConsistent :
    (t : Task) (rest before after : List Task) (s s' : Scheduler)
    → Moves t rest s s'
    → IsConsistent s (before ++ t ∷ after)
    → IsConsistent s' (before ++ (rest ++ after))
unfolding total
moved-IsConsistent t rest before after s s' m h =
    let taken_of = λ (id : Semaphore) (u : Task). count id u.taken in
    let known_of = λ (id : Semaphore) (u : Task). count id (known u) in
    let id = global s.generation in
    record {
      balance =
          subst
            (λ g.
              held (global g) (before ++ (rest ++ after)) + s'.value (global g)
              ≡ s'.limits.global_max_concurrency)
            (sym m.generation)
            (omega (
              arith,
              h.balance,
              total-append (taken_of id) before (t ∷ after),
              total-append (taken_of id) before (rest ++ after),
              total-append (taken_of id) rest after,
              m.balance,
            )
              ∙ ap (λ (l : SchedulerLimits). l.global_max_concurrency) (sym m.limits));
      future = λ g late.
          let g_late : s.generation < g = subst (λ n. n < g) m.generation late in
          omega (
            arith,
            h.future g g_late,
            total-append (known_of (global g)) before (t ∷ after),
            total-append (known_of (global g)) before (rest ++ after),
            total-append (known_of (global g)) rest after,
            m.future g g_late,
          );
      agents = moved-counts _ t rest before after _ _ m.agents h.agents;
      route_tags = moved-counts _ t rest before after _ _ m.route_tags h.route_tags;
      callers = moved-counts _ t rest before after _ _ m.callers h.callers;
    }
