-- ===== src/Submission/Idempotence.antt =====
-- A request is submitted once: what is answered is what is stored under its key.
use agent_task_platform.Prelude.{
  ℕ, zero, suc, String, ◌≡◌, refl, Bool, false, Option, none, some, List, [], ◌∷◌, ◌++◌, arith,
  string_eq, eq_iff, inl, inr, Option-cases,
}
use agent_task_platform.Domain.Entities.{AgentRun, Conversation}
use agent_task_platform.Store.State.{Store}
use agent_task_platform.Store.Runs.{create, get_by_request_id, find_request}
use agent_task_platform.Submission.{
  RunSubmission, FreshIds, Routing, new_run, placed, insert_run, insert_conversation, commit,
  transact, submit, in_conversation, known_conversation, new_conversation,
}

-- The row that an insert adds is found under its request.
find_request-append :
    (run : AgentRun) (rows : List AgentRun)
    → find_request run.caller run.route_tag run.request_id rows ≡ none
    → find_request run.caller run.route_tag run.request_id (rows ++ run ∷ []) ≡ some run
unfolding find_request
find_request-append run [] h = ground (
  arith,
  eq_iff run.caller run.caller,
  eq_iff run.route_tag run.route_tag,
  eq_iff run.request_id run.request_id,
)
find_request-append run (r ∷ rows) h = ground (arith, h, find_request-append run rows)

insert_run-stores :
    (run : AgentRun) (s s' : Store)
    → insert_run run s ≡ some s'
    → get_by_request_id run.caller run.route_tag run.request_id s' ≡ some run
unfolding insert_run create
insert_run-stores run s s' h = ground (arith, h, find_request-append run s.runs)

-- The key of a run that is placed is that of the submission.
abbrev IsFor : RunSubmission → AgentRun → Type 0
IsFor sub run =
    (run.caller ≡ sub.caller) × (run.route_tag ≡ sub.route_tag) × (run.request_id ≡ sub.request_id)

placed-IsFor :
    (route : Routing) (sub : RunSubmission) (ids : FreshIds) (now : ℕ)
    → IsFor sub (placed route now (new_run sub ids now))
unfolding placed new_run
placed-IsFor (Routing.routed agent snapshots) sub ids now = (refl, refl, refl)
placed-IsFor (Routing.refused message) sub ids now = (refl, refl, refl)

abbrev pub Stored : RunSubmission → Option (AgentRun × Bool) × Store → Type 0
Stored sub (none, s) = Unit {0}
Stored sub (some (run, new), s) =
    get_by_request_id sub.caller sub.route_tag sub.request_id s ≡ some run

insert_run-IsFor :
    (sub : RunSubmission) (run : AgentRun) (id : String) (s s' : Store)
    → IsFor sub run
    → insert_run (in_conversation id run) s ≡ some s'
    → get_by_request_id sub.caller sub.route_tag sub.request_id s' ≡ some (in_conversation id run)
insert_run-IsFor sub run id s s' key h =
    cc (insert_run-stores (in_conversation id run) s s' h, key.0, key.1, key.2)

commit-stores :
    (sub : RunSubmission) (ids : FreshIds) (run : AgentRun) (known : Option Conversation)
    (s : Store) (run' : AgentRun) (s' : Store)
    → IsFor sub run
    → commit sub ids run known s ≡ some (run', s')
    → get_by_request_id sub.caller sub.route_tag sub.request_id s' ≡ some run'
unfolding commit
commit-stores sub ids run (some c) s run' s' key h =
    ground (arith, h, insert_run-IsFor sub run c.conversation_id s s' key)
commit-stores sub ids run none s run' s' key h =
    elim (Option-cases (insert_conversation (new_conversation sub ids s.clock) s)) [
      | inl e ↦ ground (arith, h, e)
      | inr (s1, e) ↦ ground (arith, h, e, insert_run-IsFor sub run ids.conversation_id s1 s' key)
    ]

module _ (other : Store → Store) (sub : RunSubmission) (ids : FreshIds) where
  transact-Stored :
      (tries : ℕ) (run : AgentRun) (s : Store)
      → IsFor sub run
      → Stored sub (transact tries other sub ids run s)
  unfolding transact
  transact-Stored zero run s key = tt
  transact-Stored (suc tries) run s key =
      elim (Option-cases (commit sub ids run (known_conversation sub s) (other s))) [
        | inr ((run', s2), e) ↦
            rw (e, transact)
              (commit-stores sub ids run (known_conversation sub s) (other s) run' s2 key e)
        | inl e ↦
            elim (Option-cases
              (get_by_request_id sub.caller sub.route_tag sub.request_id (other s))) [
                | inr (r, g) ↦ rw (e, transact) (ground (arith, g))
                | inl g ↦
                    rw (e, transact) (ground (arith, g, transact-Stored tries run (other s) key))
              ]
      ]

  submit-Stored :
      (route : AgentRun → Routing) (s : Store) → Stored sub (submit route other ids sub s)
  unfolding submit
  submit-Stored route s =
      elim (Option-cases (get_by_request_id sub.caller sub.route_tag sub.request_id s)) [
        | inr (r, e) ↦ rw (e, submit) e
        | inl e ↦ rw (e, submit) (transact-Stored 2 _ s (placed-IsFor _ sub ids s.clock))
      ]

Stored-answer :
    (sub : RunSubmission) (p : Option (AgentRun × Bool) × Store) (run : AgentRun) (new : Bool)
    → Stored sub p
    → p.0 ≡ some (run, new)
    → get_by_request_id sub.caller sub.route_tag sub.request_id p.1 ≡ some run
Stored-answer sub (none, s) run new h e = cc
Stored-answer sub (some (r, n), s) run new h e = cc

pub submit-replay :
    (route : AgentRun → Routing) (other : Store → Store) (ids : FreshIds) (sub : RunSubmission)
    (s : Store) (run : AgentRun)
    → get_by_request_id sub.caller sub.route_tag sub.request_id s ≡ some run
    → ((submit route other ids sub s).0 ≡ some (run, false))
      × ((submit route other ids sub s).1.runs ≡ s.runs)
unfolding submit
submit-replay route other ids sub s run e = rw (e, submit) (refl, refl)

abbrev pub SameRequest : RunSubmission → RunSubmission → Type 0
SameRequest a b =
    (a.caller ≡ b.caller) × (a.route_tag ≡ b.route_tag) × (a.request_id ≡ b.request_id)

-- Whatever a submission answers, by a replay, by an insert or after a conflict with a concurrent
-- submission, is the run that is stored under its request then; and a second submission of the same
-- request, whatever else it says, is answered with that run, as not new, and changes no run.
pub submit_is_idempotent :
    (route route' : AgentRun → Routing) (other other' : Store → Store) (ids ids' : FreshIds)
    (sub sub' : RunSubmission) (s : Store) (run : AgentRun) (new : Bool)
    → SameRequest sub' sub
    → (submit route other ids sub s).0 ≡ some (run, new)
    → let after = (submit route other ids sub s).1 in
      let again = submit route' other' ids' sub' after in
      (get_by_request_id sub.caller sub.route_tag sub.request_id after ≡ some run)
      × (again.0 ≡ some (run, false))
      × (again.1.runs ≡ after.runs)
submit_is_idempotent route route' other other' ids ids' sub sub' s run new same h =
    let stored = Stored-answer sub _ run new (submit-Stored other sub ids route s) h in
    let replay =
      submit-replay route' other' ids' sub' (submit route other ids sub s).1 run
        (cc (stored, same.0, same.1, same.2)) in
    (stored, replay.0, replay.1)
