-- ===== src/Manager/Requests/Resubmission.antt =====
-- orchestration/manager.py, `RunManager.submit`: a submission that is sent again.
use agent_task_platform.Prelude.{
  String, ◌≡◌, refl, sym, ap, ◌∙◌, Bool, true, false, ◌&&◌, none, some, [], inl, inr, Bool-cases,
  Option-cases, contains, string_eq,
}
use agent_task_platform.Domain.Entities.{AgentRun, or_else}
use agent_task_platform.Store.State.{Store}
use agent_task_platform.Store.Runs.{get_by_request_id, find_request}
use agent_task_platform.World.{World, dict_get}
use agent_task_platform.Submission.{RunSubmission, FreshIds, Routing}
use agent_task_platform.Submission
use agent_task_platform.Submission.Idempotence.{SameRequest, submit_is_idempotent, submit-replay}
use agent_task_platform.Manager.{with_store, start_background, is_running}
use agent_task_platform.Manager.Requests.{
  Parent, parent, submit, started_if, add_child, parent_of, is_hashable, is_queued,
}

add_child-same :
    (key : Parent) (child : String) (w : World)
    → ((add_child key child w).store ≡ w.store)
      × ((add_child key child w).background ≡ w.background)
add_child-same (parent p) child w =
    elim (Bool-cases (contains (or_else (dict_get p w.child_runs_by_parent) []) child)) [
      | inl e ↦ rw (e) (refl, refl)
      | inr e ↦ rw (e) (refl, refl)
    ]
add_child-same _ child w = (refl, refl)

started_if-runs :
    (start : Bool) (run_id : String) (w : World)
    → (started_if start run_id w).store.runs ≡ w.store.runs
unfolding start_background
started_if-runs false run_id w = refl
started_if-runs true run_id w = elim (Bool-cases (is_running run_id w)) [
  | inl e ↦ rw (started_if, start_background, e) refl
  | inr e ↦ rw (started_if, start_background, e) refl
]

-- The answered run is the one stored under the request, and its parent can be a key.
submit-stored :
    (route : AgentRun → Routing) (other : Store → Store) (ids : FreshIds) (start : Bool)
    (sub : RunSubmission) (w : World) (run : AgentRun)
    → (submit route other ids start sub w).0 ≡ some run
    → (get_by_request_id sub.caller sub.route_tag sub.request_id
          (submit route other ids start sub w).1.store
        ≡ some run)
      × (is_hashable (parent_of run) ≡ true)
unfolding submit
submit-stored route other ids start sub w run answered =
    elim (Option-cases (Submission.submit route other ids sub w.store).0) [
      | inl e ↦
          let refused : (submit route other ids start sub w).0 ≡ none = rw (submit, e) refl in cc
      | inr ((r, new), e) ↦ elim (Bool-cases (is_hashable (parent_of r))) [
        | inr g ↦
            let raised : (submit route other ids start sub w).0 ≡ none = rw (submit, e, g) refl in
            cc
        | inl g ↦
            let answer : (submit route other ids start sub w).0 ≡ some r = rw (submit, e, g) refl in
            let same : some r ≡ some run = sym answer ∙ answered in
            let stored =
              submit_is_idempotent route route other other ids ids sub sub w.store r new
                (refl, refl, refl) e in
            let v = with_store (Submission.submit route other ids sub w.store).1 w in
            let runs : (submit route other ids start sub w).1.store.runs
                ≡ (Submission.submit route other ids sub w.store).1.runs =
              rw (submit, e, g)
                (started_if-runs (new && (is_queued r.status && start)) r.run_id
                    (add_child (parent_of r) r.run_id v)
                  ∙ ap (λ (s : Store). s.runs) (add_child-same (parent_of r) r.run_id v).0) in
            let one : r ≡ run = cc same in
            (
              ap (λ rows. find_request sub.caller sub.route_tag sub.request_id rows) runs
                  ∙ stored.0
                  ∙ same,
              ap (λ a. is_hashable (parent_of a)) (sym one) ∙ g,
            )
      ]
    ]

submit-repeated :
    (route : AgentRun → Routing) (other : Store → Store) (ids : FreshIds) (start : Bool)
    (sub : RunSubmission) (w : World) (run : AgentRun)
    → get_by_request_id sub.caller sub.route_tag sub.request_id w.store ≡ some run
    → is_hashable (parent_of run) ≡ true
    → ((submit route other ids start sub w).0 ≡ some run)
      × ((submit route other ids start sub w).1.store.runs ≡ w.store.runs)
      × ((submit route other ids start sub w).1.background ≡ w.background)
unfolding submit
submit-repeated route other ids start sub w run stored keyed =
    let (answer, runs) = submit-replay route other ids sub w.store run stored in
    let v = with_store (Submission.submit route other ids sub w.store).1 w in
    let (store, background) = add_child-same (parent_of run) run.run_id v in
    rw (submit, answer, keyed) (refl, ap (λ (s : Store). s.runs) store ∙ runs, background)

-- A submission that was answered with a run and is sent again to the manager, whatever else it says then
-- and wherever its route leads, is answered with the same run, changes no run and starts no task.
pub resubmission_starts_nothing :
    (route route' : AgentRun → Routing) (other other' : Store → Store) (ids ids' : FreshIds)
    (start start' : Bool) (sub sub' : RunSubmission) (w : World) (run : AgentRun)
    → SameRequest sub' sub
    → (submit route other ids start sub w).0 ≡ some run
    → let after = (submit route other ids start sub w).1 in
      let again = submit route' other' ids' start' sub' after in
      (again.0 ≡ some run)
      × (again.1.store.runs ≡ after.store.runs)
      × (again.1.background ≡ after.background)
resubmission_starts_nothing route route' other other' ids ids' start start' sub sub' w run same
      answered =
    let (stored, keyed) = submit-stored route other ids start sub w run answered in
    submit-repeated route' other' ids' start' sub' (submit route other ids start sub w).1 run
      (cc (stored, same.0, same.1, same.2)) keyed
