-- ===== src/World.antt =====
-- What the tasks of one process share: the store, and the dictionaries of orchestration/manager.py
-- (`_cancellation_events`, `_child_runs_by_parent`, `_background_by_run_id`).
pub mod Dicts
use agent_task_platform.Prelude.{
  String, Bool, false, Option, none, some, List, [], ◌∷◌, ◌==◌, string_eq, if◌then◌else◌,
}
use agent_task_platform.Domain.Status.{RunStatus}
use agent_task_platform.Domain.Entities.{AgentRun, Dict}
use agent_task_platform.Store.State.{Store}
use agent_task_platform.Store.Runs
use agent_task_platform.Store.Runs.{Expected, update_if_current}

pub record World : Type 0 where
  pub store : Store
  -- run id, and whether its event is set
  pub cancellation_events : Dict Bool
  pub child_runs_by_parent : Dict (List String)
  -- runs with a background task that is not done
  pub background : List String

pub data Fault : Type 0 where
  key_error task_cancelled runtime_error : Fault

pub data Result {ℓ} (A : Type ℓ) : Type ℓ where
  ok : A → Result A
  err : Fault → Result A

unfoldable pub dict_get {ℓ} : {A : Type ℓ} → String → Dict A → Option A
dict_get k [] = none
dict_get k ((j, a) ∷ d) = if j == k then some a else dict_get k d

unfoldable pub dict_set {ℓ} : {A : Type ℓ} → String → A → Dict A → Dict A
dict_set k a [] = (k, a) ∷ []
dict_set k a ((j, b) ∷ d) = if j == k then (k, a) ∷ d else (j, b) ∷ dict_set k a d

unfoldable pub dict_pop {ℓ} : {A : Type ℓ} → String → Dict A → Dict A
dict_pop k [] = []
dict_pop k ((j, b) ∷ d) = let rest = dict_pop k d in if j == k then rest else (j, b) ∷ rest

abbrev pub run_in : String → World → Option AgentRun
run_in run_id w = Runs.get run_id w.store

-- `_require_run`
abbrev pub require_run : String → World → Result AgentRun
require_run run_id w = elim (run_in run_id w) [ none ↦ err key_error | some r ↦ ok r ]

abbrev pub or_false : Option Bool → Bool
or_false none = false
or_false (some b) = b

abbrev pub cancel_is_set : String → World → Bool
cancel_is_set run_id w = or_false (dict_get run_id w.cancellation_events)

-- `_update_owned`
unfoldable pub update_owned : AgentRun → List RunStatus → Option String → World → Bool × World
update_owned run statuses worker_id w =
    let (updated, s) =
      update_if_current run
        (record { statuses = statuses; worker = some worker_id; lease_expire_time = none })
        w.store in
    (updated, record w { store = s })
