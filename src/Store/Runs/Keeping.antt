-- ===== src/Store/Runs/Keeping.antt =====
-- When an update of the run table keeps the status of a run: the lemma behind every claim that a
-- final status, or a cancellation, is not overwritten.
use agent_task_platform.Prelude.{
  String, ◌≡◌, ◌∙◌, ap, true, Option, none, some, [], ◌∷◌, arith, if◌then◌else◌, contains,
  string_eq,
}
use agent_task_platform.Domain.Status.{RunStatus, run_status_eq, run_status_beq_iff}
use agent_task_platform.Domain.Entities.{AgentRun}
use agent_task_platform.Table.{holds}
use agent_task_platform.Store.State.{Store}
use agent_task_platform.Store.Runs.{Expected, is_current, update_if_current, get}
use agent_task_platform.Store.Runs.Update.{stamped, get-update_if_current}

-- The status in the store of the run with this id.
abbrev pub row_status : Option AgentRun → Option RunStatus
row_status none = none
row_status (some r) = some r.status

abbrev pub status_of : String → Store → Option RunStatus
status_of k s = row_status (get k s)

-- An update that would only write the status `st` over the status `st` keeps it, whoever's row it is.
pub status_of-update_if_current :
    (run : AgentRun) (e : Expected) (s : Store) (k : String) (st : RunStatus)
    → (contains e.statuses st ≡ true → run.status ≡ st)
    → status_of k s ≡ some st
    → status_of k (update_if_current run e s).1 ≡ some st
unfolding is_current
status_of-update_if_current run e s k st same h =
    ap row_status (get-update_if_current run e s k) ∙ kept (get k s) h
  where
    kept :
        (o : Option AgentRun)
        → row_status o ≡ some st
        → row_status (if holds (is_current run.run_id e) o then some (stamped run s) else o)
          ≡ some st
    kept none g = cc
    kept (some r) g = ground (arith, same)

pub contains-one : (a b : RunStatus) → contains (a ∷ []) b ≡ true → b ≡ a
unfolding contains
contains-one a b h = ground (arith, run_status_beq_iff b a)
