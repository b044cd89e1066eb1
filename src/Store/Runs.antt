-- ===== src/Store/Runs.antt =====
-- infra/store/repository/run.py, `RunRepository`: the run table, which is also the queue.
pub mod Update
pub mod Claim
pub mod Fencing
pub mod Keeping
use agent_task_platform.Prelude.{
  ℕ, ◌+◌, ◌-◌, String, Bool, true, false, not, ◌&&◌, ◌||◌, Option, none, some, List, [], ◌∷◌, ◌++◌,
  map, leb, ltb, ◌==◌, string_eq, nat_eq, option_eq, contains, if◌then◌else◌, keep, take, nat_beq,
}
use agent_task_platform.Prelude.Int.{ltbℤ}
use agent_task_platform.Domain.Status.{RunStatus, run_status_eq}
use agent_task_platform.Domain.Lifecycle.{is_queued, is_executing}
use agent_task_platform.Domain.Entities.{AgentRun, or_now}
use agent_task_platform.Table.{find, merge, update_where, rowcount}
use agent_task_platform.Table.Sort.{order_by}
use agent_task_platform.Store.State.{Store, run_key}

unfoldable pub create : AgentRun → Store → Store
create run s = record s { runs = s.runs ++ run ∷ [] }

abbrev pub get : String → Store → Option AgentRun
get run_id s = find run_key run_id s.runs

unfoldable pub find_request : String → String → String → List AgentRun → Option AgentRun
find_request caller route_tag request_id [] = none
find_request caller route_tag request_id (r ∷ rows) =
    if r.caller == caller && (r.route_tag == route_tag && r.request_id == request_id)
    then some r
    else find_request caller route_tag request_id rows

abbrev pub get_by_request_id : String → String → String → Store → Option AgentRun
get_by_request_id caller route_tag request_id s = find_request caller route_tag request_id s.runs

unfoldable pub update : AgentRun → Store → Store
update run s = record s { runs = merge run_key (record run { update_time = s.clock }) s.runs }

-- The keyword arguments of `update_if_current`: a test that is not asked for is `none`.
pub record Expected : Type 0 where
  pub statuses : List RunStatus
  pub worker : Option (Option String)
  pub lease_expire_time : Option (Option ℕ)

abbrev pub worker_matches : Option (Option String) → Option String → Bool
worker_matches none w = true
worker_matches (some expected) w = w == expected

abbrev pub lease_matches : Option (Option ℕ) → Option ℕ → Bool
lease_matches none l = true
lease_matches (some expected) l = l == expected

-- The conditions of the `WHERE` clause.
unfoldable pub is_current : String → Expected → AgentRun → Bool
is_current run_id e row =
    row.run_id == run_id
    && (contains e.statuses row.status
        && (worker_matches e.worker row.worker
            && lease_matches e.lease_expire_time row.lease_expire_time))

unfoldable pub update_if_current : AgentRun → Expected → Store → Bool × Store
update_if_current run e s = (
  nat_beq (rowcount (is_current run.run_id e) s.runs) 1,
  record s {
    runs =
        update_where (is_current run.run_id e) (λ _. record run { update_time = s.clock }) s.runs;
  },
)

abbrev pub at_or_before : Option ℕ → ℕ → Bool
at_or_before none now = false
at_or_before (some t) now = leb t now

abbrev pub unset_or_before : Option ℕ → ℕ → Bool
unset_or_before none now = true
unset_or_before (some t) now = leb t now

-- Queued and due, or executing under a lease that has run out.
abbrev pub is_ready : ℕ → AgentRun → Bool
is_ready now r =
    (is_queued r.status && unset_or_before r.run_after now)
    || (is_executing r.status && at_or_before r.lease_expire_time now)

-- `ORDER BY run_after ASC` puts an unset value last.
abbrev pub run_after_lt : Option ℕ → Option ℕ → Bool
run_after_lt none b = false
run_after_lt (some a) none = true
run_after_lt (some a) (some b) = ltb a b

-- `priority DESC, run_after ASC, create_time ASC`
unfoldable pub queue_le : AgentRun → AgentRun → Bool
queue_le a b =
    if ltbℤ b.priority a.priority
    then true
    else if ltbℤ a.priority b.priority
    then false
    else if run_after_lt a.run_after b.run_after
    then true
    else if run_after_lt b.run_after a.run_after
    then false
    else leb a.create_time b.create_time

-- What `claim_ready` writes into a row that it selects.
unfoldable pub claim : String → ℕ → ℕ → AgentRun → AgentRun
claim worker_id lease_seconds now r = record r {
  status = RunStatus.running;
  attempts = if is_executing r.status then r.attempts - 1 else r.attempts;
  worker = some worker_id;
  lease_expire_time = some (now + lease_seconds);
  start_time = or_now r.start_time now;
  update_time = now;
}

-- The `WHERE` clause. `locked` are the rows that another transaction holds, which `skip_locked`
-- passes over.
abbrev pub is_selected : List String → List String → ℕ → AgentRun → Bool
is_selected locked excluded now r =
    is_ready now r && (not (contains excluded r.run_id) && not (contains locked r.run_id))

unfoldable pub select_ready : List String → List String → ℕ → ℕ → List AgentRun → List AgentRun
select_ready locked excluded now limit rows =
    take limit (order_by queue_le (keep (is_selected locked excluded now) rows))

abbrev pub ids : List AgentRun → List String
ids = map run_key

unfoldable pub claim_ready :
    List String → String → ℕ → ℕ → List String → Store → List AgentRun × Store
claim_ready locked worker_id lease_seconds limit excluded s =
    let chosen = select_ready locked excluded s.clock limit s.runs in
    (
      map (claim worker_id lease_seconds s.clock) chosen,
      record s {
        runs =
            update_where (λ r. contains (ids chosen) r.run_id)
              (claim worker_id lease_seconds s.clock) s.runs;
      },
    )

abbrev pub owned_execution : String → String → AgentRun → Bool
owned_execution run_id worker_id r =
    r.run_id == run_id && (r.worker == some worker_id && is_executing r.status)

unfoldable pub renew_lease : String → String → ℕ → Store → Bool × Store
renew_lease run_id worker_id lease_seconds s = (
  nat_beq (rowcount (owned_execution run_id worker_id) s.runs) 1,
  record s {
    runs =
        update_where (owned_execution run_id worker_id)
          (λ r. record r {
            lease_expire_time = some (s.clock + lease_seconds);
            update_time = s.clock;
          })
          s.runs;
  },
)

abbrev pub created_le : AgentRun → AgentRun → Bool
created_le a b = leb a.create_time b.create_time

unfoldable pub list_by_status : List RunStatus → ℕ → Store → List AgentRun
list_by_status statuses limit s =
    take limit (order_by created_le (keep (λ r. contains statuses r.status) s.runs))
