-- ===== src/Tests/Requests.antt =====
-- The claim on submissions to the manager, at the concrete world.
use agent_task_platform.Prelude.{◌≡◌, refl, some, [], true, string_eq}
use agent_task_platform.Domain.Entities.{AgentRun}
use agent_task_platform.World.{dict_get, World}
use agent_task_platform.Submission.{Routing}
use agent_task_platform.Submission
use agent_task_platform.Store.Runs.{find_request}
use agent_task_platform.Manager.Requests.{submit}
use agent_task_platform.Manager.Requests.Resubmission.{resubmission_starts_nothing}
use agent_task_platform.Tests.Data.{world, queued_run, submission, fresh_ids, writer}

abbrev any_route : AgentRun → Routing
any_route run = Routing.routed writer []

abbrev after : World
after = (submit any_route (λ s. s) fresh_ids true (submission "queued") world).1

answered :
    (submit any_route (λ s. s) fresh_ids true (submission "queued") world).0 ≡ some queued_run
unfolding submit Submission.submit find_request dict_get
answered = refl

resubmission_starts_nothing_example :
    ((submit any_route (λ s. s) fresh_ids true (submission "queued") after).0 ≡ some queued_run)
    × ((submit any_route (λ s. s) fresh_ids true (submission "queued") after).1.store.runs
        ≡ after.store.runs)
    × ((submit any_route (λ s. s) fresh_ids true (submission "queued") after).1.background
        ≡ after.background)
resubmission_starts_nothing_example =
    resubmission_starts_nothing any_route any_route (λ s. s) (λ s. s) fresh_ids fresh_ids true true
      (submission "queued") (submission "queued") world queued_run (refl, refl, refl) answered
