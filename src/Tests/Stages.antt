-- ===== src/Tests/Stages.antt =====
-- The claims on the stage runner, at the concrete world.
use agent_task_platform.Prelude.{
  String, ◌≡◌, ◌≢◌, refl, false, none, some, [], ◌∷◌, string_eq, contains, differs, option_eq,
}
use agent_task_platform.Domain.Status.{StageStatus, run_status_beq, stage_status_beq}
use agent_task_platform.Domain.Entities.{AgentStage, Json}
use agent_task_platform.Store.State.{Store, StagesUnique}
use agent_task_platform.Table.{find, update_where, rowcount}
use agent_task_platform.Store.Runs
use agent_task_platform.Store.Stages
use agent_task_platform.StageRunner.{
  StageWorld, StageEnvironment, Runner, StageRequest, OperationEnd, done, run_stage, is_cancelled,
  conclude, is_valid_key, resume, is_unchanged, requested, begin, execute, set_current_step,
  store_output,
}
use agent_task_platform.StageRunner.Known.{KeepsStage}
use agent_task_platform.StageRunner.Replay.{SameCall, run_stage_replays, closed_stage_not_executed}
use agent_task_platform.StageRunner.Outcomes.{conclude_records, EndsWith, answer, recorded}
use agent_task_platform.StageRunner.Supersede.{superseded_writes_nothing, IsDisowned}
use agent_task_platform.Tests.Data.{
  store, leased_run, writer, sent_stage, store-StagesUnique, found_sent, stage_of,
}

abbrev before : StageWorld
before = record { store = store; signal = false }

abbrev stage_environment : Json → StageEnvironment
stage_environment output = record {
  operation = λ stage w. (OperationEnd.returned output, w);
  on_stage_start = λ stage w. w;
  on_stage_end = λ stage w. w;
  stable_hash = λ input. "hash";
}

abbrev runner : Runner
runner = record { run = leased_run; agent = writer; seen = []; next_index = 0 }

abbrev request : String → String → StageRequest
request key token = record {
  key = key;
  input = Json.null;
  definition_version = "1";
  max_attempts = none;
  idempotency_key = none;
  stage_id = "new";
  execution_id = token;
}

abbrev first : StageEnvironment
first = stage_environment (Json.text "one")

abbrev ran : StageWorld
ran = (run_stage first runner (request "draft" "t2") before).1.1

first_output : (run_stage first runner (request "draft" "t2") before).0 ≡ done (Json.text "one")
unfolding run_stage is_valid_key contains is_cancelled find resume is_unchanged Stages.get_or_create
    requested begin Stages.begin_attempt rowcount update_where Stages.begun execute set_current_step
    Runs.update_if_current Runs.is_current run_status_beq stage_status_beq conclude store_output
    Stages.mark_succeeded Stages.succeeded Stages.update_active
first_output = refl

first-KeepsStage : KeepsStage first runner (request "draft" "t2")
first-KeepsStage = record {
  operation = λ a w h. h;
  on_stage_start = λ a w h. h;
  on_stage_end = λ a w row h. h;
}

same_call :
    SameCall first runner
      (request "draft" "t2")
      (stage_environment (Json.text "two"))
      runner
      (request "draft" "t3")
same_call = record {
  run_id = refl;
  agent_name = refl;
  agent_version = refl;
  index = refl;
  key = refl;
  definition_version = refl;
  input_hash = refl;
}

run_stage_replays_example :
    (run_stage (stage_environment (Json.text "two")) runner (request "draft" "t3") ran).0
    ≡ done (Json.text "one")
unfolding run_stage is_valid_key contains is_cancelled find resume is_unchanged Stages.get_or_create
    requested begin Stages.begin_attempt rowcount update_where Stages.begun execute set_current_step
    Runs.update_if_current Runs.is_current run_status_beq stage_status_beq conclude store_output
    Stages.mark_succeeded Stages.succeeded Stages.update_active
run_stage_replays_example =
    run_stage_replays first (stage_environment (Json.text "two")) runner runner
      (request "draft" "t2") (request "draft" "t3") before ran (Json.text "one") first-KeepsStage
      store-StagesUnique first_output same_call refl refl refl

abbrev mail : StageRequest
mail = request "mail" "t2"

closed_stage_not_executed_example :
    (run_stage (stage_environment (Json.text "two")) runner mail before
      ≡ run_stage first runner mail before)
    × ((run_stage first runner mail before).1.1.store.stages ≡ store.stages)
closed_stage_not_executed_example =
    closed_stage_not_executed first (stage_environment (Json.text "two")) runner mail before
      sent_stage found_sent refl refl

abbrev begun_store : Store
begun_store = record store {
  stages = stage_of "leased" "draft" StageStatus.running (some "t2") none ∷ [];
}

abbrev begun : StageWorld
begun = record { store = begun_store; signal = false }

abbrev begun_stage : AgentStage
begun_stage = stage_of "leased" "draft" StageStatus.running (some "t2") none

begun-StagesUnique : StagesUnique begun_store
unfolding find
begun-StagesUnique = (refl, tt)

found_begun : Stages.get "leased" "draft" begun_store ≡ some begun_stage
unfolding find
found_begun = refl

conclude_records_example :
    EndsWith first runner
      (request "draft" "t2")
      begun_stage
      begun
      begun_stage
      begun-StagesUnique
      found_begun
      (conclude first runner
        (request "draft" "t2")
        begun_stage
        (OperationEnd.failed "ValueError" "no data")
        begun)
      (answer (is_cancelled runner begun) (OperationEnd.failed "ValueError" "no data"))
      (recorded
        (is_cancelled runner begun)
        (OperationEnd.failed "ValueError" "no data")
        10
        begun_stage)
conclude_records_example =
    conclude_records first runner (request "draft" "t2") begun_stage
      (OperationEnd.failed "ValueError" "no data") begun begun_stage begun-StagesUnique found_begun
      refl refl

other_token : begun_stage.execution_id ≢ some "t1"
other_token = differs (some "t2") (some "t1") refl

superseded_writes_nothing_example :
    IsDisowned first runner
      (request "draft" "t1")
      begun_stage
      begun
      begun_stage
      begun-StagesUnique
      found_begun
      other_token
      (conclude first runner
        (request "draft" "t1")
        begun_stage
        (OperationEnd.returned Json.null)
        begun)
superseded_writes_nothing_example =
    superseded_writes_nothing first runner (request "draft" "t1") begun_stage
      (OperationEnd.returned Json.null) begun begun_stage begun-StagesUnique found_begun other_token
