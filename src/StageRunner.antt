-- ===== src/StageRunner.antt =====
-- framework/runtime/stage_runner.py, `StageRunner`: one durable stage of a run, executed or restored.
-- The operation of the stage and the lifecycle hooks are parameters that may change the world, as
-- other tasks do while they are awaited. A stage's input is a JSON value; its hash and the generated
-- ids come from outside the source.
pub mod Known
pub mod Stored
pub mod Replay
pub mod Outcomes
pub mod Supersede
use agent_task_platform.Prelude.{
  ℕ, suc, ◌+◌, String, Bool, true, false, not, ◌&&◌, ◌||◌, Option, none, some, List, [], ◌∷◌, max,
  leb, ltb, if◌then◌else◌, ◌==◌, string_eq, nat_eq, option_eq, contains, nat_beq, length,
}
use Prim.Native.String.{◌++◌}
use agent_task_platform.Prelude.Int.{ℤ, pos, negsuc}
use agent_task_platform.Prelude.Text.{codes}
use agent_task_platform.Domain.Status.{RunStatus, StageStatus}
use agent_task_platform.Domain.Entities.{
  AgentRun, AgentSpec, AgentStage, Dict, Json, or_else, truthy,
}
use agent_task_platform.Store.State.{Store, add_log}
use agent_task_platform.Store.Runs
use agent_task_platform.Store.Runs.{update_if_current}
use agent_task_platform.Store.Stages

-- The store, and whether the cancellation signal of the run is set.
pub record StageWorld : Type 0 where
  pub store : Store
  pub signal : Bool

-- How the awaited operation ends: a JSON value, or an exception by its class. A value that is not
-- JSON serializable is a `TypeError`, and one of the `failed`.
pub data OperationEnd : Type 0 where
  returned : Json → OperationEnd
  run_cancelled interrupted stale : OperationEnd
  unknown failed : String → String → OperationEnd

-- What `run_stage` raises.
pub data StageFault : Type 0 where
  invalid_key duplicate_key state_changed canceled attempts_exhausted stopped superseded :
      StageFault
  outcome_unknown : String → StageFault
  raised : String → String → StageFault

pub data StageResult : Type 0 where
  done : Json → StageResult
  fault : StageFault → StageResult

pub record StageEnvironment : Type 0 where
  pub operation : AgentStage → StageWorld → OperationEnd × StageWorld
  pub on_stage_start : AgentStage → StageWorld → StageWorld
  pub on_stage_end : AgentStage → StageWorld → StageWorld
  pub stable_hash : Json → String

-- The fields of the object.
pub record Runner : Type 0 where
  pub run : AgentRun
  pub agent : AgentSpec
  pub seen : List String
  pub next_index : ℕ

-- The arguments of `run_stage`, with the ids that are generated for the call.
pub record StageRequest : Type 0 where
  pub key : String
  pub input : Json
  pub definition_version : String
  pub max_attempts : Option ℕ
  pub idempotency_key : Option String
  pub stage_id : String
  pub execution_id : String

abbrev is_alphanumeric : ℕ → Bool
is_alphanumeric c =
    (leb b'A' c && leb c b'Z') || ((leb b'a' c && leb c b'z') || (leb b'0' c && leb c b'9'))

abbrev is_key_code : ℕ → Bool
is_key_code c =
    is_alphanumeric c || ((nat_beq c b'_' || nat_beq c b'.') || (nat_beq c b':' || nat_beq c b'-'))

all_codes : (ℕ → Bool) → List ℕ → Bool
all_codes p [] = true
all_codes p (c ∷ cs) = p c && all_codes p cs

-- `^[A-Za-z0-9][A-Za-z0-9_.:-]{0,127}$`
abbrev matches_key : List ℕ → Bool
matches_key [] = false
matches_key (c ∷ cs) = is_alphanumeric c && (all_codes is_key_code cs && leb (length cs) 127)

-- `_validate_key`
unfoldable pub is_valid_key : String → Bool
unfolding all_codes
is_valid_key key = matches_key (codes key)

abbrev pub with_store : Store → StageWorld → StageWorld
with_store s w = record w { store = s }

-- `_log`
abbrev pub log : Runner → String → StageWorld → StageWorld
log r event_type w =
    with_store (add_log r.run.run_id r.run.trace_id "stage_runner" event_type w.store) w

abbrev pub is_canceled : Option AgentRun → Bool
is_canceled none = false
is_canceled (some run) = elim run.status [ RunStatus.canceled ↦ true | _ ↦ false ]

-- The test of `_raise_if_cancelled`.
unfoldable pub is_cancelled : Runner → StageWorld → Bool
is_cancelled r w = w.signal || is_canceled (Runs.get r.run.run_id w.store)

abbrev or_default : Option ℕ → ℕ → ℕ
or_default none d = d
or_default (some n) d = if nat_beq n 0 then d else n

-- The stage that `run_stage` asks for.
unfoldable pub requested : StageEnvironment → Runner → StageRequest → ℕ → AgentStage
requested env r q now = record {
  stage_id = q.stage_id;
  run_id = r.run.run_id;
  trace_id = r.run.trace_id;
  agent_name = r.agent.name;
  agent_version = r.agent.version;
  stage_key = q.key;
  stage_index = pos r.next_index;
  schema_version = "1";
  definition_version = q.definition_version;
  status = StageStatus.pending;
  run_attempt = 0;
  attempts = 0;
  max_attempts = max 1 (or_default q.max_attempts r.agent.retry_policy.max_attempts);
  execution_id = none;
  idempotency_key = or_else (truthy q.idempotency_key) (r.run.run_id ++ ":" ++ q.key);
  input_hash = env.stable_hash q.input;
  output = Json.null;
  checkpoint = none;
  error_type = none;
  error_message = none;
  create_time = now;
  update_time = now;
  start_time = none;
  finish_time = none;
}

-- Stages of a runner are counted from 0.
abbrev pub is_index : ℕ → ℤ → Bool
is_index n (pos m) = nat_beq m n
is_index n (negsuc m) = false

-- `_validate_state`
unfoldable pub is_unchanged : StageEnvironment → Runner → StageRequest → AgentStage → Bool
is_unchanged env r q stage =
    stage.schema_version == "1"
    && ((stage.agent_name == r.agent.name && stage.agent_version == r.agent.version)
        && (is_index r.next_index stage.stage_index
            && (stage.definition_version == q.definition_version
                && stage.input_hash == env.stable_hash q.input)))

-- `_set_current_step`; false when it raises `RunCancelledError`.
unfoldable pub set_current_step : Runner → String → StageWorld → Bool × StageWorld
set_current_step r key w = elim (Runs.get r.run.run_id w.store) [
  | none ↦ (not w.signal, w)
  | some run ↦
      if is_canceled (some run)
      then (false, w)
      else let (owned, s) =
          update_if_current (record run { current_step = some ("stage:" ++ key) })
            (record {
              statuses = run.status ∷ [];
              worker = some r.run.worker;
              lease_expire_time = none;
            })
            w.store in
        (owned, with_store s w)
]

abbrev pub unknown_text : String → Option String → String
unknown_text key message =
    or_else (truthy message) ("Stage '" ++ key ++ "' external outcome is unknown")

module _ (env : StageEnvironment) (r : Runner) (q : StageRequest) where
  abbrev ended : AgentStage → StageFault → StageWorld → StageResult × StageWorld
  ended active f w = (fault f, env.on_stage_end active w)

  -- The `except` clauses.
  unfoldable pub on_cancelled : AgentStage → StageWorld → StageResult × StageWorld
  on_cancelled active w =
      ended active canceled
        (with_store (Stages.mark_canceled r.run.run_id q.key q.execution_id w.store).1 w)

  unfoldable pub on_unknown : AgentStage → String → String → StageWorld → StageResult × StageWorld
  on_unknown active name text w = ended active (outcome_unknown text) (
      log r "stage_outcome_unknown" (
        with_store
          (Stages.mark_outcome_unknown r.run.run_id q.key q.execution_id name text w.store).1 w))

  unfoldable pub on_failed : AgentStage → String → String → StageWorld → StageResult × StageWorld
  on_failed active name text w = ended active (raised name text) (
      log r "stage_failed"
        (with_store (Stages.mark_failed r.run.run_id q.key q.execution_id name text w.store).1 w))

  abbrev on_stale : AgentStage → StageWorld → StageResult × StageWorld
  on_stale active w = ended active superseded (log r "stage_superseded" w)

  -- `mark_succeeded` was refused.
  unfoldable pub on_refused : AgentStage → StageWorld → StageResult × StageWorld
  on_refused active w = elim (Stages.get r.run.run_id q.key w.store) [
    | none ↦ on_stale active w
    | some persisted ↦ elim persisted.status [
      | StageStatus.outcome_unknown ↦
          on_unknown active "ExternalSideEffectOutcomeUnknownError"
            (unknown_text q.key persisted.error_message) w
      | _ ↦ on_stale active w
    ]
  ]

  -- The operation has returned an output.
  unfoldable pub store_output : AgentStage → Json → StageWorld → StageResult × StageWorld
  store_output active output w =
      if is_cancelled r w
      then on_cancelled active w
      else let (marked, s) =
          Stages.mark_succeeded r.run.run_id q.key q.execution_id output w.store in
        if marked
        then (done output, env.on_stage_end active (log r "stage_succeeded" (with_store s w)))
        else on_refused active (with_store s w)

  unfoldable pub conclude : AgentStage → OperationEnd → StageWorld → StageResult × StageWorld
  conclude active (returned output) w = store_output active output w
  conclude active run_cancelled w = on_cancelled active w
  conclude active interrupted w = ended active stopped (log r "stage_interrupted" w)
  conclude active stale w = on_stale active w
  conclude active (unknown name text) w = on_unknown active name text w
  conclude active (failed name text) w = on_failed active name text w

  -- The stage has begun: `active` is its row, from which the context of the operation is made.
  unfoldable pub execute : AgentStage → StageWorld → StageResult × StageWorld
  execute active w =
      let (allowed, w1) = set_current_step r q.key w in
      if not allowed
      then (fault canceled, w1)
      else let (outcome, w2) =
          env.operation active (env.on_stage_start active (log r "stage_started" w1)) in
        conclude active outcome w2

  unfoldable pub begin : StageWorld → StageResult × StageWorld
  begin w =
      let (active, s) =
        Stages.begin_attempt r.run.run_id q.key r.run.attempts q.execution_id w.store in
      elim active [
        | none ↦ (fault attempts_exhausted, with_store s w)
        | some stage ↦ execute stage (with_store s w)
      ]

  -- From the row that `get_or_create` gives.
  unfoldable pub resume : AgentStage → StageWorld → StageResult × StageWorld
  resume stage w =
      if not (is_unchanged env r q stage) then (fault state_changed, w) else elim stage.status [
        | StageStatus.succeeded ↦ (done stage.output, log r "stage_resumed" w)
        | StageStatus.canceled ↦ (fault canceled, w)
        | StageStatus.outcome_unknown ↦
            (fault (outcome_unknown (unknown_text q.key stage.error_message)), w)
        | _ ↦ begin w
      ]

  -- `run_stage`, with the runner as it is afterwards.
  unfoldable pub run_stage : StageWorld → StageResult × (Runner × StageWorld)
  run_stage w =
      if not (is_valid_key q.key)
      then (fault invalid_key, (r, w))
      else if contains r.seen q.key
      then (fault duplicate_key, (r, w))
      else let r' = record r { seen = q.key ∷ r.seen; next_index = suc r.next_index } in
        if is_cancelled r w
        then (fault canceled, (r', w))
        else let (stage, s) = Stages.get_or_create (requested env r q w.store.clock) w.store in
          let (result, w') = resume stage (with_store s w) in (result, (r', w'))

  -- `_save_checkpoint`, for a checkpoint that is a JSON object.
  unfoldable pub save_checkpoint : Dict Json → StageWorld → Option StageFault × StageWorld
  save_checkpoint checkpoint w =
      if is_cancelled r w
      then (some canceled, w)
      else let (saved, s) =
          Stages.save_checkpoint r.run.run_id q.key q.execution_id checkpoint w.store in
        if saved
        then (none, log r "stage_checkpointed" (with_store s w))
        else (some superseded, with_store s w)
