-- ===== src/StageRunner/Replay.antt =====
-- A stage that has succeeded is restored, not executed again.

use agent_task_platform.Prelude.{
  ℕ, suc, ◌≡◌, refl, ◌∙◌, ap, subst, Bool, true, false, some, ◌∷◌, arith, string_eq, pair_eq,
  option_eq, nat_eq, contains, inl, inr, Bool-cases, Option-cases, pair_beq_iff,
}
use agent_task_platform.Domain.Status.{StageStatus, stage_status_eq}
use agent_task_platform.Domain.Entities.{AgentStage, Json}
use agent_task_platform.Table.{find-append_none, append-Unique}
use agent_task_platform.Store.State.{Store, StagesUnique, stage_key}
use agent_task_platform.Store.Stages
use agent_task_platform.StageRunner.{
  StageWorld, StageEnvironment, Runner, StageRequest, StageResult, done, is_cancelled, is_unchanged,
  is_valid_key, requested, resume, run_stage, with_store,
}
use agent_task_platform.StageRunner.Known.{KeepsStage, IsStored, Ends}
use agent_task_platform.StageRunner.Stored.{resume-Ends}

module _ (env : StageEnvironment) (r : Runner) (q : StageRequest) where
  -- `get_or_create` gives the row that is then stored under the key of the stage.
  created :
      (now : ℕ) (s : Store)
      → StagesUnique s
      → let p = Stages.get_or_create (requested env r q now) s in
        (Stages.get r.run.run_id q.key p.1 ≡ some p.0) × StagesUnique p.1
  unfolding Stages.get_or_create requested
  created now s u = elim (Option-cases (Stages.get r.run.run_id q.key s)) [
    | inr (row, e) ↦ rw (e, Stages.get_or_create) (e, u)
    | inl e ↦
        rw (e, Stages.get_or_create)
          (
            find-append_none stage_key (r.run.run_id, q.key) s.stages (requested env r q now) e
                ∙ (rw ((pair_beq_iff (r.run.run_id, q.key) (r.run.run_id, q.key)).1 refl) refl),
            append-Unique stage_key (requested env r q now) s.stages u e,
          )
  ]

  abbrev RunEnds : StageResult × (Runner × StageWorld) → Type 0
  RunEnds (result, (r', w')) = Ends env r q (result, w')

  run_stage-Ends :
      KeepsStage env r q → (w : StageWorld) → StagesUnique w.store → RunEnds (run_stage env r q w)
  unfolding run_stage
  run_stage-Ends keep w u =
      let (found, unique) = created w.store.clock w.store u in
      let p = Stages.get_or_create (requested env r q w.store.clock) w.store in
      let rest = resume-Ends env r q keep p.0 (with_store p.1 w) found unique in
      elim (Bool-cases (is_valid_key q.key)) [
        | inr e ↦ rw (e, run_stage) tt
        | inl e ↦ elim (Bool-cases (contains r.seen q.key)) [
          | inl f ↦ rw (e, f, run_stage) tt
          | inr f ↦ elim (Bool-cases (is_cancelled r w)) [
            | inl g ↦ rw (e, f, g, run_stage) tt
            | inr g ↦ rw (e, f, g, run_stage) rest
          ]
        ]
      ]

  refetched :
      (now : ℕ) (s : Store) (row : AgentStage)
      → Stages.get r.run.run_id q.key s ≡ some row
      → Stages.get_or_create (requested env r q now) s ≡ (row, s)
  unfolding Stages.get_or_create requested
  refetched now s row found = rw (found, Stages.get_or_create) refl

  -- A row with an output of this call is answered with that output.
  restored :
      (w : StageWorld) (row : AgentStage)
      → is_valid_key q.key ≡ true
      → contains r.seen q.key ≡ false
      → is_cancelled r w ≡ false
      → Stages.get r.run.run_id q.key w.store ≡ some row
      → is_unchanged env r q row ≡ true
      → row.status ≡ StageStatus.succeeded
      → (run_stage env r q w).0 ≡ done row.output
  unfolding run_stage resume
  restored w row valid fresh live found same st =
      rw
        (valid, fresh, live, refetched w.store.clock w.store row found, same, st, run_stage, resume)
        (ap (λ (p : AgentStage × Store). done p.0.output)
          (refetched w.store.clock w.store row found))

  run_stage-valid :
      (w : StageWorld) (output : Json)
      → (run_stage env r q w).0 ≡ done output
      → is_valid_key q.key ≡ true
  unfolding run_stage
  run_stage-valid w output h = elim (Bool-cases (is_valid_key q.key)) [
    | inl e ↦ e
    | inr e ↦ ground (arith, h, e)
  ]

-- A second call for the same stage: of the same run, by the same version of the agent, at the same
-- place, with the same definition and input.
pub record SameCall (env : StageEnvironment) (r : Runner) (q : StageRequest)
    (env' : StageEnvironment) (r' : Runner) (q' : StageRequest) : Type 0 where
  pub run_id : r'.run.run_id ≡ r.run.run_id
  pub agent_name : r'.agent.name ≡ r.agent.name
  pub agent_version : r'.agent.version ≡ r.agent.version
  pub index : r'.next_index ≡ r.next_index
  pub key : q'.key ≡ q.key
  pub definition_version : q'.definition_version ≡ q.definition_version
  pub input_hash : env'.stable_hash q'.input ≡ env.stable_hash q.input

same-unchanged :
    (env : StageEnvironment) (r : Runner) (q : StageRequest) (env' : StageEnvironment) (r' : Runner)
    (q' : StageRequest)
    → SameCall env r q env' r' q'
    → (row : AgentStage) → is_unchanged env' r' q' row ≡ is_unchanged env r q row
unfolding is_unchanged
same-unchanged env r q env' r' q' same row =
    rw (same.agent_name, same.agent_version, same.index, same.definition_version, same.input_hash)
      refl

-- A stage whose execution has given an output is never executed again, but restored: a later call
-- for the same stage, by a runner that has not seen its key, in a world that still has its row and
-- where the run is not canceled, answers the same output, whatever its own operation would do. The
-- first operation and the hooks may do anything that leaves the stage's row recognizable.
pub run_stage_replays :
    (env env' : StageEnvironment) (r r' : Runner) (q q' : StageRequest) (w w' : StageWorld)
    (output : Json)
    → KeepsStage env r q
    → StagesUnique w.store
    → (run_stage env r q w).0 ≡ done output
    → SameCall env r q env' r' q'
    → contains r'.seen q'.key ≡ false
    → is_cancelled r' w' ≡ false
    → Stages.get r.run.run_id q.key w'.store
      ≡ Stages.get r.run.run_id q.key (run_stage env r q w).1.1.store
    → (run_stage env' r' q' w').0 ≡ done output
run_stage_replays env env' r r' q q' w w' output keep u h same fresh live kept =
    let stored : IsStored env r q output (run_stage env r q w).1.1 =
      subst (λ result. Ends env r q (result, (run_stage env r q w).1.1)) h
        (run_stage-Ends env r q keep w u) in
    restored env' r' q' w' stored.row
      (ap is_valid_key same.key ∙ run_stage-valid env r q w output h) fresh live
      (ap (λ k. Stages.get k q'.key w'.store) same.run_id
        ∙ ap (λ k. Stages.get r.run.run_id k w'.store) same.key
        ∙ kept
        ∙ stored.found)
      (same-unchanged env r q env' r' q' same stored.row ∙ stored.unchanged) stored.status
    ∙ ap done stored.same_output

-- A stage that no operation of this call can begin again.
abbrev pub is_over : StageStatus → Bool
is_over StageStatus.succeeded = true
is_over StageStatus.canceled = true
is_over StageStatus.outcome_unknown = true
is_over _ = false

module _ (env env' : StageEnvironment) (r : Runner) (q : StageRequest) (row : AgentStage)
    (over : is_over row.status ≡ true)
    (hash : env'.stable_hash q.input ≡ env.stable_hash q.input) where
  resume_over :
      (w : StageWorld)
      → (resume env' r q row w ≡ resume env r q row w)
        × ((resume env r q row w).1.store.stages ≡ w.store.stages)
  unfolding resume is_unchanged
  resume_over w = (rw hash (ground (arith, over)), ground (arith, over))

-- A stage that has succeeded, was canceled, or whose external outcome is unknown is not executed: the
-- call comes to the same with any operation and any hooks, and leaves the stages as they are.
pub closed_stage_not_executed :
    (env env' : StageEnvironment) (r : Runner) (q : StageRequest) (w : StageWorld)
    (row : AgentStage)
    → Stages.get r.run.run_id q.key w.store ≡ some row
    → is_over row.status ≡ true
    → env'.stable_hash q.input ≡ env.stable_hash q.input
    → (run_stage env' r q w ≡ run_stage env r q w)
      × ((run_stage env r q w).1.1.store.stages ≡ w.store.stages)
unfolding run_stage
closed_stage_not_executed env env' r q w row found over hash =
    let (same, kept) = resume_over env env' r q row over hash w in
    let e = refetched env r q w.store.clock w.store row found in
    let e' = refetched env' r q w.store.clock w.store row found in
    elim (Bool-cases (is_valid_key q.key)) [
      | inr f ↦ rw (f, run_stage) (refl, refl)
      | inl f ↦ elim (Bool-cases (contains r.seen q.key)) [
        | inl g ↦ rw (f, g, run_stage) (refl, refl)
        | inr g ↦ elim (Bool-cases (is_cancelled r w)) [
          | inl h ↦ rw (f, g, h, run_stage) (refl, refl)
          | inr h ↦
              rw (f, g, h, e, e', run_stage)
                (
                  ap
                      (λ (p : StageResult × StageWorld). (
                        p.0,
                        (record r { seen = q.key ∷ r.seen; next_index = suc r.next_index }, p.1),
                      ))
                      same,
                  kept,
                )
        ]
      ]
    ]
