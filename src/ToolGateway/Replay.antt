-- ===== src/ToolGateway/Replay.antt =====
-- A side-effecting tool that has answered is not called again: a later call is answered from its stage.
use agent_task_platform.Prelude.{
  String, ◌≡◌, refl, sym, ◌∙◌, ap, subst, true, false, Option, none, some, arith, string_eq, inl,
  inr, Bool-cases, [],
}
use agent_task_platform.Domain.Status.{StageStatus}
use agent_task_platform.Domain.Entities.{AgentStage, Dict, Json, or_else}
use agent_task_platform.Domain.Catalog.{ToolSpec}
use agent_task_platform.Store.State.{StagesUnique}
use agent_task_platform.Store.Stages
use agent_task_platform.World.{dict_get}
use agent_task_platform.Guardrails.{
  Checked, passed, tripped, ToolGuardrailOutput, run_tool_output_guardrails,
}
use agent_task_platform.ToolProtocols.{Ended, answers, raises, cancels, to_json}
use agent_task_platform.ToolProtocols.Invoke.{invoke}
use agent_task_platform.ToolGateway.{
  GatewayWorld, ToolContext, GatewayEnvironment, ToolCall, GatewayResult, done, fault, Operation,
  Prepared, cached, claimed, unknown_outcome, is_side_effecting, with_store, prepare, operation_key,
  complete,
}
use agent_task_platform.ToolGateway.Attempts.{
  call_with_retries, call_prepared, run_attempts, attempts_of, attempts_from, attempt, after_invoke,
  accept, accept_judged, accept_checked, on_cancelled, conclude, exhausted, rejection, schema_of,
  record_failed, backoff,
}
use agent_task_platform.ToolGateway.Effects.{
  is_null, answer_of, has_output, touched_effect_not_repeated,
}
use agent_task_platform.ToolGateway.Committed.{
  IsCommitted, PreparedEnds, complete-true, prepare-PreparedEnds, rejection-value,
}

-- What the tool, the guardrails and the hook of a call, and whatever runs while they are awaited,
-- leave alone: no two stages have one key, and a stage is not removed by the hook.
pub record KeepsEffect (env : GatewayEnvironment) (ctx : ToolContext) (tool : ToolSpec)
    (c : ToolCall) : Type 0 where
  pub invoked :
      (key : Option String) (w : GatewayWorld)
      → StagesUnique w.store
      → StagesUnique
          (invoke env.protocols tool.endpoint c.input_data tool.timeout_seconds key
            tool.idempotency_key_header w).1.store
  pub guarded :
      (output : Dict Json) (w : GatewayWorld)
      → StagesUnique w.store
      → StagesUnique
          (run_tool_output_guardrails
            (or_else (dict_get tool.name env.output_guardrails) [])
            output
            w).1.store
  pub hooked :
      (output : Json) (w : GatewayWorld) (row : AgentStage)
      → Stages.get ctx.run_id (operation_key env tool c) w.store ≡ some row
      → Stages.get ctx.run_id (operation_key env tool c) (env.on_tool_end tool.name output w).store
        ≡ some row

module _ (env : GatewayEnvironment) (ctx : ToolContext) (tool : ToolSpec) (c : ToolCall)
    (keep : KeepsEffect env ctx tool c)
    (effect : is_side_effecting tool.operation_type ≡ true) where
  abbrev Committed : Json → GatewayWorld → Type 0
  Committed output w = IsCommitted ctx.run_id (operation_key env tool c) output w.store

  abbrev AttemptEnds : Ended Json × GatewayWorld → Type 0
  AttemptEnds (answers output, w) = Committed output w
  AttemptEnds (raises e, w) = Unit {0}
  AttemptEnds (cancels, w) = Unit {0}

  abbrev CallEnds : GatewayResult × GatewayWorld → Type 0
  CallEnds (done output, w) = Committed output w
  CallEnds (fault f, w) = Unit {0}

  module _ (o : Operation) (named : o.stage_key ≡ operation_key env tool c)
      (key : Option String) where
    conclude-AttemptEnds :
        (output : Json) (event_type : String) (w : GatewayWorld)
        → StagesUnique w.store
        → is_null output ≡ false
        → AttemptEnds (conclude env ctx tool c (some o) key output event_type w)
    unfolding conclude
    conclude-AttemptEnds output event_type w u v =
        elim (Bool-cases (complete env ctx tool c (some o) output w.store).0) [
          | inr e ↦ rw (e, conclude) tt
          | inl e ↦
              let s = complete-true env ctx tool c o output w.store effect u v e in
              let after = (complete env ctx tool c (some o) output w.store).1 in
              rw (e, conclude)
                (record {
                  row = s.row;
                  found =
                      keep.hooked output _ s.row
                        (ap (λ k. Stages.get ctx.run_id k after) (sym named) ∙ s.found);
                  status = s.status;
                  same_output = s.same_output;
                  value = s.value;
                })
        ]

    judged-AttemptEnds :
        (output : Dict Json) (blocked : Option Json) (w : GatewayWorld)
        → ((j : Json) → blocked ≡ some j → is_null j ≡ false)
        → StagesUnique w.store
        → AttemptEnds (accept_judged env ctx tool c (some o) key output blocked w)
    judged-AttemptEnds output none w v u = conclude-AttemptEnds (to_json output) _ w u refl
    judged-AttemptEnds output (some j) w v u = conclude-AttemptEnds j _ w u (v j refl)

    checked-AttemptEnds :
        (output : Dict Json) (checked : Checked ToolGuardrailOutput ToolGuardrailOutput)
        (w : GatewayWorld)
        → StagesUnique w.store
        → AttemptEnds (accept_checked env ctx tool c (some o) key output (checked, w))
    checked-AttemptEnds output (tripped name g) w u = tt
    checked-AttemptEnds output (passed results) w u =
        judged-AttemptEnds output (rejection "Tool output rejected by guardrail" results) w
          (rejection-value "Tool output rejected by guardrail" results) u

    accept-AttemptEnds :
        (output : Dict Json) (w : GatewayWorld)
        → StagesUnique w.store
        → AttemptEnds (accept env ctx tool c (some o) key output w)
    unfolding accept
    accept-AttemptEnds output w u =
        elim (Bool-cases (env.conforms (schema_of tool.output_schema) (to_json output))) [
          | inr e ↦ rw (e, accept) tt
          | inl e ↦
              rw (e, accept)
                (checked-AttemptEnds output
                  (run_tool_output_guardrails
                    (or_else (dict_get tool.name env.output_guardrails) []) output w).0
                  _ (keep.guarded output w u))
        ]

    attempt-AttemptEnds :
        (w : GatewayWorld)
        → StagesUnique w.store
        → AttemptEnds (attempt env ctx tool c (some o) key w)
    unfolding attempt
    attempt-AttemptEnds w u =
        after-AttemptEnds
          (invoke env.protocols tool.endpoint c.input_data tool.timeout_seconds key
            tool.idempotency_key_header w).0
          _ (keep.invoked key w u)
      where
        after-AttemptEnds :
            (e : Ended (Dict Json)) (w' : GatewayWorld)
            → StagesUnique w'.store
            → AttemptEnds (after_invoke env ctx tool c (some o) key (e, w'))
        after-AttemptEnds (answers output) w' u' = accept-AttemptEnds output w' u'
        after-AttemptEnds (raises e) w' u' = tt
        after-AttemptEnds cancels w' u' = tt

    run_attempts-CallEnds :
        (w : GatewayWorld)
        → StagesUnique w.store
        → CallEnds (run_attempts env ctx tool c (some o) key w)
    unfolding attempts_from attempts_of exhausted
    run_attempts-CallEnds w u =
        rw (effect, attempts_of)
          (by_end (attempt env ctx tool c (some o) key w).0
            (attempt env ctx tool c (some o) key w).1 (attempt-AttemptEnds w u))
      where
        by_end :
            (e : Ended Json) (w1 : GatewayWorld)
            → AttemptEnds (e, w1)
            → CallEnds (elim e [
              | answers output ↦ (done output, w1)
              | cancels ↦ (on_cancelled env ctx tool c (some o) key, w1)
              | raises x ↦ attempts_from env ctx tool c (some o) key 1 2 0 x (
                  backoff env ctx tool c
                    (some o)
                    key
                    1
                    1
                    (record_failed env ctx tool c (some o) key w1))
            ])
        by_end (answers output) w1 h = h
        by_end cancels w1 h = rw effect tt
        by_end (raises x) w1 h = rw effect tt

  call_prepared-CallEnds :
      (p : Prepared) (w : GatewayWorld)
      → PreparedEnds env ctx tool c (p, w.store)
      → CallEnds (call_prepared env ctx tool c p w)
  call_prepared-CallEnds (cached output) w h = h
  call_prepared-CallEnds unknown_outcome w h = tt
  call_prepared-CallEnds (claimed o) w h =
      run_attempts-CallEnds o h.0 (some o.idempotency_key) w h.1

  call_with_retries-CallEnds :
      (w : GatewayWorld) → StagesUnique w.store → CallEnds (call_with_retries env ctx tool c w)
  unfolding call_with_retries
  call_with_retries-CallEnds w u =
      let p = prepare env ctx tool c w.store in
      rw (effect, call_with_retries)
        (call_prepared-CallEnds p.0 (with_store p.1 w)
          (prepare-PreparedEnds env ctx tool c w.store u))

succeeded_row :
    (tool : ToolSpec) (row : AgentStage) (output : Json)
    → row.status ≡ StageStatus.succeeded
    → row.output ≡ output
    → is_null output ≡ false
    → (Stages.is_untouched row ≡ false)
      × (has_output row ≡ true)
      × (answer_of tool row ≡ done output)
succeeded_row tool row output st same value = ground (arith, st, same, value)

-- A side-effecting tool that has answered a call is not called again for it: in any later world that
-- still has the stage of the operation as the call left it, a call of the same run with the same
-- operation answers the same output and changes nothing, whatever the tool, the guardrails and the
-- hooks would then do. The tool, the guardrails and the hook of the first call may do anything that
-- leaves no two stages with one key and, for the hook, leaves the operation's stage.
pub answered_effect_replays :
    (env env' : GatewayEnvironment) (ctx ctx' : ToolContext) (tool tool' : ToolSpec)
    (c c' : ToolCall) (w w' : GatewayWorld) (output : Json)
    → is_side_effecting tool.operation_type ≡ true
    → is_side_effecting tool'.operation_type ≡ true
    → KeepsEffect env ctx tool c
    → StagesUnique w.store
    → (call_with_retries env ctx tool c w).0 ≡ done output
    → ctx'.run_id ≡ ctx.run_id
    → operation_key env' tool' c' ≡ operation_key env tool c
    → StagesUnique w'.store
    → Stages.get ctx.run_id (operation_key env tool c) w'.store
      ≡ Stages.get ctx.run_id
          (operation_key env tool c)
          (call_with_retries env ctx tool c w).1.store
    → call_with_retries env' ctx' tool' c' w' ≡ (done output, w')
answered_effect_replays env env' ctx ctx' tool tool' c c' w w' output effect effect' keep u h run
      same u' kept =
    let w1 = (call_with_retries env ctx tool c w).1 in
    let committed : IsCommitted ctx.run_id (operation_key env tool c) output w1.store =
      subst (λ r. CallEnds env ctx tool c keep effect (r, w1)) h
        (call_with_retries-CallEnds env ctx tool c keep effect w u) in
    let row = committed.row in
    let facts =
      succeeded_row tool' row output committed.status committed.same_output committed.value in
    touched_effect_not_repeated env' ctx' tool' c' row w' effect' u'
      (ap (λ k. Stages.get ctx'.run_id k w'.store) same
        ∙ ap (λ r. Stages.get r (operation_key env tool c) w'.store) run
        ∙ kept
        ∙ committed.found)
      facts.0 facts.1
    ∙ ap (λ r. (r, w')) facts.2
