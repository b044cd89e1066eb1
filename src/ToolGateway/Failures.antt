-- ===== src/ToolGateway/Failures.antt =====
-- A tool that fails: its attempts, and what they do to its circuit breaker.
use agent_task_platform.Prelude.{
  ℕ, zero, suc, ◌+◌, ◌*◌, ◌≤◌, String, ◌≡◌, refl, sym, ◌∙◌, ap, subst, true, false, none, some, max,
  arith, string_eq,
}
use agent_task_platform.Domain.Catalog.{ToolSpec, OperationType}
use agent_task_platform.World.{dict_get}
use agent_task_platform.Resilience.{
  BreakerState, BreakerConfig, state_of, is_on, threshold_of, cooldown_of, record_failure,
}
use agent_task_platform.Resilience.Breaker.{state_of-record_failure, counted}
use agent_task_platform.ToolProtocols.{raises}
use agent_task_platform.ToolGateway.{
  GatewayWorld, ToolContext, GatewayEnvironment, ToolCall, GatewayResult, GatewayFault, fault,
  is_side_effecting,
}
use agent_task_platform.ToolGateway.Attempts.{
  call_with_retries, call_repeatable, attempts_of, attempts_from, attempt, exhausted, record_failed,
  backoff,
}

abbrev pub breaker_of : ToolSpec → GatewayWorld → BreakerState
breaker_of tool w = state_of tool.name w.breakers

-- Every attempt of the call raises an exception, no other task uses the tool meanwhile, the tool has
-- a breaker that is on, and no failure handler.
pub record IsFailing (env : GatewayEnvironment) (ctx : ToolContext) (tool : ToolSpec) (c : ToolCall)
    (config : BreakerConfig) : Type 0 where
  pub message : GatewayWorld → String
  pub raised :
      (w : GatewayWorld) → (attempt env ctx tool c none c.idempotency_key w).0 ≡ raises (message w)
  pub kept :
      (w : GatewayWorld)
      → breaker_of tool (attempt env ctx tool c none c.idempotency_key w).1 ≡ breaker_of tool w
  pub slept :
      (ticks : ℕ) (w : GatewayWorld) → breaker_of tool (env.sleep ticks w) ≡ breaker_of tool w
  pub configured : env.breaker_config tool.circuit_breaker ≡ some config
  pub on : is_on config ≡ true
  pub unhandled : dict_get tool.name env.failure_handlers ≡ none

-- What `left` failed attempts come to.
pub record FailedEnds (second : ℕ) (tool : ToolSpec) (config : BreakerConfig) (left : ℕ)
    (w : GatewayWorld) (result : GatewayResult × GatewayWorld) : Type 0 where
  pub last : String
  pub failed : result.0 ≡ fault (GatewayFault.tool_failed last)
  pub failures : (breaker_of tool result.1).failures ≡ (breaker_of tool w).failures + left
  pub opened :
      threshold_of config ≤ (breaker_of tool w).failures + left
      → (breaker_of tool result.1).open_until ≡ result.1.monotonic + cooldown_of second config

module _ (env : GatewayEnvironment) (ctx : ToolContext) (tool : ToolSpec) (c : ToolCall)
    (config : BreakerConfig) (failing : IsFailing env ctx tool c config)
    (repeatable : is_side_effecting tool.operation_type ≡ false) where
  abbrev from : ℕ → ℕ → ℕ → String → GatewayWorld → GatewayResult × GatewayWorld
  from = attempts_from env ctx tool c none c.idempotency_key

  -- The world after a failed attempt.
  abbrev failed : GatewayWorld → GatewayWorld
  failed w =
      record_failed env ctx tool c none c.idempotency_key
        (attempt env ctx tool c none c.idempotency_key w).1

  breaker_of-failed :
      (w : GatewayWorld)
      → breaker_of tool (failed w)
        ≡ counted env.second config (failed w).monotonic (breaker_of tool w)
  breaker_of-failed w =
      let w1 = (attempt env ctx tool c none c.idempotency_key w).1 in
      ap
        (λ o. state_of tool.name (record_failure env.second tool.name o w1.monotonic w1.breakers).1)
        failing.configured
      ∙ state_of-record_failure env.second config tool.name tool.name w1.monotonic w1.breakers
          failing.on
      ∙ ground (arith, string_eq.eqb_iff tool.name tool.name, failing.kept w)

  breaker_of-backoff :
      (number attempts : ℕ) (w : GatewayWorld)
      → breaker_of tool (backoff env ctx tool c none c.idempotency_key number attempts w)
        ≡ breaker_of tool w
  breaker_of-backoff number attempts w =
      ground (arith, failing.slept (tool.retry_policy.backoff_seconds * number) w)

  -- One attempt from `failures` on, to the states `before` and `after`, at a reading of the clock.
  counted-failures :
      (now : ℕ) (before : BreakerState)
      → let after = counted env.second config now before in
        (after.failures ≡ before.failures + 1)
        × (threshold_of config ≤ before.failures + 1
            → after.open_until ≡ now + cooldown_of env.second config)
  counted-failures now before = ground arith

  exhausted-failed :
      (last : String) (w : GatewayWorld)
      → exhausted env ctx tool c none c.idempotency_key last w
        ≡ (fault (GatewayFault.tool_failed last), w)
  unfolding exhausted
  exhausted-failed last w = rw (repeatable, failing.unhandled, exhausted) refl

  -- One failed attempt.
  attempt_failed :
      (left attempts number : ℕ) (last : String) (w : GatewayWorld)
      → from attempts number (suc left) last w
        ≡ from attempts
            (number + 1)
            left
            (failing.message w)
            (backoff env ctx tool c none c.idempotency_key number attempts (failed w))
  unfolding attempts_from
  attempt_failed left attempts number last w = rw (failing.raised w, attempts_from) refl

  last_attempt :
      (attempts : ℕ) (last : String) (w : GatewayWorld)
      → from attempts attempts 1 last w
        ≡ (fault (GatewayFault.tool_failed (failing.message w)), failed w)
  unfolding attempts_from
  last_attempt attempts last w =
      let awake : backoff env ctx tool c none c.idempotency_key attempts attempts (failed w)
          ≡ failed w =
        ground arith in
      attempt_failed zero attempts attempts last w
      ∙ ap (exhausted env ctx tool c none c.idempotency_key (failing.message w)) awake
      ∙ exhausted-failed (failing.message w) (failed w)

  from-FailedEnds :
      (left attempts number : ℕ) (last : String) (w : GatewayWorld)
      → number + left ≡ attempts
      → FailedEnds env.second tool config (suc left) w (from attempts number (suc left) last w)
  from-FailedEnds zero attempts number last w h =
      let at_end : number ≡ attempts = omega (arith, h) in
      let now = (failed w).monotonic in
      let step = counted-failures now (breaker_of tool w) in
      let shape : from attempts number 1 last w
          ≡ (fault (GatewayFault.tool_failed (failing.message w)), failed w) =
        subst
          (λ n.
            from attempts n 1 last w
            ≡ (fault (GatewayFault.tool_failed (failing.message w)), failed w))
          (sym at_end) (last_attempt attempts last w) in
      subst (λ r. FailedEnds env.second tool config 1 w r) (sym shape)
        (record {
          last = failing.message w;
          failed = refl;
          failures = ap (λ (b : BreakerState). b.failures) (breaker_of-failed w) ∙ step.0;
          opened =
              λ few. ap (λ (b : BreakerState). b.open_until) (breaker_of-failed w) ∙ step.1 few;
        })
  from-FailedEnds (suc left) attempts number last w h =
      let w1 = backoff env ctx tool c none c.idempotency_key number attempts (failed w) in
      let same : breaker_of tool w1
          ≡ counted env.second config (failed w).monotonic (breaker_of tool w) =
        breaker_of-backoff number attempts (failed w) ∙ breaker_of-failed w in
      let step = counted-failures (failed w).monotonic (breaker_of tool w) in
      let rest =
        from-FailedEnds left attempts (number + 1) (failing.message w) w1 (omega (arith, h)) in
      let before : (breaker_of tool w1).failures ≡ (breaker_of tool w).failures + 1 =
        ap (λ (b : BreakerState). b.failures) same ∙ step.0 in
      subst (λ r. FailedEnds env.second tool config (suc (suc left)) w r)
        (sym (attempt_failed (suc left) attempts number last w))
        (record {
          last = rest.last;
          failed = rest.failed;
          failures = omega (arith, rest.failures, before);
          opened = λ few. rest.opened (omega (arith, few, before));
        })

  run_failed :
      (n : ℕ) (w : GatewayWorld) → 1 ≤ n → FailedEnds env.second tool config n w (from n 1 n "" w)
  run_failed zero w h = ground (arith, h)
  run_failed (suc left) w h = from-FailedEnds left (suc left) 1 "" w (omega arith)

-- A call of a read-only tool whose every attempt raises makes all its attempts, `max_attempts` of them
-- and one at least, and then raises `ToolExecutionError`: its circuit breaker counts exactly so many
-- failures more, and once they reach the threshold it is open for the cooldown from the last attempt
-- on. The breaker is on, the tool has no failure handler, and nobody else uses it meanwhile.
pub failing_call_opens_breaker :
    (env : GatewayEnvironment) (ctx : ToolContext) (tool : ToolSpec) (c : ToolCall)
    (config : BreakerConfig) (w : GatewayWorld)
    → tool.operation_type ≡ OperationType.read_only
    → IsFailing env ctx tool c config
    → FailedEnds env.second tool config
        (max 1 tool.retry_policy.max_attempts)
        w
        (call_with_retries env ctx tool c w)
unfolding call_with_retries call_repeatable attempts_of
failing_call_opens_breaker env ctx tool c config w read failing =
    let n = max 1 tool.retry_policy.max_attempts in
    let shape : call_with_retries env ctx tool c w
        ≡ attempts_from env ctx tool c none c.idempotency_key n 1 n "" w =
      rw (read, call_with_retries, call_repeatable, attempts_of) refl in
    subst (λ r. FailedEnds env.second tool config n w r) (sym shape)
      (run_failed env ctx tool c config failing (ap is_side_effecting read) n w (omega arith))
