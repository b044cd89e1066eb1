-- ===== src/Domain/Status.antt =====
-- domain/enums/: the lifecycle states of runs, stages and callbacks, and the error kinds. Two values
-- of an enum are compared by their place in it, which the source does by their texts.
use agent_task_platform.Prelude.{
  ℕ, zero, suc, ◌≡◌, refl, sym, ap, ◌∙◌, ◌↔◌, Bool, true, Eq, nat_beq, nat_beq_iff,
}

pub data RunStatus : Type 0 where
  created queued running waiting_tool retrying agent_succeeded waiting_callback succeeded failed
        timeout canceled :
      RunStatus

pub data ErrorType : Type 0 where
  validation_error route_not_found agent_not_available agent_execution_error tool_timeout
        tool_rate_limited tool_unavailable model_error run_timeout callback_error
        side_effect_outcome_unknown internal_error :
      ErrorType

pub data CallbackStatus : Type 0 where
  pending delivered failed skipped : CallbackStatus

pub data StageStatus : Type 0 where
  pending running succeeded failed canceled outcome_unknown : StageStatus

run_status_rank : RunStatus → ℕ
run_status_rank RunStatus.created = 0
run_status_rank RunStatus.queued = 1
run_status_rank RunStatus.running = 2
run_status_rank RunStatus.waiting_tool = 3
run_status_rank RunStatus.retrying = 4
run_status_rank RunStatus.agent_succeeded = 5
run_status_rank RunStatus.waiting_callback = 6
run_status_rank RunStatus.succeeded = 7
run_status_rank RunStatus.failed = 8
run_status_rank RunStatus.timeout = 9
run_status_rank RunStatus.canceled = 10

of_run_status_rank : ℕ → RunStatus
of_run_status_rank zero = RunStatus.created
of_run_status_rank (suc zero) = RunStatus.queued
of_run_status_rank (suc (suc zero)) = RunStatus.running
of_run_status_rank (suc (suc (suc zero))) = RunStatus.waiting_tool
of_run_status_rank (suc (suc (suc (suc zero)))) = RunStatus.retrying
of_run_status_rank (suc (suc (suc (suc (suc zero))))) = RunStatus.agent_succeeded
of_run_status_rank (suc (suc (suc (suc (suc (suc zero)))))) = RunStatus.waiting_callback
of_run_status_rank (suc (suc (suc (suc (suc (suc (suc zero))))))) = RunStatus.succeeded
of_run_status_rank (suc (suc (suc (suc (suc (suc (suc (suc zero)))))))) = RunStatus.failed
of_run_status_rank (suc (suc (suc (suc (suc (suc (suc (suc (suc zero))))))))) = RunStatus.timeout
of_run_status_rank _ = RunStatus.canceled

of_run_status_rank_inv : (s : RunStatus) → of_run_status_rank (run_status_rank s) ≡ s
unfolding run_status_rank of_run_status_rank
of_run_status_rank_inv RunStatus.created = refl
of_run_status_rank_inv RunStatus.queued = refl
of_run_status_rank_inv RunStatus.running = refl
of_run_status_rank_inv RunStatus.waiting_tool = refl
of_run_status_rank_inv RunStatus.retrying = refl
of_run_status_rank_inv RunStatus.agent_succeeded = refl
of_run_status_rank_inv RunStatus.waiting_callback = refl
of_run_status_rank_inv RunStatus.succeeded = refl
of_run_status_rank_inv RunStatus.failed = refl
of_run_status_rank_inv RunStatus.timeout = refl
of_run_status_rank_inv RunStatus.canceled = refl

unfoldable pub run_status_beq : RunStatus → RunStatus → Bool
unfolding run_status_rank
run_status_beq a b = nat_beq (run_status_rank a) (run_status_rank b)

pub run_status_beq_iff : (a b : RunStatus) → (run_status_beq a b ≡ true) ↔ (a ≡ b)
unfolding run_status_beq
run_status_beq_iff a b = (
  (λ h.
      sym (of_run_status_rank_inv a)
      ∙ ap of_run_status_rank ((nat_beq_iff (run_status_rank a) (run_status_rank b)).0 h)
      ∙ of_run_status_rank_inv b),
  (λ h. (nat_beq_iff (run_status_rank a) (run_status_rank b)).1 (ap run_status_rank h)),
)

instance abbrev pub run_status_eq : Eq RunStatus
run_status_eq = record { eqb = run_status_beq; eqb_iff = run_status_beq_iff }

error_type_rank : ErrorType → ℕ
error_type_rank ErrorType.validation_error = 0
error_type_rank ErrorType.route_not_found = 1
error_type_rank ErrorType.agent_not_available = 2
error_type_rank ErrorType.agent_execution_error = 3
error_type_rank ErrorType.tool_timeout = 4
error_type_rank ErrorType.tool_rate_limited = 5
error_type_rank ErrorType.tool_unavailable = 6
error_type_rank ErrorType.model_error = 7
error_type_rank ErrorType.run_timeout = 8
error_type_rank ErrorType.callback_error = 9
error_type_rank ErrorType.side_effect_outcome_unknown = 10
error_type_rank ErrorType.internal_error = 11

of_error_type_rank : ℕ → ErrorType
of_error_type_rank zero = ErrorType.validation_error
of_error_type_rank (suc zero) = ErrorType.route_not_found
of_error_type_rank (suc (suc zero)) = ErrorType.agent_not_available
of_error_type_rank (suc (suc (suc zero))) = ErrorType.agent_execution_error
of_error_type_rank (suc (suc (suc (suc zero)))) = ErrorType.tool_timeout
of_error_type_rank (suc (suc (suc (suc (suc zero))))) = ErrorType.tool_rate_limited
of_error_type_rank (suc (suc (suc (suc (suc (suc zero)))))) = ErrorType.tool_unavailable
of_error_type_rank (suc (suc (suc (suc (suc (suc (suc zero))))))) = ErrorType.model_error
of_error_type_rank (suc (suc (suc (suc (suc (suc (suc (suc zero)))))))) = ErrorType.run_timeout
of_error_type_rank (suc (suc (suc (suc (suc (suc (suc (suc (suc zero))))))))) =
    ErrorType.callback_error
of_error_type_rank (suc (suc (suc (suc (suc (suc (suc (suc (suc (suc zero)))))))))) =
    ErrorType.side_effect_outcome_unknown
of_error_type_rank _ = ErrorType.internal_error

of_error_type_rank_inv : (s : ErrorType) → of_error_type_rank (error_type_rank s) ≡ s
unfolding error_type_rank of_error_type_rank
of_error_type_rank_inv ErrorType.validation_error = refl
of_error_type_rank_inv ErrorType.route_not_found = refl
of_error_type_rank_inv ErrorType.agent_not_available = refl
of_error_type_rank_inv ErrorType.agent_execution_error = refl
of_error_type_rank_inv ErrorType.tool_timeout = refl
of_error_type_rank_inv ErrorType.tool_rate_limited = refl
of_error_type_rank_inv ErrorType.tool_unavailable = refl
of_error_type_rank_inv ErrorType.model_error = refl
of_error_type_rank_inv ErrorType.run_timeout = refl
of_error_type_rank_inv ErrorType.callback_error = refl
of_error_type_rank_inv ErrorType.side_effect_outcome_unknown = refl
of_error_type_rank_inv ErrorType.internal_error = refl

unfoldable pub error_type_beq : ErrorType → ErrorType → Bool
unfolding error_type_rank
error_type_beq a b = nat_beq (error_type_rank a) (error_type_rank b)

pub error_type_beq_iff : (a b : ErrorType) → (error_type_beq a b ≡ true) ↔ (a ≡ b)
unfolding error_type_beq
error_type_beq_iff a b = (
  (λ h.
      sym (of_error_type_rank_inv a)
      ∙ ap of_error_type_rank ((nat_beq_iff (error_type_rank a) (error_type_rank b)).0 h)
      ∙ of_error_type_rank_inv b),
  (λ h. (nat_beq_iff (error_type_rank a) (error_type_rank b)).1 (ap error_type_rank h)),
)

instance abbrev pub error_type_eq : Eq ErrorType
error_type_eq = record { eqb = error_type_beq; eqb_iff = error_type_beq_iff }

callback_status_rank : CallbackStatus → ℕ
callback_status_rank CallbackStatus.pending = 0
callback_status_rank CallbackStatus.delivered = 1
callback_status_rank CallbackStatus.failed = 2
callback_status_rank CallbackStatus.skipped = 3

of_callback_status_rank : ℕ → CallbackStatus
of_callback_status_rank zero = CallbackStatus.pending
of_callback_status_rank (suc zero) = CallbackStatus.delivered
of_callback_status_rank (suc (suc zero)) = CallbackStatus.failed
of_callback_status_rank _ = CallbackStatus.skipped

of_callback_status_rank_inv :
    (s : CallbackStatus) → of_callback_status_rank (callback_status_rank s) ≡ s
unfolding callback_status_rank of_callback_status_rank
of_callback_status_rank_inv CallbackStatus.pending = refl
of_callback_status_rank_inv CallbackStatus.delivered = refl
of_callback_status_rank_inv CallbackStatus.failed = refl
of_callback_status_rank_inv CallbackStatus.skipped = refl

unfoldable pub callback_status_beq : CallbackStatus → CallbackStatus → Bool
unfolding callback_status_rank
callback_status_beq a b = nat_beq (callback_status_rank a) (callback_status_rank b)

pub callback_status_beq_iff : (a b : CallbackStatus) → (callback_status_beq a b ≡ true) ↔ (a ≡ b)
unfolding callback_status_beq
callback_status_beq_iff a b = (
  (λ h.
      sym (of_callback_status_rank_inv a)
      ∙ ap of_callback_status_rank
          ((nat_beq_iff (callback_status_rank a) (callback_status_rank b)).0 h)
      ∙ of_callback_status_rank_inv b),
  (λ h.
      (nat_beq_iff (callback_status_rank a) (callback_status_rank b)).1
        (ap callback_status_rank h)),
)

instance abbrev pub callback_status_eq : Eq CallbackStatus
callback_status_eq = record { eqb = callback_status_beq; eqb_iff = callback_status_beq_iff }

stage_status_rank : StageStatus → ℕ
stage_status_rank StageStatus.pending = 0
stage_status_rank StageStatus.running = 1
stage_status_rank StageStatus.succeeded = 2
stage_status_rank StageStatus.failed = 3
stage_status_rank StageStatus.canceled = 4
stage_status_rank StageStatus.outcome_unknown = 5

of_stage_status_rank : ℕ → StageStatus
of_stage_status_rank zero = StageStatus.pending
of_stage_status_rank (suc zero) = StageStatus.running
of_stage_status_rank (suc (suc zero)) = StageStatus.succeeded
of_stage_status_rank (suc (suc (suc zero))) = StageStatus.failed
of_stage_status_rank (suc (suc (suc (suc zero)))) = StageStatus.canceled
of_stage_status_rank _ = StageStatus.outcome_unknown

of_stage_status_rank_inv : (s : StageStatus) → of_stage_status_rank (stage_status_rank s) ≡ s
unfolding stage_status_rank of_stage_status_rank
of_stage_status_rank_inv StageStatus.pending = refl
of_stage_status_rank_inv StageStatus.running = refl
of_stage_status_rank_inv StageStatus.succeeded = refl
of_stage_status_rank_inv StageStatus.failed = refl
of_stage_status_rank_inv StageStatus.canceled = refl
of_stage_status_rank_inv StageStatus.outcome_unknown = refl

unfoldable pub stage_status_beq : StageStatus → StageStatus → Bool
unfolding stage_status_rank
stage_status_beq a b = nat_beq (stage_status_rank a) (stage_status_rank b)

pub stage_status_beq_iff : (a b : StageStatus) → (stage_status_beq a b ≡ true) ↔ (a ≡ b)
unfolding stage_status_beq
stage_status_beq_iff a b = (
  (λ h.
      sym (of_stage_status_rank_inv a)
      ∙ ap of_stage_status_rank ((nat_beq_iff (stage_status_rank a) (stage_status_rank b)).0 h)
      ∙ of_stage_status_rank_inv b),
  (λ h. (nat_beq_iff (stage_status_rank a) (stage_status_rank b)).1 (ap stage_status_rank h)),
)

instance abbrev pub stage_status_eq : Eq StageStatus
stage_status_eq = record { eqb = stage_status_beq; eqb_iff = stage_status_beq_iff }
