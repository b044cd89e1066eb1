-- ===== src/Domain/Lifecycle.antt =====
-- domain/enums/run.py and error.py: the sets of statuses and of error kinds.
-- of an enum are compared by their place in it, which the source does by their texts.
use agent_task_platform.Prelude.{◌≡◌, refl, Bool, true, false, List, [], ◌∷◌, not, contains}
use agent_task_platform.Domain.Status.{
  run_status_eq, error_type_eq, RunStatus, ErrorType, run_status_beq, error_type_beq,
}

abbrev pub executing_run_statuses : List RunStatus
executing_run_statuses = RunStatus.running ∷ RunStatus.waiting_tool ∷ RunStatus.retrying ∷ []

abbrev pub terminal_run_statuses : List RunStatus
terminal_run_statuses =
    RunStatus.succeeded ∷ RunStatus.failed ∷ RunStatus.timeout ∷ RunStatus.canceled ∷ []

abbrev pub non_retryable_errors : List ErrorType
non_retryable_errors =
    ErrorType.validation_error ∷ ErrorType.route_not_found ∷ ErrorType.side_effect_outcome_unknown
    ∷ []

unfoldable pub is_retryable : ErrorType → Bool
unfolding contains error_type_beq
is_retryable e = not (contains non_retryable_errors e)

abbrev pub is_queued : RunStatus → Bool
is_queued RunStatus.queued = true
is_queued _ = false

abbrev pub is_executing : RunStatus → Bool
is_executing RunStatus.running = true
is_executing RunStatus.waiting_tool = true
is_executing RunStatus.retrying = true
is_executing _ = false

abbrev pub is_terminal : RunStatus → Bool
is_terminal RunStatus.succeeded = true
is_terminal RunStatus.failed = true
is_terminal RunStatus.timeout = true
is_terminal RunStatus.canceled = true
is_terminal _ = false

pub contains-executing : (s : RunStatus) → contains executing_run_statuses s ≡ is_executing s
unfolding contains run_status_beq
contains-executing RunStatus.created = refl
contains-executing RunStatus.queued = refl
contains-executing RunStatus.running = refl
contains-executing RunStatus.waiting_tool = refl
contains-executing RunStatus.retrying = refl
contains-executing RunStatus.agent_succeeded = refl
contains-executing RunStatus.waiting_callback = refl
contains-executing RunStatus.succeeded = refl
contains-executing RunStatus.failed = refl
contains-executing RunStatus.timeout = refl
contains-executing RunStatus.canceled = refl

pub contains-terminal : (s : RunStatus) → contains terminal_run_statuses s ≡ is_terminal s
unfolding contains run_status_beq
contains-terminal RunStatus.created = refl
contains-terminal RunStatus.queued = refl
contains-terminal RunStatus.running = refl
contains-terminal RunStatus.waiting_tool = refl
contains-terminal RunStatus.retrying = refl
contains-terminal RunStatus.agent_succeeded = refl
contains-terminal RunStatus.waiting_callback = refl
contains-terminal RunStatus.succeeded = refl
contains-terminal RunStatus.failed = refl
contains-terminal RunStatus.timeout = refl
contains-terminal RunStatus.canceled = refl
