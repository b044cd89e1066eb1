-- ===== src/Lib.antt =====
-- The agent task platform: runs of agents are submitted, queued in a table, claimed by workers under
-- leases, executed in attempts with durable stages, and reported by callbacks.
--
-- The parts, and the files of this library that model them:
--  - domain/ (entities, enums, retry policy): Domain/Status.antt, Domain/Lifecycle.antt,
--    Domain/Entities.antt.
--  - infra/store/: the tables as lists of rows. Table.antt and Table/Sort.antt are the statements that
--    the repositories send (UPDATE ... WHERE, merge, ORDER BY ... LIMIT), Store/State.antt the tables,
--    Store/Runs.antt, Store/Stages.antt, Store/Callbacks.antt and Store/Listings.antt the repositories of
--    infra/store/repository/run.py, stage.py and callback.py. A method of a repository is a function of
--    the same name from the store to the store, with its answer first. The current time is the field
--    `clock`, so a method reads one time.
--  - orchestration/callback_service.py: Callback.antt (preparation), Callback/Deliver.antt (dispatch).
--  - orchestration/run_executor.py: Executor.antt, Executor/Steps.antt, Executor/Outcome.antt. `execute`
--    is the method; `attempt_once` is a round of the attempt loop, `conclude` the try statement,
--    `classify` its except clauses, `finish` what follows the loop.
--  - orchestration/manager.py: Manager.antt, Manager/Cancellation.antt (`cancel`), Manager/Recovery.antt
--    (`recover_incomplete`, `reclaim_expired_leases`), Manager/Requests.antt (`submit`, `run_now` and the
--    callbacks), with one function for each method, and World.antt, the dictionaries that a process
--    shares beside the store.
--  - orchestration/run_service.py and conversation_service.py: Submission.antt.
--  - framework/runtime/stage_runner.py: StageRunner.antt. `run_stage` is the method, `resume` what follows
--    the row that get_or_create gives, `execute` what follows a begun attempt, `conclude` its try
--    statement.
--  - framework/registry.py: Registry.antt (the newest version), Registry/Agents.antt, Registry/Tools.antt,
--    Registry/Skills.antt, with one function for each method; Domain/Catalog.antt has the tools and skills
--    of domain/.
--  - framework/tool/tools.py: ToolGateway.antt (the durable operation of a side-effecting tool),
--    ToolGateway/Attempts.antt (`call_with_retries`; `attempt` is the body of its try statement,
--    `exhausted` what follows its loop), ToolGateway/Call.antt (`call`, before the attempts),
--    ToolProtocols.antt and ToolProtocols/Invoke.antt (`_invoke`).
--  - infra/coordination.py: Coordination.antt (the slots, and the backend of one process),
--    Coordination/Postgres.antt.
--  - orchestration/scheduler.py: Scheduler.antt (what a run waits for), Scheduler/Steps.antt (the steps
--    of `run_with_limits`).
--  - framework/tool/resilience.py: Resilience.antt. `turn` is one pass of the loop of `acquire`.
--  - infra/rate_limiter.py: RateLimiter.antt.
--  - framework/tool/guardrails.py and error_handlers.py: Guardrails.antt.
--  - Tests.antt and its children: concrete data, and the theorems at work on it.
--
-- How the parts interact: the manager claims rows of the run table and starts executions; an execution
-- writes its row only by `update_if_current` under its owner's name, and asks the callback service to
-- prepare a delivery; the callback service settles the run when the delivery is acknowledged; cancel,
-- retry and the sweeps of the manager write the same rows. Other tasks and processes act wherever the
-- source awaits, or between two transactions: an argument (`other`, or the functions of `Network` and
-- `Environment`) transforms the store there, and theorems say what they ask of it.
--
-- A stage runner works on the rows of its run's stages under an execution token. The registries and
-- the window and breaker of the tools hold state of one process; each of their calls, or each turn of
-- one, is one step under a lock, and theorems about them speak of any sequence of calls. A call of the
-- rate limiter is two steps that no lock joins, between which other calls take theirs. The tool gateway
-- takes the registry's tools, the window and the breaker, and writes a side effect's stage by the
-- repository of the stages. The scheduler's calls take their steps in any order; a step is what a call
-- does between two waits, or a part of it.
--
-- Parameters stand for what is outside: the agent runtime's outcome, hooks and error handlers
-- (`Environment`), the HTTP client, its hook and the acknowledgement's text (`Network`), URL policy and time
-- format (`Services`), generated ids (`FreshIds`, `fresh`), the answers of the agent registry and the
-- skill runtime (`resolve`, `route`) where a run is submitted or executed, the order of versions
-- (`newer`), the operation and the hooks of a stage (`StageEnvironment`), the endpoints of tools
-- (`Protocols`), schemas, hashes, guardrails, handlers and hooks of the gateway (`GatewayEnvironment`,
-- whose hooks and handlers return), the body of a slot, and SHA-256.
--
-- Loops: the attempt loops of executor and callbacks recurse on the number of rounds that `range` has;
-- `cancel` follows the tree of child runs to a depth given as its first argument, at most ten tries for
-- each row as in the source; `transact` makes the two tries of the source. The attempts of a tool are
-- as many as `attempts_of` gives; a call waits for its rate, a slot or a lock at most the turns that
-- its deadline or its caller's patience allows, and is answered as waiting or refused then. The chain of
-- active ancestors has a bound of one step for each holder, which is enough where it has no circle.
--
-- Not modelled: the worker's loop, hook dispatch and the transport of tools, model gateway and runtime
-- adapters, skill loading and scripts, configuration, HTTP and command line; of the registries the sorted
-- listings, the reading of YAML files and the checks by JSON schema, which are a library's; of the
-- scheduler the order in which waiting calls are woken, and its steps with a backend of a wider scope;
-- database statements that fail. The limiters' clock is read
-- in ticks and their numbers are exact: the rounding of floating-point numbers is not modelled.
-- Numbers of seconds are natural numbers. The database's isolation is taken as: each statement or
-- transaction is one step. An execution is the only one of its run in its process, so the cancellation
-- event under its run id is its own.
pub mod Prelude
pub mod Domain
pub mod Table
pub mod Store
pub mod Callback
pub mod World
pub mod Executor
pub mod Manager
pub mod Submission
pub mod StageRunner
pub mod Registry
pub mod Resilience
pub mod Guardrails
pub mod RateLimiter
pub mod ToolProtocols
pub mod ToolGateway
pub mod Coordination
pub mod Scheduler
pub mod Tests
