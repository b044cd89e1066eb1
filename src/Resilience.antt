-- ===== src/Resilience.antt =====
-- framework/tool/resilience.py: the sliding window of a tool's calls and the circuit breaker. The clock
-- is read in ticks, `second` of them to a second, and the reading is an argument. A rate is a
-- fraction, and `len(window) < qps` is read with its denominator on the left.
pub mod Window
pub mod Sleep
pub mod Breaker
use agent_task_platform.Prelude.{
  ℕ, suc, ◌+◌, ◌-◌, ◌*◌, String, Bool, true, false, not, Option, none, some, List, [], ◌∷◌, ◌++◌,
  if◌then◌else◌, ltb, leb, length,
}
use agent_task_platform.Domain.Entities.{Dict, or_else}
use agent_task_platform.Domain.Catalog.{Rate}
use agent_task_platform.World.{dict_get, dict_set}

-- One turn of the loop of `acquire`: the slot is taken, or the call sleeps and tries again.
pub data Turn : Type 0 where
  taken : List ℕ → Turn
  sleeps : ℕ → List ℕ → Turn
  index_error : Turn

module _ (second : ℕ) where
  -- `while window and now - window[0] >= 1: window.popleft()`
  unfoldable pub expire : ℕ → List ℕ → List ℕ
  expire now [] = []
  expire now (t ∷ window) =
      let rest = expire now window in if leb second (now - t) then rest else t ∷ window

  -- `max(0.0, 1 - (now - window[0]))`
  abbrev pub sleep_from : ℕ → List ℕ → Turn
  sleep_from now [] = index_error
  sleep_from now (t ∷ window) = sleeps (second - (now - t)) (t ∷ window)

  unfoldable pub turn : Rate → ℕ → List ℕ → Turn
  turn qps now window =
      let left = expire now window in
      if ltb (length left * qps.per) qps.calls
      then taken (left ++ now ∷ [])
      else sleep_from now left

abbrev pub window_of : String → Dict (List ℕ) → List ℕ
window_of tool_name windows = or_else (dict_get tool_name windows) []

-- A turn of `acquire` at a reading of the clock, with the windows after it and whether it returned.
-- No rate, and a rate of 0, is no limit.
abbrev pub turned : String → Turn → Dict (List ℕ) → Bool × Dict (List ℕ)
turned tool_name (taken window) windows = (true, dict_set tool_name window windows)
turned tool_name (sleeps ticks window) windows = (false, dict_set tool_name window windows)
turned tool_name index_error windows = (false, windows)

unfoldable pub acquire : ℕ → String → Option Rate → ℕ → Dict (List ℕ) → Bool × Dict (List ℕ)
acquire second tool_name none now windows = (true, windows)
acquire second tool_name (some qps) now windows =
    if ltb 0 qps.calls
    then turned tool_name (turn second qps now (window_of tool_name windows)) windows
    else (true, windows)

pub record BreakerState : Type 0 where
  pub failures : ℕ
  pub open_until : ℕ

-- The keys of the tool's `circuit_breaker`, where they are there; an empty dict is none.
pub record BreakerConfig : Type 0 where
  pub enabled : Option Bool
  pub failure_threshold : Option ℕ
  pub cooldown : Option ℕ

-- `_new_breaker_state`
abbrev pub new_breaker_state : BreakerState
new_breaker_state = record { failures = 0; open_until = 0 }

abbrev pub state_of : String → Dict BreakerState → BreakerState
state_of tool_name states = or_else (dict_get tool_name states) new_breaker_state

abbrev pub open_until : String → Dict BreakerState → ℕ
open_until tool_name states = (state_of tool_name states).open_until

abbrev pub threshold_of : BreakerConfig → ℕ
threshold_of config = or_else config.failure_threshold 3

-- The default cooldown is 30 seconds.
abbrev pub cooldown_of : ℕ → BreakerConfig → ℕ
cooldown_of second config = or_else config.cooldown (30 * second)

abbrev pub is_on : BreakerConfig → Bool
is_on config = or_else config.enabled true

-- `record_failure`: the answer and the states after it.
unfoldable pub record_failure :
    ℕ → String → Option BreakerConfig → ℕ → Dict BreakerState → Option ℕ × Dict BreakerState
record_failure second tool_name none now states = (none, states)
record_failure second tool_name (some config) now states =
    let state = state_of tool_name states in
    let failures = state.failures + 1 in
    let until = now + cooldown_of second config in
    if is_on config
    then if leb (threshold_of config) failures
      then (
        some until,
        dict_set tool_name (record { failures = failures; open_until = until }) states,
      )
      else (none, dict_set tool_name (record state { failures = failures }) states)
    else (none, states)

unfoldable pub record_success : String → Dict BreakerState → Dict BreakerState
record_success tool_name states = dict_set tool_name new_breaker_state states

abbrev pub snapshot : String → Dict BreakerState → BreakerState
snapshot tool_name states = state_of tool_name states
