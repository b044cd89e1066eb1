-- ===== src/Resilience/Breaker.antt =====
-- framework/tool/resilience.py, `CircuitBreaker`: when the breaker of a tool is open, after any events.
use agent_task_platform.Prelude.{
  ℕ, ◌+◌, String, ◌≡◌, refl, sym, ◌∙◌, true, false, ◌&&◌, some, List, [], ◌∷◌, if◌then◌else◌, ltb,
  leb, inl, inr, Bool-cases, arith, ◌==◌, string_eq, ap, subst,
}
use agent_task_platform.Domain.Entities.{Dict}
use agent_task_platform.World.{dict_get, dict_set}
use agent_task_platform.World.Dicts.{dict_get-dict_set}
use agent_task_platform.Resilience.{
  BreakerState, BreakerConfig, new_breaker_state, state_of, open_until, threshold_of, cooldown_of,
  is_on, record_failure, record_success,
}

-- What happened to a tool's call, the failure with its reading of the clock.
pub data Event : Type 0 where
  succeeded : String → Event
  failed : String → ℕ → Event

module _ (second : ℕ) (config : BreakerConfig) where
  abbrev event : Event → Dict BreakerState → Dict BreakerState
  event (succeeded name) states = record_success name states
  event (failed name now) states = (record_failure second name (some config) now states).1

  -- The latest event stands first.
  abbrev pub events : List Event → Dict BreakerState
  events [] = []
  events (e ∷ earlier) = event e (events earlier)

-- The failures of a tool since its last success, and the latest of them.
abbrev pub failures_in_a_row : String → List Event → ℕ
failures_in_a_row name [] = 0
failures_in_a_row name (succeeded other ∷ earlier) =
    if other == name then 0 else failures_in_a_row name earlier
failures_in_a_row name (failed other now ∷ earlier) =
    let rest = failures_in_a_row name earlier in if other == name then rest + 1 else rest

abbrev pub last_failure : String → List Event → ℕ
last_failure name [] = 0
last_failure name (succeeded other ∷ earlier) = last_failure name earlier
last_failure name (failed other now ∷ earlier) =
    if other == name then now else last_failure name earlier

state_of-dict_set :
    (name other : String) (s : BreakerState) (states : Dict BreakerState)
    → state_of other (dict_set name s states) ≡ (if name == other then s else state_of other states)
state_of-dict_set name other s states = ground (arith, dict_get-dict_set name other s states)

-- A failure, as it changes the state of its own tool.
abbrev pub counted : ℕ → BreakerConfig → ℕ → BreakerState → BreakerState
counted second config now s =
    if leb (threshold_of config) (s.failures + 1)
    then record { failures = s.failures + 1; open_until = now + cooldown_of second config }
    else record s { failures = s.failures + 1 }

pub state_of-record_failure :
    (second : ℕ) (config : BreakerConfig) (name other : String) (now : ℕ)
    (states : Dict BreakerState)
    → is_on config ≡ true
    → state_of name (record_failure second other (some config) now states).1 ≡ (
        if other == name
        then counted second config now (state_of name states)
        else state_of name states)
unfolding record_failure
state_of-record_failure second config name other now states on =
    elim (Bool-cases (leb (threshold_of config) ((state_of other states).failures + 1))) [
      | inl e ↦
          let s : BreakerState = record {
            failures = (state_of other states).failures + 1;
            open_until = now + cooldown_of second config;
          } in
          let set : (record_failure second other (some config) now states).1
              ≡ dict_set other s states =
            simp (record_failure, on, e) in
          ap (state_of name) set ∙ state_of-dict_set other name s states ∙ own e
      | inr e ↦
          let s : BreakerState = record (state_of other states) {
            failures = (state_of other states).failures + 1;
          } in
          let set : (record_failure second other (some config) now states).1
              ≡ dict_set other s states =
            simp (record_failure, on, e) in
          ap (state_of name) set ∙ state_of-dict_set other name s states ∙ own' e
    ]
  where
    own :
        leb (threshold_of config) ((state_of other states).failures + 1) ≡ true
        → (if other == name
            then record {
              failures = (state_of other states).failures + 1;
              open_until = now + cooldown_of second config;
            }
            else state_of name states)
          ≡ (if other == name
              then counted second config now (state_of name states)
              else state_of name states)
    own e = elim (Bool-cases (other == name)) [
      | inl g ↦ rw (g, ← (string_eq.eqb_iff other name).0 g) (simp e)
      | inr g ↦ rw (g) refl
    ]

    own' :
        leb (threshold_of config) ((state_of other states).failures + 1) ≡ false
        → (if other == name
            then record (state_of other states) { failures = (state_of other states).failures + 1 }
            else state_of name states)
          ≡ (if other == name
              then counted second config now (state_of name states)
              else state_of name states)
    own' e = elim (Bool-cases (other == name)) [
      | inl g ↦ rw (g, ← (string_eq.eqb_iff other name).0 g) (simp e)
      | inr g ↦ rw (g) refl
    ]

-- What a state says of the failures in a row and the latest of them.
abbrev Tells : ℕ → BreakerConfig → ℕ → ℕ → BreakerState → Type 0
Tells second config count latest s =
    (s.failures ≡ count)
    × (s.open_until ≡ (
        if ltb 0 count && leb (threshold_of config) count
        then latest + cooldown_of second config
        else 0))

counted-Tells :
    (second : ℕ) (config : BreakerConfig) (now count latest : ℕ) (s : BreakerState)
    → Tells second config count latest s
    → Tells second config (count + 1) now (counted second config now s)
counted-Tells second config now count latest s (row, until) =
    elim (Bool-cases (leb (threshold_of config) (s.failures + 1))) [
      | inl e ↦
          let shape : counted second config now s
              ≡ record { failures = s.failures + 1; open_until = now + cooldown_of second config } =
            simp (counted, e) in
          subst (Tells second config (count + 1) now) (sym shape)
            (ap (λ n. n + 1) row, ground (arith, e, row))
      | inr e ↦
          let shape : counted second config now s ≡ record s { failures = s.failures + 1 } =
            simp (counted, e) in
          subst (Tells second config (count + 1) now) (sym shape)
            (ap (λ n. n + 1) row, ground (arith, e, row, until))
    ]

-- Where the breaker is on, it counts the tool's failures since its last success, and it is open until a
-- cooldown after the latest of them exactly when they have reached the threshold: otherwise it is
-- closed. Events of other tools change nothing.
pub breaker_opens_at_threshold :
    (second : ℕ) (config : BreakerConfig) (history : List Event) (name : String)
    → is_on config ≡ true
    → ((state_of name (events second config history)).failures ≡ failures_in_a_row name history)
      × (open_until name (events second config history) ≡ (
          if ltb 0 (failures_in_a_row name history)
            && leb (threshold_of config) (failures_in_a_row name history)
          then last_failure name history + cooldown_of second config
          else 0))
unfolding dict_get record_success dict_set
breaker_opens_at_threshold second config [] name on = (refl, refl)
breaker_opens_at_threshold second config (succeeded other ∷ earlier) name on =
    subst (Tells second config _ _)
      (sym (state_of-dict_set other name new_breaker_state (events second config earlier)))
      (by_name (breaker_opens_at_threshold second config earlier name on))
  where
    by_name :
        Tells second config
          (failures_in_a_row name earlier)
          (last_failure name earlier)
          (state_of name (events second config earlier))
        → Tells second config
            (failures_in_a_row name (succeeded other ∷ earlier))
            (last_failure name earlier)
            (if other == name
              then new_breaker_state
              else state_of name (events second config earlier))
    by_name h = elim (Bool-cases (other == name)) [ inl g ↦ rw (g) (refl, refl) | inr g ↦ rw (g) h ]
breaker_opens_at_threshold second config (failed other now ∷ earlier) name on =
    subst (Tells second config _ _)
      (sym (state_of-record_failure second config name other now (events second config earlier) on))
      (by_name (breaker_opens_at_threshold second config earlier name on))
  where
    by_name :
        Tells second config
          (failures_in_a_row name earlier)
          (last_failure name earlier)
          (state_of name (events second config earlier))
        → Tells second config
            (failures_in_a_row name (failed other now ∷ earlier))
            (last_failure name (failed other now ∷ earlier))
            (if other == name
              then counted second config now (state_of name (events second config earlier))
              else state_of name (events second config earlier))
    by_name h = elim (Bool-cases (other == name)) [
      | inl g ↦ rw (g) (
          counted-Tells second config now (failures_in_a_row name earlier)
            (last_failure name earlier) (state_of name (events second config earlier)) h)
      | inr g ↦ rw (g) h
    ]
