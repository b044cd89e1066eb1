-- ===== src/Coordination.antt =====
-- infra/coordination.py: the slots of `coordination_slot` and `coordination_limited_slot`, and the
-- backend of one process. The body of a slot and whatever runs while a call waits are parameters.
pub mod Postgres
pub mod Values
pub mod Limits
use agent_task_platform.Prelude.{
  ℕ, zero, suc, ◌+◌, ◌-◌, String, Bool, true, false, not, ◌&&◌, Option, none, some, List, [], ◌∷◌,
  ◌==◌, string_eq, if◌then◌else◌, ltb, nat_beq,
}
use Prim.Native.String.{◌++◌}
use agent_task_platform.Domain.Entities.{Dict, or_else}
use agent_task_platform.World.{dict_get, dict_set}

-- `CoordinationBackend`, on the state `W` of its world. A waiting call has a bound of turns.
pub record Backend (W : Type 0) : Type 0 where
  pub acquire : String → ℕ → W → Bool × W
  pub try_acquire : String → W → Bool × W
  pub release : String → W → W

abbrev pub slot_key : (ℕ → String) → String → ℕ → String
slot_key str key index = key ++ ":slot:" ++ str index

module _ {W : Type 0} (backend : Backend W) where
  -- `coordination_slot` around a body, which is told whether the slot was acquired.
  unfoldable pub coordination_slot {ℓ} : {A : Type ℓ} → String → ℕ → (Bool → W → A × W) → W → A × W
  coordination_slot key timeout body w =
      let (acquired, w1) = backend.acquire key timeout w in
      let (a, w2) = body acquired w1 in (a, if acquired then backend.release key w2 else w2)

  module _ (str : ℕ → String) where
    -- `for index in range(limit)`, from an index on: the key of the slot that is acquired.
    unfoldable pub try_slots : String → ℕ → ℕ → W → Option String × W
    try_slots key index zero w = (none, w)
    try_slots key index (suc left) w =
        let (acquired, w1) = backend.try_acquire (slot_key str key index) w in
        elim acquired [
          | true ↦ (some (slot_key str key index), w1)
          | false ↦ try_slots key (index + 1) left w1
        ]

    -- The rounds before the deadline, with what other tasks do between them.
    unfoldable pub acquire_slot : (W → W) → String → ℕ → ℕ → W → Option String × W
    acquire_slot sleep key limit zero w = (none, w)
    acquire_slot sleep key limit (suc rounds) w =
        let (slot, w1) = try_slots key 0 limit w in
        elim slot [ some k ↦ (some k, w1) | none ↦ acquire_slot sleep key limit rounds (sleep w1) ]

    abbrev release_slot : Option String → W → W
    release_slot none w = w
    release_slot (some k) w = backend.release k w

    abbrev is_acquired : Option String → Bool
    is_acquired none = false
    is_acquired (some k) = true

    -- `coordination_limited_slot` around a body; a limit of 0 has no slot.
    unfoldable pub coordination_limited_slot {ℓ} :
        {A : Type ℓ} → (W → W) → String → ℕ → ℕ → (Bool → W → A × W) → W → A × W
    coordination_limited_slot sleep key limit rounds body w =
        if nat_beq limit 0
        then body false w
        else let (slot, w1) = acquire_slot sleep key limit rounds w in
          let (a, w2) = body (is_acquired slot) w1 in (a, release_slot slot w2)

-- `LocalCoordinationBackend`: the value of each semaphore, and the counts of the holders.
pub record LocalState : Type 0 where
  pub semaphores : Dict ℕ
  pub holders : Dict ℕ

-- A semaphore begins with 1.
abbrev pub value_of : String → LocalState → ℕ
value_of key s = or_else (dict_get key s.semaphores) 1

abbrev pub holders_of : String → LocalState → ℕ
holders_of key s = or_else (dict_get key s.holders) 0

abbrev pub set_value : String → ℕ → LocalState → LocalState
set_value key n s = record s { semaphores = dict_set key n s.semaphores }

abbrev pub set_holders : String → ℕ → LocalState → LocalState
set_holders key n s = record s { holders = dict_set key n s.holders }

-- `sem.acquire()` that does not have to wait, or is woken in time.
unfoldable pub take_value : String → LocalState → Bool × LocalState
take_value key s =
    if nat_beq (value_of key s) 0
    then (false, s)
    else (true, set_holders key (holders_of key s + 1) (set_value key (value_of key s - 1) s))

-- `acquire`: a semaphore at 0 is waited for, and other tasks run.
unfoldable pub local_acquire : (LocalState → LocalState) → String → LocalState → Bool × LocalState
local_acquire wait key s =
    let s1 = set_value key (value_of key s) s in
    take_value key (if nat_beq (value_of key s) 0 then wait s1 else s1)

unfoldable pub local_try_acquire : String → LocalState → Bool × LocalState
local_try_acquire key s =
    let s1 = set_value key (value_of key s) s in
    if nat_beq (value_of key s) 0 then (false, s1) else local_acquire (λ s'. s') key s1

unfoldable pub local_release : String → LocalState → LocalState
local_release key s = elim (dict_get key s.semaphores) [
  | none ↦ s
  | some value ↦
      let s1 = if ltb 0 (holders_of key s) then set_holders key (holders_of key s - 1) s else s in
      set_value key (value + 1) s1
]

abbrev pub local_backend : (ℕ → LocalState → LocalState) → Backend LocalState
local_backend wait = record {
  acquire = λ key timeout s. local_acquire (wait timeout) key s;
  try_acquire = local_try_acquire;
  release = local_release;
}
