-- ===== src/Coordination/Limits.antt =====
-- infra/coordination.py: how many bodies are inside `coordination_limited_slot` of one process at once.
use agent_task_platform.Prelude.{
  ℕ, zero, suc, ◌-◌, true, ◌+◌, ◌≤◌, String, ◌≡◌, refl, sym, ◌∙◌, ap, subst, false, Option, none,
  some, List, [], ◌∷◌, arith, ◌==◌, string_eq, if◌then◌else◌, nat_beq, inl, inr, Bool-cases,
}
use agent_task_platform.World.{dict_get}
use agent_task_platform.Coordination.{
  Backend, LocalState, value_of, local_backend, slot_key, try_slots,
}
use agent_task_platform.Coordination.Values.{try_acquire_taken, try_acquire_free, release-value}

-- What a backend promises that keeps a mutex for each key: a key at 0 is refused and nothing changes, a
-- key that is not at 0 is granted and goes down, and a release lets a key at 0 go up, no other key
-- changing. The values begin at 1.
pub record IsMutex {W : Type 0} (backend : Backend W) (start : W) : Type 0 where
  pub value : String → W → ℕ
  pub fresh : (k : String) → value k start ≡ 1
  pub refused :
      (k j : String) (w : W)
      → value k w ≡ 0
      → let r = backend.try_acquire k w in (r.0 ≡ false) × (value j r.1 ≡ value j w)
  pub free_granted :
      (k j : String) (w : W)
      → nat_beq (value k w) 0 ≡ false
      → let r = backend.try_acquire k w in
        (r.0 ≡ true) × (value j r.1 ≡ (if k == j then value k w - 1 else value j w))
  pub left_free :
      (k j : String) (w : W)
      → value k w ≡ 0
      → value j (backend.release k w) ≡ (if k == j then value j w + 1 else value j w)

abbrev pub initial : LocalState
initial = record { semaphores = []; holders = [] }

-- The backend of one process is one.
pub local_backend-IsMutex :
    (wait : ℕ → LocalState → LocalState) → IsMutex (local_backend wait) initial
unfolding dict_get
local_backend-IsMutex wait = record {
  value = value_of;
  fresh = λ k. refl;
  refused = try_acquire_taken;
  free_granted = try_acquire_free;
  left_free = release-value;
}

unfoldable pub count : String → List String → ℕ
count k [] = 0
count k (j ∷ keys) = let rest = count k keys in if j == k then suc rest else rest

unfoldable pub remove_one : String → List String → List String
remove_one k [] = []
remove_one k (j ∷ keys) = let rest = remove_one k keys in if j == k then keys else j ∷ rest

-- A body that asks for one of the slots of a key, and one that leaves the slot that it has.
pub data SlotEvent : Type 0 where
  asks : String → ℕ → SlotEvent
  leaves : String → SlotEvent

abbrev pub admitted : Option String → List String → List String
admitted none inside = inside
admitted (some k) inside = k ∷ inside

-- The state of the backend, and the slots of the bodies that are inside.
module _ {W : Type 0} (str : ℕ → String) (backend : Backend W) (start : W) where
  abbrev pub ask : String → ℕ → W → Option String × W
  ask key limit w = try_slots backend str key 0 limit w

  unfoldable pub step : SlotEvent → W × List String → W × List String
  step (asks key limit) (w, inside) = let (slot, w1) = ask key limit w in (w1, admitted slot inside)
  step (leaves k) (w, inside) =
      if nat_beq (count k inside) 0 then (w, inside) else (backend.release k w, remove_one k inside)

  -- The latest event stands first.
  unfoldable pub history : List SlotEvent → W × List String
  history [] = (start, [])
  history (e ∷ earlier) = step e (history earlier)

-- The bodies inside the slots of a key, from an index on.
unfoldable pub in_use : (ℕ → String) → String → ℕ → ℕ → List String → ℕ
in_use str key index zero inside = 0
in_use str key index (suc left) inside =
    count (slot_key str key index) inside + in_use str key (index + 1) left inside

pub count-remove_one :
    (k other : String) (inside : List String)
    → nat_beq (count k inside) 0 ≡ false
    → count other inside ≡ (
        if k == other
        then suc (count other (remove_one k inside))
        else count other (remove_one k inside))
unfolding count remove_one
count-remove_one k other [] h = ground (arith, h)
count-remove_one k other (j ∷ inside) h = ground (
  arith,
  h,
  count-remove_one k other inside,
  string_eq.eqb_iff j k,
  string_eq.eqb_iff k other,
  string_eq.eqb_iff j other,
)

in_use-bounded :
    (str : ℕ → String) (key : String) (left index : ℕ) (inside : List String)
    → ((k : String) → count k inside ≤ 1)
    → in_use str key index left inside ≤ left
unfolding in_use
in_use-bounded str key zero index inside b = omega arith
in_use-bounded str key (suc left) index inside b =
    omega (arith, in_use-bounded str key left (index + 1) inside b, b (slot_key str key index))

module _ {W : Type 0} (backend : Backend W) (start : W) (m : IsMutex backend start) where
  -- Each key is at 1 without a body inside, else at 0.
  abbrev Balanced : W → List String → Type 0
  Balanced w inside = (k : String) → m.value k w + count k inside ≡ 1

  entered-balance :
      (k j : String) (w : W) (inside : List String)
      → nat_beq (m.value k w) 0 ≡ false
      → m.value k w + count k inside ≡ 1
      → m.value j w + count j inside ≡ 1
      → m.value j (backend.try_acquire k w).1 + count j (k ∷ inside) ≡ 1
  unfolding count
  entered-balance k j w inside e own other =
      ground (arith, e, own, other, (m.free_granted k j w e).1, string_eq.eqb_iff k j)

  left-balance :
      (k j : String) (w : W) (inside : List String)
      → nat_beq (count k inside) 0 ≡ false
      → m.value k w + count k inside ≡ 1
      → m.value j w + count j inside ≡ 1
      → m.value j (backend.release k w) + count j (remove_one k inside) ≡ 1
  left-balance k j w inside e own other =
      let zero_value : m.value k w ≡ 0 = ground (arith, e, own) in
      ground (arith, other, m.left_free k j w zero_value, count-remove_one k j inside e)

  module _ (str : ℕ → String) where
    -- The slots from an index on: one is acquired, or all have a body inside.
    record Tried (key : String) (index left : ℕ) (w : W) (inside : List String) : Type 0 where
      balanced :
          let r = try_slots backend str key index left w in Balanced r.1 (admitted r.0 inside)
      full :
          (try_slots backend str key index left w).0 ≡ none
          → in_use str key index left inside ≡ left

    try_slots-Tried :
        (left index : ℕ) (key : String) (w : W) (inside : List String)
        → Balanced w inside
        → Tried key index left w inside
    unfolding try_slots in_use
    try_slots-Tried zero index key w inside b = record { balanced = b; full = λ h. refl }
    try_slots-Tried (suc left) index key w inside b =
        let k = slot_key str key index in
        let w1 = (backend.try_acquire k w).1 in
        elim (Bool-cases (nat_beq (m.value k w) 0)) [
          | inl e ↦
              let zero_value : m.value k w ≡ 0 = ground (arith, e) in
              let shape : try_slots backend str key index (suc left) w
                  ≡ try_slots backend str key (index + 1) left w1 =
                rw ((m.refused k k w zero_value).0, try_slots) refl in
              let rest =
                try_slots-Tried left (index + 1) key w1 inside
                  (λ j. ap (λ n. n + count j inside) (m.refused k j w zero_value).1 ∙ b j) in
              record {
                balanced =
                    subst (λ (r : Option String × W). Balanced r.1 (admitted r.0 inside))
                      (sym shape) rest.balanced;
                full = λ h. omega (
                  arith,
                  rest.full (ap (λ (r : Option String × W). r.0) (sym shape) ∙ h),
                  b k,
                  zero_value,
                );
              }
          | inr e ↦
              let shape : try_slots backend str key index (suc left) w ≡ (some k, w1) =
                rw ((m.free_granted k k w e).0, try_slots) refl in
              record {
                balanced =
                    subst (λ (r : Option String × W). Balanced r.1 (admitted r.0 inside))
                      (sym shape) (λ j. entered-balance k j w inside e (b k) (b j));
                full = λ h. ground (arith, h, ap (λ (r : Option String × W). r.0) shape);
              }
        ]

    history-Balanced :
        (events : List SlotEvent)
        → let (w, inside) = history str backend start events in Balanced w inside
    unfolding history step count
    history-Balanced [] = λ k. omega (arith, m.fresh k)
    history-Balanced (asks key limit ∷ earlier) =
        let (w, inside) = history str backend start earlier in
        (try_slots-Tried limit 0 key w inside (history-Balanced earlier)).balanced
    history-Balanced (leaves k ∷ earlier) =
        let (w, inside) = history str backend start earlier in
        let before : Balanced w inside = history-Balanced earlier in
        elim (Bool-cases (nat_beq (count k inside) 0)) [
          | inl e ↦ λ j. rw e (before j)
          | inr e ↦ λ j. rw e (left-balance k j w inside e (before k) (before j))
        ]

pub limited_slots_bounded :
    {W : Type 0} (backend : Backend W) (start : W) (m : IsMutex backend start) (str : ℕ → String)
    (events : List SlotEvent) (key : String) (limit : ℕ)
    → let (w, inside) = history str backend start events in
      (in_use str key 0 limit inside ≤ limit)
      × ((ask str backend start key limit w).0 ≡ none → in_use str key 0 limit inside ≡ limit)
limited_slots_bounded backend start m str events key limit =
    let (w, inside) = history str backend start events in
    let balanced = history-Balanced backend start m str events in
    (
      in_use-bounded str key limit 0 inside (λ k. omega (arith, balanced k)),
      (try_slots-Tried backend start m str limit 0 key w inside balanced).full,
    )
