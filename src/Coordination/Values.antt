-- ===== src/Coordination/Values.antt =====
-- infra/coordination.py, `LocalCoordinationBackend`: the values of the semaphores after each operation.
use agent_task_platform.Prelude.{
  ℕ, ◌+◌, ◌-◌, String, ◌≡◌, refl, ◌∙◌, ap, Bool, true, false, arith, ◌==◌, string_eq, if◌then◌else◌,
  nat_beq, ltb, inl, inr, Option-cases,
}
use agent_task_platform.World.{dict_get}
use agent_task_platform.World.Dicts.{dict_get-dict_set}
use agent_task_platform.Coordination.{
  LocalState, value_of, holders_of, set_value, set_holders, take_value, local_acquire,
  local_try_acquire, local_release,
}

value_of-set_value :
    (key other : String) (n : ℕ) (s : LocalState)
    → value_of other (set_value key n s) ≡ (if key == other then n else value_of other s)
value_of-set_value key other n s = ground (arith, dict_get-dict_set key other n s.semaphores)

own_value : (key : String) (n : ℕ) (s : LocalState) → value_of key (set_value key n s) ≡ n
own_value key n s = ground (arith, value_of-set_value key key n s, string_eq.eqb_iff key key)

-- `setdefault` changes no value.
default-value :
    (key other : String) (s : LocalState)
    → value_of other (set_value key (value_of key s) s) ≡ value_of other s
default-value key other s = ground (
  arith,
  value_of-set_value key other (value_of key s) s,
  string_eq.eqb_iff key other,
  λ (g : key ≡ other). ap (λ k. value_of k s) g,
)

-- A slot whose semaphore is at 0 is not acquired, and no value changes.
pub try_acquire_taken :
    (key other : String) (s : LocalState)
    → value_of key s ≡ 0
    → let r = local_try_acquire key s in (r.0 ≡ false) × (value_of other r.1 ≡ value_of other s)
unfolding local_try_acquire
try_acquire_taken key other s h =
    let at_zero : nat_beq (value_of key s) 0 ≡ true = ground (arith, h) in
    let shape : local_try_acquire key s ≡ (false, set_value key (value_of key s) s) =
      rw (at_zero, local_try_acquire) refl in
    (
      ap (λ (r : Bool × LocalState). r.0) shape,
      ap (λ (r : Bool × LocalState). value_of other r.1) shape ∙ default-value key other s,
    )

taken-value :
    (key other : String) (s : LocalState)
    → nat_beq (value_of key s) 0 ≡ false
    → let r = take_value key s in
      (r.0 ≡ true)
      × (value_of other r.1 ≡ (if key == other then value_of key s - 1 else value_of other s))
unfolding take_value
taken-value key other s h =
    let shape : take_value key s
        ≡ (true, set_holders key (holders_of key s + 1) (set_value key (value_of key s - 1) s)) =
      rw (h, take_value) refl in
    (
      ap (λ (r : Bool × LocalState). r.0) shape,
      ap (λ (r : Bool × LocalState). value_of other r.1) shape
          ∙ value_of-set_value key other (value_of key s - 1) s,
    )

either_same : (b : Bool) (s : LocalState) → (if b then s else s) ≡ s
either_same true s = refl
either_same false s = refl

-- A slot whose semaphore is not at 0 is acquired, and its value goes down by 1.
pub try_acquire_free :
    (key other : String) (s : LocalState)
    → nat_beq (value_of key s) 0 ≡ false
    → let r = local_try_acquire key s in
      (r.0 ≡ true)
      × (value_of other r.1 ≡ (if key == other then value_of key s - 1 else value_of other s))
unfolding local_try_acquire local_acquire
try_acquire_free key other s h =
    let s1 = set_value key (value_of key s) s in
    let s2 = set_value key (value_of key s1) s1 in
    let shape : local_try_acquire key s ≡ local_acquire (λ s'. s') key s1 =
      rw (h, local_try_acquire) refl in
    let whole : local_try_acquire key s ≡ take_value key s2 =
      shape ∙ ap (take_value key) (either_same (nat_beq (value_of key s1) 0) s2) in
    let kept : value_of key s2 ≡ value_of key s =
      own_value key (value_of key s1) s1 ∙ own_value key (value_of key s) s in
    let taken = taken-value key other s2 (ap (λ n. nat_beq n 0) kept ∙ h) in
    let others : value_of other s2 ≡ value_of other s =
      default-value key other s1 ∙ default-value key other s in
    (
      ap (λ (r : Bool × LocalState). r.0) whole ∙ taken.0,
      ap (λ (r : Bool × LocalState). value_of other r.1) whole ∙ taken.1 ∙ (rw (kept, others) refl),
    )

pub release-value :
    (key other : String) (s : LocalState)
    → value_of key s ≡ 0
    → value_of other (local_release key s)
      ≡ (if key == other then value_of other s + 1 else value_of other s)
unfolding local_release
release-value key other s h = elim (Option-cases (dict_get key s.semaphores)) [
  | inl e ↦ ground (arith, h, e)
  | inr (v, e) ↦
      let s1 = if ltb 0 (holders_of key s) then set_holders key (holders_of key s - 1) s else s in
      let shape : local_release key s ≡ set_value key (v + 1) s1 = rw (e, local_release) refl in
      let others : value_of other s1 ≡ value_of other s = ground arith in
      let own : value_of key s ≡ v = rw e refl in
      ap (value_of other) shape
      ∙ value_of-set_value key other (v + 1) s1
      ∙ ground (
        arith,
        own,
        others,
        string_eq.eqb_iff key other,
        λ (g : key ≡ other). ap (λ k. value_of k s) g,
      )
]
