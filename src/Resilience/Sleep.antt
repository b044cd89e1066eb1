-- ===== src/Resilience/Sleep.antt =====
-- framework/tool/resilience.py, `QpsLimiter.acquire`: a call that sleeps gets its slot.
use native.Mathlib.Nat.{mul-le-mul_right}
use agent_task_platform.Prelude.{
  ℕ, suc, ◌*◌, ◌+◌, ◌-◌, ◌≤◌, ◌<◌, ◌≡◌, refl, sym, ◌∙◌, true, List, [], ◌∷◌, ◌++◌, ltb, leb, inl,
  inr, Bool-cases, arith, length, string_eq, All,
}
use agent_task_platform.Domain.Catalog.{Rate}
use agent_task_platform.Resilience.{taken, sleeps, expire, turn, sleep_from}

length-expire :
    (second now : ℕ) (window : List ℕ) → length (expire second now window) ≤ length window
unfolding expire
length-expire second now [] = omega arith
length-expire second now (t ∷ window) = ground (arith, length-expire second now window)

All-expire :
    (second now limit : ℕ) (window : List ℕ)
    → All (λ t. t ≤ limit) window
    → All (λ t. t ≤ limit) (expire second now window)
unfolding expire
All-expire second now limit [] h = tt
All-expire second now limit (t ∷ window) h = elim (Bool-cases (leb second (now - t))) [
  | inl e ↦ rw (e) (All-expire second now limit window h.1)
  | inr e ↦ rw (e) h
]

-- A call that sleeps for what the window says, and finds it as it left it, gets its slot on the next
-- turn. The window holds earlier readings, fewer of them than the rate and
-- one more.
pub sleeper_gets_slot :
    (second : ℕ) (qps : Rate) (now ticks later : ℕ) (window left : List ℕ)
    → 0 < second
    → All (λ t. t ≤ now) window
    → length window * qps.per < qps.calls + qps.per
    → turn second qps now window ≡ sleeps ticks left
    → now + ticks ≤ later
    → turn second qps later left ≡ taken (expire second later left ++ later ∷ [])
unfolding turn expire
sleeper_gets_slot second qps now ticks later window left real past few slept woke =
    elim (Bool-cases (ltb (length (expire second now window) * qps.per) qps.calls)) [
      | inl e ↦
          let here : turn second qps now window ≡ taken (expire second now window ++ now ∷ []) =
            rw (turn, e) refl in
          cc
      | inr e ↦
          let here : turn second qps now window ≡ sleep_from second now (expire second now window) =
            rw (turn, e) refl in
          by_rest (expire second now window) (length-expire second now window)
            (All-expire second now now window past) (sym here ∙ slept)
    ]
  where
    by_rest :
        (rest : List ℕ)
        → length rest ≤ length window
        → All (λ t. t ≤ now) rest
        → sleep_from second now rest ≡ sleeps ticks left
        → turn second qps later left ≡ taken (expire second later left ++ later ∷ [])
    by_rest [] short old e = cc
    by_rest (t ∷ rest) short old e =
        let wait : second - (now - t) ≡ ticks = cc in
        let same : t ∷ rest ≡ left = cc in
        let over : leb second (later - t) ≡ true = ground (arith, wait, woke, old.0, real) in
        let fewer : suc (length (expire second later rest)) ≤ length window =
          omega (arith, length-expire second later rest, short) in
        let enough : length (expire second later rest) * qps.per < qps.calls =
          grind (arith, mul-le-mul_right qps.per fewer, few) in
        let room : ltb (length (expire second later (t ∷ rest)) * qps.per) qps.calls ≡ true =
          ground (arith, over, enough) in
        rw (← same, turn, room) refl
