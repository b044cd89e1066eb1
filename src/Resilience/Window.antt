-- ===== src/Resilience/Window.antt =====
-- framework/tool/resilience.py, `QpsLimiter.acquire`: how many calls of a tool it lets through in a
-- second.
use native.Mathlib.Nat.{mul-le-mul_right}
use agent_task_platform.Prelude.{
  ℕ, suc, ◌+◌, ◌*◌, ◌≤◌, ◌<◌, ◌≡◌, refl, ◌∙◌, true, false, ◌&&◌, Option, none, some, List, [], ◌∷◌,
  ◌++◌, if◌then◌else◌, ltb, leb, inl, inr, Bool-cases, arith, length, ap, String, ◌==◌, string_eq,
}
use agent_task_platform.Domain.Entities.{Dict}
use agent_task_platform.Domain.Catalog.{Rate}
use agent_task_platform.World.{dict_get, dict_set}
use agent_task_platform.World.Dicts.{dict_get-dict_set}
use agent_task_platform.Resilience.{
  Turn, taken, sleeps, index_error, expire, turn, sleep_from, turned, acquire, window_of,
}

-- The readings of a list that lie in the second from `start` on.
unfoldable pub within : ℕ → ℕ → List ℕ → ℕ
within second start [] = 0
within second start (t ∷ ts) =
    let rest = within second start ts in
    if leb start t && ltb t (start + second) then suc rest else rest

module _ (second : ℕ) where
  within-append :
      (start : ℕ) (xs ys : List ℕ)
      → within second start (xs ++ ys) ≡ within second start xs + within second start ys
  unfolding within
  within-append start [] ys = omega arith
  within-append start (x ∷ xs) ys = ground (arith, within-append start xs ys)

  within-length : (start : ℕ) (xs : List ℕ) → within second start xs ≤ length xs
  unfolding within
  within-length start [] = omega arith
  within-length start (x ∷ xs) = ground (arith, within-length start xs)

  -- What leaves the window is of no second that is not over.
  expire-within :
      (start now : ℕ) (window : List ℕ)
      → 0 < second
      → now < start + second
      → within second start (expire second now window) ≡ within second start window
  unfolding within expire
  expire-within start now [] real open_still = refl
  expire-within start now (t ∷ window) real open_still =
      ground (arith, expire-within start now window real open_still, real, open_still)

  -- No second holds as many calls as the rate and one more, and those of a second that is not over are in the window.
  pub record IsLimited (qps : Rate) (now : ℕ) (window grants : List ℕ) : Type 0 where
    pub few : (start : ℕ) → within second start grants * qps.per < qps.calls + qps.per
    pub held :
        (start : ℕ) → now < start + second → within second start grants ≤ within second start window

  IsLimited-later :
      (qps : Rate) (now later : ℕ) (window grants : List ℕ)
      → 0 < second
      → now ≤ later
      → IsLimited qps now window grants
      → IsLimited qps later (expire second later window) grants
  IsLimited-later qps now later window grants real order h = record {
    few = h.few;
    held = λ start soon.
        omega (arith, h.held start, expire-within start later window real soon, order, soon);
  }

  IsLimited-same :
      (qps : Rate) (now later : ℕ) (window grants : List ℕ)
      → now ≤ later
      → IsLimited qps now window grants
      → IsLimited qps later window grants
  IsLimited-same qps now later window grants order h = record {
    few = h.few;
    held = λ start soon. omega (arith, h.held start, order, soon);
  }

  -- One call more than there is room for, at most.
  one_more :
      (qps : Rate) (n m : ℕ)
      → m * qps.per < qps.calls
      → n ≤ m
      → suc n * qps.per < qps.calls + qps.per
  one_more qps n m room fewer = grind (arith, mul-le-mul_right qps.per fewer)

  IsLimited-taken :
      (qps : Rate) (now : ℕ) (window grants : List ℕ)
      → length window * qps.per < qps.calls
      → IsLimited qps now window grants
      → IsLimited qps now (window ++ now ∷ []) (now ∷ grants)
  unfolding within
  IsLimited-taken qps now window grants room h = record {
    few = λ start. ground (
      arith,
      h.few start,
      one_more qps (within second start grants) (length window) room,
      h.held start,
      within-length start window,
    );
    held = λ start soon. ground (arith, h.held start, soon, within-append start window (now ∷ []));
  }

  -- An attempt of a call: the tool, and the ticks since the attempt before it. The latest stands first.
  abbrev pub reading : List (String × ℕ) → ℕ
  reading [] = 0
  reading ((name, gap) ∷ earlier) = reading earlier + gap

  module _ (rates : String → Option Rate) where
    abbrev pub windows : List (String × ℕ) → Dict (List ℕ)
    windows [] = []
    windows ((name, gap) ∷ earlier) =
        (acquire second name (rates name) (reading earlier + gap) (windows earlier)).1

    -- The readings at which a call of the tool was let through.
    abbrev pub grants : String → List (String × ℕ) → List ℕ
    grants name [] = []
    grants name ((other, gap) ∷ earlier) =
        let rest = grants name earlier in
        if other == name
          && (acquire second other (rates other) (reading earlier + gap) (windows earlier)).0
        then (reading earlier + gap) ∷ rest
        else rest

-- The windows of the other tools stay as they are.
acquire_other :
    (second : ℕ) (other name : String) (rate : Option Rate) (now : ℕ) (windows : Dict (List ℕ))
    → (other == name) ≡ false
    → window_of name (acquire second other rate now windows).1 ≡ window_of name windows
unfolding acquire
acquire_other second other name none now windows off = refl
acquire_other second other name (some qps) now windows off = elim (Bool-cases (ltb 0 qps.calls)) [
  | inl e ↦ rw (acquire, e) (by_turn (turn second qps now (window_of other windows)))
  | inr e ↦ rw (acquire, e) refl
]
  where
    by_turn : (t : Turn) → window_of name (turned other t windows).1 ≡ window_of name windows
    by_turn (taken window) = ground (arith, dict_get-dict_set other name window windows, off)
    by_turn (sleeps ticks window) = ground (arith, dict_get-dict_set other name window windows, off)
    by_turn index_error = refl

acquire_own :
    (second : ℕ) (name : String) (qps : Rate) (now later : ℕ) (windows : Dict (List ℕ))
    (grants : List ℕ)
    → 0 < second
    → 0 < qps.calls
    → now ≤ later
    → IsLimited second qps now (window_of name windows) grants
    → IsLimited second qps later
        (window_of name (acquire second name (some qps) later windows).1)
        (if (acquire second name (some qps) later windows).0 then later ∷ grants else grants)
unfolding acquire turn
acquire_own second name qps now later windows grants real some_rate order h =
    rw (acquire, some_rate_on, turn)
      (elim (Bool-cases (ltb (length left * qps.per) qps.calls)) [
        | inl e ↦
            rw (e, own_window (left ++ later ∷ []))
              (IsLimited-taken second qps later left grants (ground (arith, e))
                (IsLimited-later second qps now later (window_of name windows) grants real order h))
        | inr e ↦ rw (e) (by_left left refl)
      ])
  where
    left : List ℕ
    left = expire second later (window_of name windows)

    some_rate_on : ltb 0 qps.calls ≡ true
    some_rate_on = ground (arith, some_rate)

    own_window : (window : List ℕ) → window_of name (dict_set name window windows) ≡ window
    own_window window =
        ground (arith, dict_get-dict_set name name window windows, string_eq.eqb_iff name name)

    by_left :
        (rest : List ℕ)
        → left ≡ rest
        → IsLimited second qps later
            (window_of name (turned name (sleep_from second later rest) windows).1)
            (if (turned name (sleep_from second later rest) windows).0
              then later ∷ grants
              else grants)
    by_left [] e = IsLimited-same second qps now later (window_of name windows) grants order h
    by_left (t ∷ rest) e =
        rw (own_window (t ∷ rest), ← e)
          (IsLimited-later second qps now later (window_of name windows) grants real order h)

IsLimited-start :
    (second : ℕ) (qps : Rate) (name : String)
    → 0 < qps.calls
    → IsLimited second qps 0 (window_of name []) []
unfolding within dict_get
IsLimited-start second qps name some_rate = record {
  few = λ start. omega arith;
  held = λ start soon. omega arith;
}

attempt-IsLimited :
    (second : ℕ) (other name : String) (rate : Option Rate) (qps : Rate) (now later : ℕ)
    (windows : Dict (List ℕ)) (grants : List ℕ)
    → 0 < second
    → 0 < qps.calls
    → now ≤ later
    → (other ≡ name → rate ≡ some qps)
    → IsLimited second qps now (window_of name windows) grants
    → IsLimited second qps later (window_of name (acquire second other rate later windows).1) (
        if other == name && (acquire second other rate later windows).0
        then later ∷ grants
        else grants)
attempt-IsLimited second other name rate qps now later windows grants real some_rate order its h =
    elim (Bool-cases (other == name)) [
      | inl g ↦
          let same : other ≡ name = (string_eq.eqb_iff other name).0 g in
          rw (g, same, its same)
            (acquire_own second name qps now later windows grants real some_rate order h)
      | inr g ↦
          rw (g, acquire_other second other name rate later windows g)
            (IsLimited-same second qps now later (window_of name windows) grants order h)
    ]

attempts-IsLimited :
    (second : ℕ) (rates : String → Option Rate) (name : String) (qps : Rate)
    (history : List (String × ℕ))
    → 0 < second
    → rates name ≡ some qps
    → 0 < qps.calls
    → IsLimited second qps
        (reading second history)
        (window_of name (windows second rates history))
        (grants second rates name history)
attempts-IsLimited second rates name qps [] real rate some_rate =
    IsLimited-start second qps name some_rate
attempts-IsLimited second rates name qps ((other, gap) ∷ earlier) real rate some_rate =
    attempt-IsLimited second other name (rates other) qps (reading second earlier)
      (reading second earlier + gap) (windows second rates earlier)
      (grants second rates name earlier) real some_rate (omega arith) (λ same. ap rates same ∙ rate)
      (attempts-IsLimited second rates name qps earlier real rate some_rate)

-- Whatever tools' calls are attempted and whenever the sleeping ones wake, in no second, wherever it
-- starts, are as many calls of a tool let through as its rate and one more: where the rate is a whole
-- number no more than the rate, where it is not no more than the next whole number, which for a rate
-- below one is a call in every second.
pub rate_is_kept :
    (second : ℕ) (rates : String → Option Rate) (name : String) (qps : Rate)
    (history : List (String × ℕ)) (start : ℕ)
    → 0 < second
    → rates name ≡ some qps
    → 0 < qps.calls
    → within second start (grants second rates name history) * qps.per < qps.calls + qps.per
rate_is_kept second rates name qps history start real rate some_rate =
    (attempts-IsLimited second rates name qps history real rate some_rate).few start
