-- ===== src/RateLimiter/Bound.antt =====
-- infra/rate_limiter.py: how many calls of a caller the limiter allows in a stretch of time, with the
-- two steps of calls in any order.
use agent_task_platform.Prelude.{
  ℕ, suc, ◌+◌, ◌*◌, ◌≤◌, ◌<◌, ◌≡◌, refl, sym, ◌∙◌, ap, subst, String, Bool, true, false, ◌&&◌,
  Option, none, some, List, [], ◌∷◌, if◌then◌else◌, inl, inr, Bool-cases, Option-cases, arith, ◌==◌,
  string_eq, nat_beq,
}
use native.Mathlib.Nat.{mul-le-mul_right}
use agent_task_platform.Domain.Entities.{or_else}
use agent_task_platform.World.{dict_get}
use agent_task_platform.World.Dicts.{dict_get-dict_set}
use agent_task_platform.Coordination.Limits.{count, remove_one, count-remove_one}
use agent_task_platform.RateLimiter.{
  TokenBucket, LimiterSettings, RateLimiter, capacity_of, fill_rate_of, new_bucket, check, spend,
  get_bucket, ask, take_token,
}
use agent_task_platform.RateLimiter.Bucket.{
  IsWithin, IsWithin-bound, Stands, check-IsWithin, spend-IsWithin, Stands-later, taken-IsWithin,
}

-- A call's comparison: its caller, and the ticks since the event before it; and the subtraction of a
-- call that was allowed.
pub data Event : Type 0 where
  asks : String → ℕ → Event
  takes : String → Event

abbrev entered : Bool → String → List String → List String
entered true caller between = caller ∷ between
entered false caller between = between

-- The latest event stands first. The state is the limiter, with the callers of the calls that stand
-- between their two steps.
module _ (second : ℕ) (settings : LimiterSettings) where
  abbrev pub reading : List Event → ℕ
  reading [] = 0
  reading (asks caller gap ∷ earlier) = reading earlier + gap
  reading (takes caller ∷ earlier) = reading earlier

  unfoldable pub step : Event → ℕ → RateLimiter × List String → RateLimiter × List String
  step (asks caller gap) now (limiter, between) =
      let (allowed, limiter') = ask second caller (now + gap) limiter in
      (limiter', entered allowed caller between)
  step (takes caller) now (limiter, between) =
      if nat_beq (count caller between) 0
      then (limiter, between)
      else (take_token second caller limiter, remove_one caller between)

  unfoldable pub after : List Event → RateLimiter × List String
  after [] = (record { settings = settings; buckets = [] }, [])
  after (e ∷ earlier) = step e (reading earlier) (after earlier)

  -- The calls of a caller that were allowed.
  abbrev pub allowed : String → List Event → ℕ
  allowed caller [] = 0
  allowed caller (asks other gap ∷ earlier) =
      let rest = allowed caller earlier in
      if other == caller && (ask second other (reading earlier + gap) (after earlier).0).0
      then suc rest
      else rest
  allowed caller (takes other ∷ earlier) = allowed caller earlier

  -- At no time are more calls of the caller than `most` between their two steps.
  unfoldable pub Overlap : String → ℕ → List Event → Type 0
  Overlap caller most [] = Unit {0}
  Overlap caller most (e ∷ earlier) =
      (count caller (after (e ∷ earlier)).1 ≤ most) × Overlap caller most earlier

module _ (second : ℕ) (settings : LimiterSettings) (caller : String) (most : ℕ)
    (some_call : 0 < most) where
  abbrev Holds : ℕ → ℕ → ℕ → Option TokenBucket → Type 0
  Holds now unpaid total bucket =
      Stands second (capacity_of caller settings) (fill_rate_of caller settings) now most unpaid
        total bucket

  abbrev Allowed : ℕ → ℕ → ℕ → RateLimiter → Type 0
  Allowed now unpaid total limiter =
      (limiter.settings ≡ settings) × Holds now unpaid total (dict_get caller limiter.buckets)

  abbrev found_bucket : ℕ → RateLimiter → TokenBucket
  found_bucket later limiter =
      or_else (dict_get caller limiter.buckets)
        (new_bucket second (capacity_of caller settings) (fill_rate_of caller settings) later)

  own_bucket :
      (other : String) (later : ℕ) (limiter : RateLimiter)
      → limiter.settings ≡ settings
      → other ≡ caller
      → get_bucket second other later limiter ≡ found_bucket later limiter
  own_bucket other later limiter same here =
      ap (λ c. get_bucket second c later limiter) here
      ∙ ap
          (λ (s : LimiterSettings).
            or_else (dict_get caller limiter.buckets)
              (new_bucket second (capacity_of caller s) (fill_rate_of caller s) later))
          same

  -- A comparison of any caller, as it changes what is held of one.
  ask-Allowed :
      (other : String) (now later unpaid total : ℕ) (limiter : RateLimiter)
      → now ≤ later
      → ((other == caller && (ask second other later limiter).0) ≡ true → suc unpaid ≤ most)
      → Allowed now unpaid total limiter
      → let ok = other == caller && (ask second other later limiter).0 in
        Allowed later
          (if ok then suc unpaid else unpaid)
          (if ok then suc total else total)
          (ask second other later limiter).1
  unfolding ask
  ask-Allowed other now later unpaid total limiter order room (same, h) = (
    same,
    rw (dict_get-dict_set other caller taken.1 limiter.buckets)
        (elim (Bool-cases (other == caller)) [
          | inl g ↦ rw g (own g)
          | inr g ↦ rw g (
              Stands-later second (capacity_of caller settings) (fill_rate_of caller settings) now
                later most unpaid total (dict_get caller limiter.buckets) order h)
        ]),
  )
    where
      taken : Bool × TokenBucket
      taken = check second later (get_bucket second other later limiter)

      own :
          (other == caller) ≡ true
          → Holds later
              (if taken.0 then suc unpaid else unpaid)
              (if taken.0 then suc total else total)
              (some taken.1)
      own g =
          let here : other ≡ caller = (string_eq.eqb_iff other caller).0 g in
          check-IsWithin second (capacity_of caller settings) (fill_rate_of caller settings) later
            later most unpaid total (get_bucket second other later limiter) (omega arith)
            (λ ok. room (rw (g, ok) refl))
            (subst
              (IsWithin second (capacity_of caller settings) (fill_rate_of caller settings) later
                most unpaid total)
              (sym (own_bucket other later limiter same here))
              (taken-IsWithin second (capacity_of caller settings) (fill_rate_of caller settings)
                now later most unpaid total (dict_get caller limiter.buckets) order some_call h))

  -- A subtraction of another caller.
  take_other :
      (other : String) (limiter : RateLimiter)
      → (other == caller) ≡ false
      → ((take_token second other limiter).settings ≡ limiter.settings)
        × (dict_get caller (take_token second other limiter).buckets
            ≡ dict_get caller limiter.buckets)
  unfolding take_token
  take_other other limiter g = elim (Option-cases (dict_get other limiter.buckets)) [
    | inl e ↦ rw (e, take_token) (refl, refl)
    | inr (b, e) ↦
        rw (e, take_token)
          (refl, dict_get-dict_set other caller (spend second b) limiter.buckets ∙ rw g refl)
  ]

  -- A subtraction of the caller.
  take_own :
      (now unpaid total : ℕ) (limiter : RateLimiter)
      → Allowed now (suc unpaid) total limiter
      → Allowed now unpaid total (take_token second caller limiter)
  unfolding take_token
  take_own now unpaid total limiter (same, h) =
      elim (Option-cases (dict_get caller limiter.buckets)) [
        | inl e ↦
            let absent : Holds now (suc unpaid) total none =
              subst (Holds now (suc unpaid) total) e h in
            absurd (omega (arith, absent.1))
        | inr (b, e) ↦
            let there : Holds now (suc unpaid) total (some b) =
              subst (Holds now (suc unpaid) total) e h in
            rw (e, take_token)
              (
                same,
                rw
                    (
                      dict_get-dict_set caller caller (spend second b) limiter.buckets,
                      (string_eq.eqb_iff caller caller).1 refl,
                    )
                    (spend-IsWithin second (capacity_of caller settings)
                      (fill_rate_of caller settings) now most unpaid total b there),
              )
      ]

  count-entered :
      (ok : Bool) (other : String) (between : List String)
      → count caller (entered ok other between)
        ≡ (if other == caller && ok then suc (count caller between) else count caller between)
  unfolding count
  count-entered true other between = ground arith
  count-entered false other between = ground arith

  history-Allowed :
      (history : List Event)
      → Overlap second settings caller most history
      → let (limiter, between) = after second settings history in
        Allowed
          (reading second settings history)
          (count caller between)
          (allowed second settings caller history)
          limiter
  unfolding after step dict_get count Overlap
  history-Allowed [] few = (refl, (refl, refl))
  history-Allowed (asks other gap ∷ earlier) (few, before) =
      let (limiter, between) = after second settings earlier in
      let now = reading second settings earlier in
      let ok = (ask second other (now + gap) limiter).0 in
      let entry = count-entered ok other between in
      subst
        (λ n.
          Allowed (now + gap) n (allowed second settings caller (asks other gap ∷ earlier))
            (ask second other (now + gap) limiter).1)
        (sym entry)
        (ask-Allowed other now (now + gap) (count caller between)
          (allowed second settings caller earlier) limiter (omega arith)
          (λ e. ground (arith, few, entry, e)) (history-Allowed earlier before))
  history-Allowed (takes other ∷ earlier) (few, before) =
      let (limiter, between) = after second settings earlier in
      let now = reading second settings earlier in
      let total = allowed second settings caller earlier in
      let held : Allowed now (count caller between) total limiter =
        history-Allowed earlier before in
      elim (Bool-cases (nat_beq (count other between) 0)) [
        | inl e ↦ rw e held
        | inr e ↦ rw e (elim (Bool-cases (other == caller)) [
          | inl g ↦
              let here : other ≡ caller = (string_eq.eqb_iff other caller).0 g in
              let less : count caller between ≡ suc (count caller (remove_one other between)) =
                ground (arith, count-remove_one other caller between e, g) in
              subst
                (λ c.
                  Allowed now (count caller (remove_one other between)) total
                    (take_token second c limiter))
                (sym here)
                (take_own now (count caller (remove_one other between)) total limiter
                  (subst (λ n. Allowed now n total limiter) less held))
          | inr g ↦
              let (same, kept) = take_other other limiter g in
              let equal : count caller between ≡ count caller (remove_one other between) =
                ground (arith, count-remove_one other caller between e, g) in
              (
                same ∙ held.0,
                subst (Holds now (count caller (remove_one other between)) total) (sym kept)
                    (subst (λ n. Holds now n total (dict_get caller limiter.buckets)) equal held.1),
              )
        ])
      ]

pub allowed_is_bounded :
    (second : ℕ) (settings : LimiterSettings) (caller : String) (most : ℕ) (history : List Event)
    → 0 < most
    → Overlap second settings caller most history
    → allowed second settings caller history * second + second
      ≤ capacity_of caller settings * second
        + reading second settings history * fill_rate_of caller settings
        + most * second
allowed_is_bounded second settings caller most history some_call few =
    by_bucket (dict_get caller (after second settings history).0.buckets)
      (history-Allowed second settings caller most some_call history few).1
  where
    by_bucket :
        (bucket : Option TokenBucket)
        → Stands second
            (capacity_of caller settings)
            (fill_rate_of caller settings)
            (reading second settings history)
            most
            (count caller (after second settings history).1)
            (allowed second settings caller history)
            bucket
        → allowed second settings caller history * second + second
          ≤ capacity_of caller settings * second
            + reading second settings history * fill_rate_of caller settings
            + most * second
    by_bucket none h = rw (h.0) (omega (arith, mul-le-mul_right second some_call))
    by_bucket (some b) h = omega (
      arith,
      IsWithin-bound second (capacity_of caller settings) (fill_rate_of caller settings)
          (reading second settings history) most (count caller (after second settings history).1)
          (allowed second settings caller history) b h,
      mul-le-mul_right (fill_rate_of caller settings) h.not_ahead,
    )
