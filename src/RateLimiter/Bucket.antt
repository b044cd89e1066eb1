-- ===== src/RateLimiter/Bucket.antt =====
-- infra/rate_limiter.py, `TokenBucket`: what a bucket gives out is within what it held and what flowed in,
-- but for the calls that stand between their comparison and their subtraction.
use agent_task_platform.Prelude.{
  ℕ, suc, ◌+◌, ◌-◌, ◌*◌, ◌≤◌, ◌<◌, ◌≡◌, refl, sym, ◌∙◌, ap, subst, true, Option, none, some,
  if◌then◌else◌, leb, inl, inr, Bool-cases, arith, string_eq,
}
use agent_task_platform.Prelude.Int.{ℤ, pos, negsuc, pos_part, neg_part}
use native.Mathlib.Nat.{add-mul, mul-le-mul_right}
use agent_task_platform.Domain.Entities.{or_else}
use agent_task_platform.RateLimiter.{
  TokenBucket, new_bucket, refill, check, spend, plus, minus, at_most, covers,
}

-- The parts that calls have been allowed, those of calls that have still to subtract theirs, and the
-- tokens: what was allowed is paid by the inflow `flow` or still to be paid, and no more is to be paid
-- than the tokens and those of `most` calls but one.
record Covered (second full flow most unpaid count : ℕ) (z : ℤ) : Type 0 where
  paid : count * second + pos_part z ≤ flow + unpaid * second + neg_part z
  owed : unpaid * second + second + neg_part z ≤ pos_part z + most * second
  held : pos_part z ≤ full

plus-Covered :
    (second full flow more most unpaid count : ℕ) (z : ℤ)
    → Covered second full flow most unpaid count z
    → Covered second full (flow + more) most unpaid count (at_most full (plus z more))
plus-Covered second full flow more most unpaid count (pos a) h = record {
  paid = omega (arith, h.paid);
  owed = omega (arith, h.owed, h.held);
  held = omega arith;
}
plus-Covered second full flow more most unpaid count (negsuc a) h = elim (Bool-cases (leb more a)) [
  | inl e ↦ rw e (record {
    paid = ground (arith, h.paid, e);
    owed = ground (arith, h.owed, e);
    held = omega arith;
  })
  | inr e ↦ rw e (record {
    paid = ground (arith, h.paid, e);
    owed = ground (arith, h.owed, h.held, e);
    held = omega arith;
  })
]

one_more : (second n : ℕ) → suc n * second ≡ n * second + second
one_more second n = ap (λ m. m * second) (omega arith) ∙ add-mul n 1 second ∙ omega arith

check-Covered :
    (second full flow most unpaid count : ℕ) (z : ℤ)
    → covers second z ≡ true
    → suc unpaid * second ≤ most * second
    → Covered second full flow most unpaid count z
    → Covered second full flow most (suc unpaid) (suc count) z
check-Covered second full flow most unpaid count (negsuc a) e room h = cc
check-Covered second full flow most unpaid count (pos a) e room h = record {
  paid = omega (arith, h.paid, one_more second unpaid, one_more second count);
  owed = ground (arith, room, e);
  held = h.held;
}

minus-Covered :
    (second full flow most unpaid count : ℕ) (z : ℤ)
    → Covered second full flow most (suc unpaid) count z
    → Covered second full flow most unpaid count (minus z second)
minus-Covered second full flow most unpaid count (negsuc a) h = record {
  paid = omega (arith, h.paid, one_more second unpaid);
  owed = omega (arith, h.owed, one_more second unpaid);
  held = omega arith;
}
minus-Covered second full flow most unpaid count (pos a) h = elim (Bool-cases (leb second a)) [
  | inl e ↦ rw e (record {
    paid = ground (arith, h.paid, one_more second unpaid, e);
    owed = ground (arith, h.owed, one_more second unpaid, e);
    held = omega (arith, h.held);
  })
  | inr e ↦ rw e (record {
    paid = ground (arith, h.paid, one_more second unpaid, e);
    owed = ground (arith, h.owed, one_more second unpaid, e);
    held = omega arith;
  })
]

-- What a caller's bucket has given out, with `unpaid` calls before their subtraction.
pub record IsWithin (second capacity fill_rate now most unpaid count : ℕ) (b : TokenBucket)
    : Type 0 where
  pub of_capacity : b.capacity ≡ capacity
  pub of_rate : b.fill_rate ≡ fill_rate
  pub not_ahead : b.last_refill ≤ now
  covered :
      Covered second
        (capacity * second)
        (capacity * second + b.last_refill * fill_rate)
        most
        unpaid
        count
        b.tokens

pub IsWithin-bound :
    (second capacity fill_rate now most unpaid count : ℕ) (b : TokenBucket)
    → IsWithin second capacity fill_rate now most unpaid count b
    → count * second + second ≤ capacity * second + b.last_refill * fill_rate + most * second
IsWithin-bound second capacity fill_rate now most unpaid count b h =
    omega (arith, h.covered.paid, h.covered.owed)

refill-IsWithin :
    (second capacity fill_rate now later most unpaid count : ℕ) (b : TokenBucket)
    → now ≤ later
    → IsWithin second capacity fill_rate now most unpaid count b
    → IsWithin second capacity fill_rate later most unpaid count (refill second later b)
unfolding refill
refill-IsWithin second capacity fill_rate now later most unpaid count b order h = record {
  of_capacity = h.of_capacity;
  of_rate = h.of_rate;
  not_ahead = omega arith;
  covered =
      subst
        (λ c.
          Covered second (capacity * second) (capacity * second + later * fill_rate) most unpaid
            count (at_most (c * second) (plus b.tokens more)))
        (sym h.of_capacity)
        (subst
          (λ f.
            Covered second (capacity * second) f most unpaid count
              (at_most (capacity * second) (plus b.tokens more)))
          (omega (arith, flow))
          (plus-Covered second (capacity * second) (capacity * second + b.last_refill * fill_rate)
            more most unpaid count b.tokens h.covered));
}
  where
    more : ℕ
    more = (later - b.last_refill) * b.fill_rate

    whole : later * fill_rate ≡ (later - b.last_refill) * fill_rate + b.last_refill * fill_rate
    whole =
        rw (← add-mul (later - b.last_refill) b.last_refill fill_rate)
          (ap (λ n. n * fill_rate) (omega (arith, h.not_ahead, order)))

    flow : (later - b.last_refill) * b.fill_rate + b.last_refill * fill_rate ≡ later * fill_rate
    flow =
        subst (λ r. (later - b.last_refill) * r + b.last_refill * fill_rate ≡ later * fill_rate)
          (sym h.of_rate) (sym whole)

pub check-IsWithin :
    (second capacity fill_rate now later most unpaid count : ℕ) (b : TokenBucket)
    → now ≤ later
    → ((check second later b).0 ≡ true → suc unpaid ≤ most)
    → IsWithin second capacity fill_rate now most unpaid count b
    → IsWithin second capacity fill_rate later most
        (if (check second later b).0 then suc unpaid else unpaid)
        (if (check second later b).0 then suc count else count)
        (check second later b).1
unfolding check
check-IsWithin second capacity fill_rate now later most unpaid count b order room h =
    elim (Bool-cases (covers second full.tokens)) [
      | inl e ↦
          rw (check, e)
            (record {
              of_capacity = before.of_capacity;
              of_rate = before.of_rate;
              not_ahead = before.not_ahead;
              covered =
                  check-Covered second (capacity * second)
                    (capacity * second + full.last_refill * fill_rate) most unpaid count full.tokens
                    e (mul-le-mul_right second (room e)) before.covered;
            })
      | inr e ↦ rw (check, e) before
    ]
  where
    full : TokenBucket
    full = refill second later b

    before : IsWithin second capacity fill_rate later most unpaid count full
    before = refill-IsWithin second capacity fill_rate now later most unpaid count b order h

pub spend-IsWithin :
    (second capacity fill_rate now most unpaid count : ℕ) (b : TokenBucket)
    → IsWithin second capacity fill_rate now most (suc unpaid) count b
    → IsWithin second capacity fill_rate now most unpaid count (spend second b)
unfolding spend
spend-IsWithin second capacity fill_rate now most unpaid count b h = record {
  of_capacity = h.of_capacity;
  of_rate = h.of_rate;
  not_ahead = h.not_ahead;
  covered =
      minus-Covered second (capacity * second) (capacity * second + b.last_refill * fill_rate) most
        unpaid count b.tokens h.covered;
}

-- The bucket of a caller that has none is still to be filled.
abbrev pub Stands :
    (second capacity fill_rate now most unpaid count : ℕ) → Option TokenBucket → Type 0
Stands second capacity fill_rate now most unpaid count none = (count ≡ 0) × (unpaid ≡ 0)
Stands second capacity fill_rate now most unpaid count (some b) =
    IsWithin second capacity fill_rate now most unpaid count b

pub Stands-later :
    (second capacity fill_rate now later most unpaid count : ℕ) (bucket : Option TokenBucket)
    → now ≤ later
    → Stands second capacity fill_rate now most unpaid count bucket
    → Stands second capacity fill_rate later most unpaid count bucket
Stands-later second capacity fill_rate now later most unpaid count none order h = h
Stands-later second capacity fill_rate now later most unpaid count (some b) order h = record {
  of_capacity = h.of_capacity;
  of_rate = h.of_rate;
  not_ahead = omega (arith, h.not_ahead, order);
  covered = h.covered;
}

-- The bucket that a call takes from, a new one if the caller has none.
pub taken-IsWithin :
    (second capacity fill_rate now later most unpaid count : ℕ) (bucket : Option TokenBucket)
    → now ≤ later
    → 0 < most
    → Stands second capacity fill_rate now most unpaid count bucket
    → IsWithin second capacity fill_rate later most unpaid count
        (or_else bucket (new_bucket second capacity fill_rate later))
taken-IsWithin second capacity fill_rate now later most unpaid count none order some_call h =
    rw (h.0, h.1)
      (record {
        of_capacity = refl;
        of_rate = refl;
        not_ahead = omega arith;
        covered = record {
          paid = omega arith;
          owed = omega (arith, mul-le-mul_right second some_call);
          held = omega arith;
        };
      })
taken-IsWithin second capacity fill_rate now later most unpaid count (some b) order some_call h =
    Stands-later second capacity fill_rate now later most unpaid count (some b) order h
