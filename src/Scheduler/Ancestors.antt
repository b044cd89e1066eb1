-- ===== src/Scheduler/Ancestors.antt =====
-- orchestration/scheduler.py, `run_with_limits`: the loop over the active ancestors ends.
use agent_task_platform.Prelude.{
  ℕ, zero, suc, ◌<◌, ◌≤◌, String, ◌≡◌, refl, sym, ◌∙◌, ap, Option, some, [], ◌∷◌, arith, string_eq,
  inl, inr, Option-cases, length,
}
use agent_task_platform.Domain.Entities.{Dict, truthy}
use agent_task_platform.World.{dict_get, dict_pop}
use agent_task_platform.World.Dicts.{dict_get-dict_pop}
use agent_task_platform.Scheduler.{Holder, ancestors}

-- The parent of a holder has a lower rank than the holder: there is no circle.
pub record IsRanked (rank : String → ℕ) (holders : Dict Holder) : Type 0 where
  pub below :
      (p q : String) (h : Holder)
      → dict_get p holders ≡ some h
      → truthy h.parent_run_id ≡ some q
      → rank q < rank p

length-dict_pop_le {ℓ} : {A : Type ℓ} (p : String) (d : Dict A) → length (dict_pop p d) ≤ length d
unfolding dict_pop
length-dict_pop_le p [] = omega arith
length-dict_pop_le p ((j, a) ∷ d) = ground (arith, length-dict_pop_le p d)

length-dict_pop {ℓ} :
    {A : Type ℓ} (p : String) (a : A) (d : Dict A)
    → dict_get p d ≡ some a
    → suc (length (dict_pop p d)) ≤ length d
unfolding dict_get dict_pop
length-dict_pop p a [] h = cc
length-dict_pop p a ((j, b) ∷ d) h =
    ground (arith, length-dict_pop p a d, length-dict_pop_le p d, h)

no_ancestors : (steps : ℕ) (parent : Option String) → ancestors steps parent [] ≡ []
unfolding ancestors dict_get
no_ancestors zero parent = refl
no_ancestors (suc steps) parent = ground arith

module _ (rank : String → ℕ) where
  popped-IsRanked :
      (p : String) (holders : Dict Holder)
      → IsRanked rank holders
      → IsRanked rank (dict_pop p holders)
  popped-IsRanked p holders r = record {
    below = λ q q' h found parent.
        r.below q q' h (ground (arith, dict_get-dict_pop p q holders, found)) parent;
  }

  -- A chain that begins below a holder does not come to it.
  ancestors-dict_pop :
      (steps : ℕ) (p : String) (parent : Option String) (holders : Dict Holder)
      → IsRanked rank holders
      → ((q : String) → truthy parent ≡ some q → rank q < rank p)
      → ancestors steps parent holders ≡ ancestors steps parent (dict_pop p holders)
  unfolding ancestors
  ancestors-dict_pop zero p parent holders r low = refl
  ancestors-dict_pop (suc steps) p parent holders r low = elim (Option-cases (truthy parent)) [
    | inl e ↦ ground (arith, e)
    | inr (q, e) ↦ elim (Option-cases (dict_get q holders)) [
      | inl f ↦ ground (arith, e, f, dict_get-dict_pop p q holders)
      | inr (h, f) ↦
          let lower = low q e in
          let rest =
            ancestors-dict_pop steps p h.parent_run_id holders r
              (λ q' g. omega (arith, r.below q q' h f g, lower)) in
          ground (
            arith,
            e,
            f,
            rest,
            lower,
            dict_get-dict_pop p q holders,
            string_eq.eqb_iff p q,
            λ (g : p ≡ q). ap rank g,
          )
    ]
  ]

  -- As many steps as there are holders reach the end of the chain: one more changes nothing.
  pub ancestors_enough :
      (steps : ℕ) (parent : Option String) (holders : Dict Holder)
      → IsRanked rank holders
      → length holders ≤ steps
      → ancestors (suc steps) parent holders ≡ ancestors steps parent holders
  unfolding ancestors
  ancestors_enough zero parent [] r h = no_ancestors 1 parent
  ancestors_enough zero parent (x ∷ holders) r h = ground (arith, h)
  ancestors_enough (suc steps) parent holders r h = elim (Option-cases (truthy parent)) [
    | inl e ↦ ground (arith, e)
    | inr (p, e) ↦ elim (Option-cases (dict_get p holders)) [
      | inl f ↦ ground (arith, e, f)
      | inr (holder, f) ↦
          let up = holder.parent_run_id in
          let low = λ (q : String) (g : truthy up ≡ some q). r.below p q holder f g in
          let left = dict_pop p holders in
          let rest =
            ancestors-dict_pop (suc steps) p up holders r low
            ∙ ancestors_enough steps up left (popped-IsRanked p holders r)
                (omega (arith, length-dict_pop p holder holders f, h))
            ∙ sym (ancestors-dict_pop steps p up holders r low) in
          ground (arith, e, f, rest)
    ]
  ]
