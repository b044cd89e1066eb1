-- ===== src/Registry/Latest.antt =====
-- framework/registry.py: what the newest of some rows is, and when there is one.
use agent_task_platform.Prelude.{
  String, ◌≡◌, refl, Bool, none, some, List, [], ◌∷◌, arith, All, inl, inr, Bool-cases,
  Option-cases,
}
use agent_task_platform.Registry.{latest}

module _ {ℓ} {A : Type ℓ} (newer : String → String → Bool) (version : A → String) where
  pub latest-All {κ} :
      (P : A → Type κ) (rows : List A) (a : A)
      → All P rows
      → latest newer version rows ≡ some a
      → P a
  unfolding latest
  latest-All P [] a all h = cc
  latest-All P (x ∷ rows) a all h = elim (Option-cases (latest newer version rows)) [
    | inl e ↦ let same : x ≡ a = ground (arith, h, e) in rw (← same) all.0
    | inr (b, e) ↦
        let rest : P b = latest-All P rows b all.1 e in
        elim (Bool-cases (newer (version b) (version x))) [
          | inl g ↦ let same : b ≡ a = ground (arith, h, e, g) in rw (← same) rest
          | inr g ↦ let same : x ≡ a = ground (arith, h, e, g) in rw (← same) all.0
        ]
  ]

  pub latest-none : (rows : List A) → latest newer version rows ≡ none → rows ≡ []
  unfolding latest
  latest-none [] h = refl
  latest-none (x ∷ rows) h = cc
