-- ===== src/Table/Keys.antt =====
-- Tables whose rows have different keys: what inserting, deleting and taking the newest keep.
use agent_task_platform.Prelude.{
  ◌≡◌, refl, ◌∙◌, Bool, true, false, none, some, List, [], ◌∷◌, arith, ◌==◌, Eq, inl, inr,
  Bool-cases, keep, All, All-map,
}
use agent_task_platform.Table.{find, Unique, merge, find-merge, rowcount, rowcount-absent, holds}

module _ {ℓ} {K : Type 0} ⦃keys : Eq K⦄ {A : Type ℓ} (key : A → K) where
  pub merge-Unique : (b : A) (rows : List A) → Unique key rows → Unique key (merge key b rows)
  unfolding merge find
  merge-Unique b [] u = (refl, tt)
  merge-Unique b (x ∷ rows) u = elim (Bool-cases (key x == key b)) [
    | inl e ↦ rw e (rw (← (keys.eqb_iff (key x) (key b)).0 e) u.0, u.1)
    | inr e ↦ rw e (
      find-merge key b (key x) rows
          ∙ ground (arith, e, u.0, keys.eqb_iff (key b) (key x), keys.eqb_iff (key x) (key b)),
      merge-Unique b rows u.1,
    )
  ]

  -- Rows that are deleted by their key take no other row with them.
  pub find-keep :
      (p : A → Bool) (k : K)
      → ((a : A) → key a ≡ k → p a ≡ true)
      → (rows : List A) → find key k (keep p rows) ≡ find key k rows
  unfolding find keep
  find-keep p k kept [] = refl
  find-keep p k kept (x ∷ rows) =
      ground (arith, kept x, keys.eqb_iff (key x) k, find-keep p k kept rows)

  -- A row that is found and kept is found still.
  pub find-keep_hit :
      (p : A → Bool) (k : K) (rows : List A) (a : A)
      → find key k rows ≡ some a
      → p a ≡ true
      → find key k (keep p rows) ≡ some a
  unfolding find keep
  find-keep_hit p k [] a h on = cc
  find-keep_hit p k (x ∷ rows) a h on = ground (arith, h, on, find-keep_hit p k rows a)

  find-keep-none :
      (p : A → Bool) (k : K) (rows : List A)
      → find key k rows ≡ none
      → find key k (keep p rows) ≡ none
  unfolding find keep
  find-keep-none p k [] h = refl
  find-keep-none p k (x ∷ rows) h = ground (arith, find-keep-none p k rows)

  pub keep-Unique : (p : A → Bool) (rows : List A) → Unique key rows → Unique key (keep p rows)
  unfolding keep
  keep-Unique p [] u = tt
  keep-Unique p (x ∷ rows) u = elim (Bool-cases (p x)) [
    | inl e ↦ rw e (find-keep-none p (key x) rows u.0, keep-Unique p rows u.1)
    | inr e ↦ rw e (keep-Unique p rows u.1)
  ]

  -- Every row is the one found under its key.
  pub Unique-self :
      (rows : List A) → Unique key rows → All (λ a. find key (key a) rows ≡ some a) rows
  unfolding find
  Unique-self [] u = tt
  Unique-self (x ∷ rows) u = (
    ground (arith, keys.eqb_iff (key x) (key x)),
    All-map (λ a. find key (key a) rows ≡ some a) (λ a. find key (key a) (x ∷ rows) ≡ some a) behind
        rows (Unique-self rows u.1),
  )
    where
      behind : (a : A) → find key (key a) rows ≡ some a → find key (key a) (x ∷ rows) ≡ some a
      behind a h = elim (Bool-cases (key x == key a)) [
        | inl e ↦
            let absent : find key (key a) rows ≡ none =
              rw (← (keys.eqb_iff (key x) (key a)).0 e) u.0 in
            ground (arith, h, absent)
        | inr e ↦ rw e h
      ]

  -- A statement about one key that misses its row counts none.
  pub rowcount-missed :
      (p : A → Bool) (k : K) (rows : List A)
      → ((a : A) → p a ≡ true → key a ≡ k)
      → Unique key rows
      → holds p (find key k rows) ≡ false
      → rowcount p rows ≡ 0
  unfolding find rowcount
  rowcount-missed p k [] only u h = refl
  rowcount-missed p k (x ∷ rows) only u h = elim (Bool-cases (key x == k)) [
    | inl e ↦ ground (
      arith,
      keys.eqb_iff (key x) k,
      λ (g : key x ≡ k). rowcount-absent key p k rows only (rw (← g) u.0),
    )
    | inr e ↦ ground (arith, only x, keys.eqb_iff (key x) k, rowcount-missed p k rows only u.1)
  ]
