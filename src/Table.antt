-- ===== src/Table.antt =====
-- A table of the store: rows with a primary key, `UPDATE … WHERE`, `SELECT … ORDER BY … LIMIT`.
-- The database under the source's repositories is not part of the source; these are the statements
-- that the repositories send it, over a list of rows.
pub mod Sort
pub mod Keys
use agent_task_platform.Prelude.{
  ℕ, zero, suc, ◌+◌, ◌≤◌, String, ◌≡◌, refl, sym, ◌∙◌, Bool, true, false, Option, none, some, List,
  [], ◌∷◌, ◌++◌, arith, ◌==◌, Eq, if◌then◌else◌, inl, inr, Bool-cases, nat_beq,
}
use mathlib.Core.Option

module _ {ℓ} {K : Type 0} ⦃keys : Eq K⦄ {A : Type ℓ} (key : A → K) where
  unfoldable pub find : K → List A → Option A
  find k [] = none
  find k (a ∷ rows) = if key a == k then some a else find k rows

  -- No two rows have the same key.
  abbrev pub Unique : List A → Type ℓ
  Unique [] = Unit
  Unique (a ∷ rows) = (find (key a) rows ≡ none) × Unique rows

  -- The row of a key replaced, or added at the end: `session.merge`.
  unfoldable pub merge : A → List A → List A
  merge b [] = b ∷ []
  merge b (a ∷ rows) = if key a == key b then b ∷ rows else a ∷ merge b rows

module _ {ℓ} {A : Type ℓ} where
  unfoldable pub update_where : (A → Bool) → (A → A) → List A → List A
  update_where p f [] = []
  update_where p f (a ∷ rows) = (if p a then f a else a) ∷ update_where p f rows

  -- `result.rowcount` of the update
  unfoldable pub rowcount : (A → Bool) → List A → ℕ
  rowcount p [] = 0
  rowcount p (a ∷ rows) = let rest = rowcount p rows in if p a then suc rest else rest

  abbrev pub holds : (A → Bool) → Option A → Bool
  holds p none = false
  holds p (some a) = p a

module _ {ℓ} {K : Type 0} ⦃keys : Eq K⦄ {A : Type ℓ} (key : A → K) where
  pub find-key : (k : K) (rows : List A) (a : A) → find key k rows ≡ some a → key a ≡ k
  unfolding find
  find-key k [] a h = cc
  find-key k (x ∷ rows) a h = ground (arith, keys.eqb_iff (key x) k, find-key k rows a)

  pub find-merge :
      (b : A) (k : K) (rows : List A)
      → find key k (merge key b rows) ≡ (if key b == k then some b else find key k rows)
  unfolding find merge
  find-merge b k [] = refl
  find-merge b k (x ∷ rows) = ground (
    arith,
    keys.eqb_iff (key x) (key b),
    keys.eqb_iff (key b) k,
    keys.eqb_iff (key x) k,
    find-merge b k rows,
  )

  pub find-update_where :
      (p : A → Bool) (f : A → A)
      → ((a : A) → p a ≡ true → key (f a) ≡ key a)
      → (k : K) (rows : List A)
      → find key k (update_where p f rows)
        ≡ Option.map (λ a. if p a then f a else a) (find key k rows)
  unfolding find update_where
  find-update_where p f same k [] = refl
  find-update_where p f same k (x ∷ rows) = ground (
    arith,
    same x,
    find-update_where p f same k rows,
    keys.eqb_iff (key x) k,
    keys.eqb_iff (key (f x)) k,
  )

  pub update_where-Unique :
      (p : A → Bool) (f : A → A)
      → ((a : A) → p a ≡ true → key (f a) ≡ key a)
      → (rows : List A) → Unique key rows
      → Unique key (update_where p f rows)
  unfolding update_where
  update_where-Unique p f same [] u = tt
  update_where-Unique p f same (x ∷ rows) u = elim (Bool-cases (p x)) [
    | inl e ↦
        rw (e, same x e, find-update_where p f same (key x) rows, u.0)
          (refl, update_where-Unique p f same rows u.1)
    | inr e ↦
        rw (e, find-update_where p f same (key x) rows, u.0)
          (refl, update_where-Unique p f same rows u.1)
  ]

  pub rowcount-absent :
      (p : A → Bool) (k : K) (rows : List A)
      → ((a : A) → p a ≡ true → key a ≡ k)
      → find key k rows ≡ none
      → rowcount p rows ≡ 0
  unfolding find rowcount
  rowcount-absent p k [] only h = refl
  rowcount-absent p k (x ∷ rows) only h =
      ground (arith, only x, keys.eqb_iff (key x) k, rowcount-absent p k rows only)

  -- A statement about one key hits its row or none.
  pub rowcount-Unique :
      (p : A → Bool) (k : K) (rows : List A)
      → ((a : A) → p a ≡ true → key a ≡ k)
      → Unique key rows
      → nat_beq (rowcount p rows) 1 ≡ holds p (find key k rows)
  unfolding find rowcount
  rowcount-Unique p k [] only u = refl
  rowcount-Unique p k (x ∷ rows) only u = elim (Bool-cases (p x)) [
    | inl e ↦
        rw
          (
            e,
            rowcount-absent p k rows only (rw (← only x e) u.0),
            (keys.eqb_iff (key x) k).1 (only x e),
          )
          (sym e)
    | inr e ↦ rw (e) (rowcount-Unique p k rows only u.1 ∙ missed e)
  ]
    where
      missed : p x ≡ false → holds p (find key k rows) ≡ holds p (find key k (x ∷ rows))
      missed e = ground (arith, keys.eqb_iff (key x) k, u.0, e)

  update_where-absent :
      (p : A → Bool) (f : A → A) (k : K) (rows : List A)
      → ((a : A) → p a ≡ true → key a ≡ k)
      → find key k rows ≡ none
      → update_where p f rows ≡ rows
  unfolding find update_where
  update_where-absent p f k [] only h = refl
  update_where-absent p f k (x ∷ rows) only h =
      ground (arith, only x, keys.eqb_iff (key x) k, update_where-absent p f k rows only)

  -- A statement about one key that misses its row changes nothing.
  pub update_where-missed :
      (p : A → Bool) (f : A → A) (k : K) (rows : List A)
      → ((a : A) → p a ≡ true → key a ≡ k)
      → Unique key rows
      → holds p (find key k rows) ≡ false
      → update_where p f rows ≡ rows
  unfolding find update_where
  update_where-missed p f k [] only u h = refl
  update_where-missed p f k (x ∷ rows) only u h = elim (Bool-cases (key x == k)) [
    | inl e ↦ ground (
      arith,
      keys.eqb_iff (key x) k,
      λ (g : key x ≡ k). update_where-absent p f k rows only (rw (← g) u.0),
    )
    | inr e ↦
        ground (arith, only x, keys.eqb_iff (key x) k, update_where-missed p f k rows only u.1)
  ]

  -- A row that a statement does not select stays as it is.
  pub find-update_where_miss :
      (p : A → Bool) (f : A → A)
      → ((a : A) → p a ≡ true → key (f a) ≡ key a)
      → (k : K) (rows : List A) (r : A) → find key k rows ≡ some r
      → p r ≡ false
      → find key k (update_where p f rows) ≡ some r
  find-update_where_miss p f same k rows r found miss =
      find-update_where p f same k rows ∙ rw (found, Option.map, miss)

  -- A row that it selects is rewritten.
  pub find-update_where_hit :
      (p : A → Bool) (f : A → A)
      → ((a : A) → p a ≡ true → key (f a) ≡ key a)
      → (k : K) (rows : List A) (r : A) → find key k rows ≡ some r
      → p r ≡ true
      → find key k (update_where p f rows) ≡ some (f r)
  find-update_where_hit p f same k rows r found hit =
      find-update_where p f same k rows ∙ rw (found, Option.map, hit)

  -- A row that is there is found before any that is added.
  pub find-append :
      (k : K) (rows : List A) (x r : A)
      → find key k rows ≡ some r
      → find key k (rows ++ x ∷ []) ≡ some r
  unfolding find
  find-append k [] x r h = cc
  find-append k (y ∷ rows) x r h = ground (arith, find-append k rows x r)

  pub find-append_none :
      (k : K) (rows : List A) (x : A)
      → find key k rows ≡ none
      → find key k (rows ++ x ∷ []) ≡ (if key x == k then some x else none)
  unfolding find
  find-append_none k [] x h = refl
  find-append_none k (y ∷ rows) x h = ground (arith, find-append_none k rows x)

  -- A row with a new key may be added.
  pub append-Unique :
      (x : A) (rows : List A)
      → Unique key rows
      → find key (key x) rows ≡ none
      → Unique key (rows ++ x ∷ [])
  unfolding find
  append-Unique x [] u h = (refl, tt)
  append-Unique x (y ∷ rows) u h = (
    find-append_none (key y) rows x u.0
        ∙ ground (arith, h, keys.eqb_iff (key x) (key y), keys.eqb_iff (key y) (key x)),
    append-Unique x rows u.1 (ground (arith, h)),
  )
