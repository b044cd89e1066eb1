-- ===== src/Table/Sort.antt =====
-- `ORDER BY` and `LIMIT`: a stable sort of the selected rows by a Boolean order, cut at the limit.
use mathlib.Core.List.{Perm}
use mathlib.Core.List.Perm
use agent_task_platform.Prelude.{
  ℕ, zero, suc, ◌≡◌, Bool, true, false, List, [], ◌∷◌, if◌then◌else◌, All, All-map, take, drop, inl,
  inr, Bool-cases,
}

module _ {ℓ} {A : Type ℓ} (le : A → A → Bool) where
  insert : A → List A → List A
  insert a [] = a ∷ []
  insert a (b ∷ rows) = if le a b then a ∷ b ∷ rows else b ∷ insert a rows

  unfoldable pub order_by : List A → List A
  unfolding insert
  order_by [] = []
  order_by (a ∷ rows) = insert a (order_by rows)

  abbrev pub IsOrdered : List A → Type ℓ
  IsOrdered [] = Unit
  IsOrdered (a ∷ rows) = All (λ b. le a b ≡ true) rows × IsOrdered rows

  insert-perm : (a : A) (rows : List A) → Perm (insert a rows) (a ∷ rows)
  unfolding insert
  insert-perm a [] = Perm.refl (a ∷ [])
  insert-perm a (b ∷ rows) = elim (Bool-cases (le a b)) [
    | inl e ↦ rw e (Perm.refl (a ∷ b ∷ rows))
    | inr e ↦ rw e (Perm.trans (Perm.cons b (insert-perm a rows)) (Perm.swap a b rows))
  ]

  -- Ordering the rows loses none and invents none.
  pub order_by-perm : (rows : List A) → Perm (order_by rows) rows
  unfolding order_by
  order_by-perm [] = Perm.refl []
  order_by-perm (a ∷ rows) =
      Perm.trans (insert-perm a (order_by rows)) (Perm.cons a (order_by-perm rows))

  module _ {κ} (P : A → Type κ) where
    All-insert : (a : A) (rows : List A) → P a → All P rows → All P (insert a rows)
    unfolding insert
    All-insert a [] h hs = (h, tt)
    All-insert a (b ∷ rows) h hs = elim (Bool-cases (le a b)) [
      | inl e ↦ rw e (h, (hs.0, hs.1))
      | inr e ↦ rw e (hs.0, All-insert a rows h hs.1)
    ]

    pub All-order_by : (rows : List A) → All P rows → All P (order_by rows)
    unfolding order_by
    All-order_by [] h = tt
    All-order_by (a ∷ rows) h = All-insert a (order_by rows) h.0 (All-order_by rows h.1)

  module _ (total : (a b : A) → le a b ≡ false → le b a ≡ true)
      (trans : (a b c : A) → le a b ≡ true → le b c ≡ true → le a c ≡ true) where
    insert-IsOrdered : (a : A) (rows : List A) → IsOrdered rows → IsOrdered (insert a rows)
    unfolding insert
    insert-IsOrdered a [] h = (tt, tt)
    insert-IsOrdered a (b ∷ rows) h = elim (Bool-cases (le a b)) [
      | inl e ↦
          rw e (
            (e, All-map (λ c. le b c ≡ true) (λ c. le a c ≡ true) (λ c. trans a b c e) rows h.0),
            h,
          )
      | inr e ↦
          rw e
            (All-insert (λ c. le b c ≡ true) a rows (total a b e) h.0, insert-IsOrdered a rows h.1)
    ]

    pub order_by-IsOrdered : (rows : List A) → IsOrdered (order_by rows)
    unfolding order_by
    order_by-IsOrdered [] = tt
    order_by-IsOrdered (a ∷ rows) = insert-IsOrdered a (order_by rows) (order_by-IsOrdered rows)

  -- What a limit cuts off comes after everything that it keeps.
  pub take-le-drop :
      (n : ℕ) (rows : List A)
      → IsOrdered rows
      → All (λ a. All (λ b. le a b ≡ true) (drop n rows)) (take n rows)
  take-le-drop zero rows h = tt
  take-le-drop (suc n) [] h = tt
  take-le-drop (suc n) (a ∷ rows) h = (keep_after n rows h.0, take-le-drop n rows h.1)
    where
      keep_after :
          (m : ℕ) (bs : List A) → All (λ b. le a b ≡ true) bs → All (λ b. le a b ≡ true) (drop m bs)
      keep_after zero bs hs = hs
      keep_after (suc m) [] hs = tt
      keep_after (suc m) (b ∷ bs) hs = keep_after m bs hs.1
