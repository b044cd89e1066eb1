-- ===== src/Prelude/Classes.antt =====
-- Equality tests as instances: `==` for numbers, texts, optional values and the program's enums.
use Prim.Native.Nat.{ℕ}
use Prim.Native.String.{String}
use mathlib.Core.Path.{◌≡◌, refl, ap}
use mathlib.Core.Logic.{◌↔◌, ◌≢◌}
use mathlib.Core.Bool.{Bool, true, false, ◌||◌, ◌&&◌}
use mathlib.Core.Option.{Option, none, some}
use mathlib.Core.List.{List, [], ◌∷◌}
use native.Mathlib.Omega.{arith}
use text.Mathlib.Text.{◌==◌ as str_eq}
use text.Mathlib.TextEquality.{eq_iff}
use agent_task_platform.Prelude.Tests.{nat_beq, nat_beq_iff}

-- A Boolean test of a type, and that it decides the path.
pub record Eq {ℓ} (T : Type ℓ) : Type ℓ where
  pub eqb : T → T → Bool
  pub eqb_iff : (x y : T) → (eqb x y ≡ true) ↔ (x ≡ y)

instance abbrev pub string_eq : Eq String
string_eq = record { eqb = λ s t. str_eq s t; eqb_iff = λ s t. eq_iff s t }

instance abbrev pub nat_eq : Eq ℕ
nat_eq = record { eqb = λ m n. nat_beq m n; eqb_iff = λ m n. nat_beq_iff m n }

infix 50 ◌==◌
abbrev pub ◌==◌ {ℓ} : {T : Type ℓ} ⦃test : Eq T⦄ → T → T → Bool
◌==◌ ⦃test⦄ x y = test.eqb x y

pub differs {ℓ} : {T : Type ℓ} ⦃test : Eq T⦄ (x y : T) → (x == y) ≡ false → x ≢ y
differs ⦃test⦄ x y off e = ground (arith, (test.eqb_iff x y).1 e, off)

pub differs_iff {ℓ} : {T : Type ℓ} ⦃test : Eq T⦄ (x y : T) → x ≢ y → (x == y) ≡ false
differs_iff ⦃test⦄ x y other = ground (arith, test.eqb_iff x y, other)

module _ {ℓ} {A : Type ℓ} ⦃e : Eq A⦄ where
  abbrev pub option_beq : Option A → Option A → Bool
  option_beq none none = true
  option_beq (some a) (some b) = a == b
  option_beq none (some b) = false
  option_beq (some a) none = false

  pub option_beq_iff : (a b : Option A) → (option_beq a b ≡ true) ↔ (a ≡ b)
  option_beq_iff none none = ((λ _. refl), λ _. refl)
  option_beq_iff (some a) (some b) =
      ((λ h. ap some ((e.eqb_iff a b).0 h)), λ h. (e.eqb_iff a b).1 (cc h))
  option_beq_iff none (some b) = ((λ h. cc), λ h. cc)
  option_beq_iff (some a) none = ((λ h. cc), λ h. cc)

  instance abbrev pub option_eq : Eq (Option A)
  option_eq = record { eqb = option_beq; eqb_iff = option_beq_iff }

module _ {A B : Type 0} ⦃a : Eq A⦄ ⦃b : Eq B⦄ where
  abbrev pub pair_beq : A × B → A × B → Bool
  pair_beq (x, y) (x', y') = x == x' && y == y'

  pub pair_beq_iff : (p q : A × B) → (pair_beq p q ≡ true) ↔ (p ≡ q)
  pair_beq_iff (x, y) (x', y') = ground (arith, a.eqb_iff x x', b.eqb_iff y y')

  instance abbrev pub pair_eq : Eq (A × B)
  pair_eq = record { eqb = pair_beq; eqb_iff = pair_beq_iff }

-- Membership, tested.
module _ {ℓ} {T : Type ℓ} ⦃test : Eq T⦄ where
  unfoldable pub contains : List T → T → Bool
  contains [] y = false
  contains (x ∷ rest) y = y == x || contains rest y
