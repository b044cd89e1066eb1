-- ===== src/World/Dicts.antt =====
-- The dicts of the program: what a key answers after another is set or popped.
use agent_task_platform.Prelude.{
  String, ◌≡◌, refl, none, some, [], ◌∷◌, arith, ◌==◌, string_eq, if◌then◌else◌,
}
use agent_task_platform.Domain.Entities.{Dict}
use agent_task_platform.World.{dict_get, dict_set, dict_pop}

pub dict_get-dict_set {ℓ} :
    {A : Type ℓ} (k j : String) (a : A) (d : Dict A)
    → dict_get j (dict_set k a d) ≡ (if k == j then some a else dict_get j d)
unfolding dict_get dict_set
dict_get-dict_set k j a [] = refl
dict_get-dict_set k j a ((i, b) ∷ d) = ground (
  arith,
  string_eq.eqb_iff i k,
  string_eq.eqb_iff i j,
  string_eq.eqb_iff k j,
  dict_get-dict_set k j a d,
)

pub dict_get-dict_pop {ℓ} :
    {A : Type ℓ} (k j : String) (d : Dict A)
    → dict_get j (dict_pop k d) ≡ (if k == j then none else dict_get j d)
unfolding dict_get dict_pop
dict_get-dict_pop k j [] = ground (arith)
dict_get-dict_pop k j ((i, b) ∷ d) = ground (
  arith,
  string_eq.eqb_iff i k,
  string_eq.eqb_iff i j,
  string_eq.eqb_iff k j,
  dict_get-dict_pop k j d,
)
