-- ===== src/Registry/Skills/Defaults.antt =====
-- framework/registry.py, `SkillRegistry._defaults`: selecting the default of a name.
use agent_task_platform.Prelude.{
  String, ◌≡◌, ◌≢◌, refl, ◌∙◌, Bool, true, false, ◌&&◌, Option, none, some, List, [], arith, ◌==◌,
  string_eq, pair_eq, All, All-map, All-keep, inl, inr, ◌⊎◌, Bool-cases, Option-cases, differs,
  differs_iff,
}
use agent_task_platform.Domain.Entities.{Dict}
use agent_task_platform.Domain.Catalog.{SkillSpec}
use agent_task_platform.Table.{find, Unique}
use agent_task_platform.Table.Keys.{Unique-self}
use agent_task_platform.World.{dict_get, dict_set, dict_pop}
use agent_task_platform.World.Dicts.{dict_get-dict_set, dict_get-dict_pop}
use agent_task_platform.Registry.{latest}
use agent_task_platform.Registry.Latest.{latest-All, latest-none}
use agent_task_platform.Registry.Skills.{skill_key, live, select_default, default_among, reselected}

-- A name's default is an enabled version of it, and a name without a default has none.
abbrev pub IsDefaulted : List SkillSpec → String → Option String → Type 0
IsDefaulted skills name none = live name skills ≡ []
IsDefaulted skills name (some v) =
    (s : SkillSpec) × (find skill_key (name, v) skills ≡ some s) × (s.enabled ≡ true)

pub latest-cases :
    (newer : String → String → Bool) (name : String) (skills : List SkillSpec)
    → Unique skill_key skills
    → (live name skills ≡ [])
      ⊎ ((s : SkillSpec) × (latest newer (λ t. t.version) (live name skills) ≡ some s)
          × (find skill_key (name, s.version) skills ≡ some s)
          × (s.enabled ≡ true))
unfolding live
latest-cases newer name skills unique =
    elim (Option-cases (latest newer (λ t. t.version) (live name skills))) [
      | inl e ↦ inl (latest-none newer (λ t. t.version) (live name skills) e)
      | inr (s, e) ↦
          let (found, on) = latest-All newer (λ t. t.version) Live (live name skills) s all e in
          inr (s, e, found, on)
    ]
  where
    Live : SkillSpec → Type 0
    Live t = (find skill_key (name, t.version) skills ≡ some t) × (t.enabled ≡ true)

    lives :
        (t : SkillSpec)
        → find skill_key (skill_key t) skills ≡ some t
        → (t.name == name && t.enabled) ≡ true
        → Live t
    lives t found on =
        let same : t.name ≡ name = (string_eq.eqb_iff t.name name).0 (ground (arith, on)) in
        (rw (← same) found, ground (arith, on))

    all : All Live (live name skills)
    all =
        All-keep Live (λ t. t.name == name && t.enabled) skills
          (All-map (λ t. find skill_key (skill_key t) skills ≡ some t)
            (λ t. (t.name == name && t.enabled) ≡ true → Live t) lives skills
            (Unique-self skill_key skills unique))

-- `_select_default` gives its name a default whenever the name lacks one or has a right one, and
-- leaves the other names.
pub select_default-IsDefaulted :
    (newer : String → String → Bool) (name n : String) (skills : List SkillSpec)
    (defaults : Dict String)
    → Unique skill_key skills
    → (name ≢ n → IsDefaulted skills n (dict_get n defaults))
    → (name ≡ n → (dict_get n defaults ≡ none) ⊎ IsDefaulted skills n (dict_get n defaults))
    → IsDefaulted skills n (dict_get n (select_default newer name skills defaults))
unfolding select_default latest
select_default-IsDefaulted newer name n skills defaults unique others own =
    elim (latest-cases newer name skills unique) [
      | inl e ↦
          let same : select_default newer name skills defaults ≡ defaults =
            rw (select_default, e) refl in
          rw same (elim (Bool-cases (name == n)) [
            | inl g ↦
                let here : name ≡ n = (string_eq.eqb_iff name n).0 g in
                elim (own here) [ inl absent ↦ rw (absent, ← here) e | inr h ↦ h ]
            | inr g ↦ others (differs name n g)
          ])
      | inr (s, e, found, on) ↦
          let set : select_default newer name skills defaults ≡ dict_set name s.version defaults =
            rw (select_default, e) refl in
          rw (set, dict_get-dict_set name n s.version defaults)
            (elim (Bool-cases (name == n)) [
              | inl g ↦ rw (g, ← (string_eq.eqb_iff name n).0 g) (s, found, on)
              | inr g ↦ rw (g) (others (differs name n g))
            ])
    ]

pub reselected-IsDefaulted :
    (newer : String → String → Bool) (name n : String) (changed skills : List SkillSpec)
    (defaults : Dict String)
    → Unique skill_key skills
    → (name ≢ n → IsDefaulted skills n (dict_get n defaults))
    → (name ≡ n
        → default_among (dict_get n defaults) changed ≡ false
        → IsDefaulted skills n (dict_get n defaults))
    → IsDefaulted skills n (dict_get n (reselected newer name changed skills defaults))
reselected-IsDefaulted newer name n changed skills defaults unique others own =
    elim (Bool-cases (default_among (dict_get name defaults) changed)) [
      | inl e ↦
          rw (reselected, e)
            (select_default-IsDefaulted newer name n skills (dict_pop name defaults) unique
              (λ other.
                rw (dict_get-dict_pop name n defaults, differs_iff name n other) (others other))
              (λ same.
                inl (
                  dict_get-dict_pop name n defaults ∙ rw ((string_eq.eqb_iff name n).1 same) refl)))
      | inr e ↦
          rw (reselected, e)
            (elim (Bool-cases (name == n)) [
              | inl g ↦
                  let here : name ≡ n = (string_eq.eqb_iff name n).0 g in own here (rw (← here) e)
              | inr g ↦ others (differs name n g)
            ])
    ]
