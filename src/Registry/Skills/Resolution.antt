-- ===== src/Registry/Skills/Resolution.antt =====
-- framework/registry.py, `SkillRegistry`: what `get` answers without a version, after any calls.
use agent_task_platform.Prelude.{
  String, ◌≡◌, ◌≢◌, refl, sym, ap, subst, Bool, true, false, Option, none, some, List, [], ◌∷◌,
  ◌==◌, string_eq, pair_eq, keep, inr,
}
use agent_task_platform.Domain.Catalog.{SkillSpec}
use agent_task_platform.Table.{find, find-key}
use agent_task_platform.World.{dict_get}
use agent_task_platform.Registry.Skills.{
  SkillRegistry, SkillResult, raised, answered, not_found, disabled, duplicate, skill_key, live,
  select_default, register, disable, deregister, get, register_all, select_all, of_skills,
  no_skills,
}
use agent_task_platform.Registry.Skills.Defaults.{IsDefaulted, select_default-IsDefaulted}
use agent_task_platform.Registry.Skills.Versions.{IsVersioned, register-IsVersioned}
use agent_task_platform.Registry.Skills.Changes.{
  or_same, disable-IsVersioned, deregister-IsVersioned,
}

-- The calls that change a registry.
pub data Call : Type 0 where
  registered : SkillSpec → Bool → Call
  off : String → Option String → Call
  dropped : String → Option String → Call

module _ (newer : String → String → Bool) where
  -- A call that raises leaves the registry as it was.
  abbrev call : Call → SkillRegistry → SkillRegistry
  call (registered s make_default) reg = register newer s make_default reg
  call (off name version) reg = or_same (disable newer name version reg) reg
  call (dropped name version) reg = or_same (deregister newer name version reg) reg

  abbrev pub calls : List SkillSpec → List Call → SkillRegistry
  calls skills [] = of_skills newer skills
  calls skills (c ∷ earlier) = call c (calls skills earlier)

  register_all-IsVersioned :
      (skills : List SkillSpec) (reg : SkillRegistry)
      → IsVersioned reg
      → IsVersioned (register_all newer skills reg)
  register_all-IsVersioned [] reg h = h
  register_all-IsVersioned (s ∷ rest) reg h =
      register_all-IsVersioned rest (register newer s false reg)
        (register-IsVersioned newer s false reg h)

  select_all-IsVersioned :
      (names : List SkillSpec) (reg : SkillRegistry)
      → IsVersioned reg
      → IsVersioned (select_all newer names reg)
  select_all-IsVersioned [] reg h = h
  select_all-IsVersioned (s ∷ rest) reg (unique, right) =
      select_all-IsVersioned rest
        (record reg { defaults = select_default newer s.name reg.skills reg.defaults })
        (
          unique,
          λ n.
              select_default-IsDefaulted newer s.name n reg.skills reg.defaults unique
                (λ _. right n) (λ _. inr (right n)),
        )

  none_live : (n : String) → IsDefaulted [] n (dict_get n [])
  unfolding live keep dict_get
  none_live n = refl

  call-IsVersioned : (c : Call) (reg : SkillRegistry) → IsVersioned reg → IsVersioned (call c reg)
  call-IsVersioned (registered s make_default) reg h =
      register-IsVersioned newer s make_default reg h
  call-IsVersioned (off name version) reg h = disable-IsVersioned newer name version reg h
  call-IsVersioned (dropped name version) reg h = deregister-IsVersioned newer name version reg h

  calls-IsVersioned :
      (skills : List SkillSpec) (history : List Call) → IsVersioned (calls skills history)
  calls-IsVersioned skills [] =
      select_all-IsVersioned skills (register_all newer skills no_skills)
        (register_all-IsVersioned skills no_skills (tt, none_live))
  calls-IsVersioned skills (c ∷ earlier) =
      call-IsVersioned c (calls skills earlier) (calls-IsVersioned skills earlier)

-- The rows of a name, enabled or not.
abbrev named : String → List SkillSpec → List SkillSpec
named name skills = keep (λ s. s.name == name) skills

-- An enabled registered version, or the error that says why there is none.
abbrev pub IsAnswer : String → List SkillSpec → SkillResult SkillSpec → Type 0
IsAnswer name skills (answered s) =
    (find skill_key (name, s.version) skills ≡ some s) × (s.enabled ≡ true)
IsAnswer name skills (raised disabled) = (live name skills ≡ []) × (named name skills ≢ [])
IsAnswer name skills (raised not_found) = named name skills ≡ []
IsAnswer name skills (raised duplicate) = ⊥

-- After a registry is built from any skills and any sequence of calls is made, `get` of a name without
-- a version answers a version of the name that is registered and enabled, if there is one; it raises
-- `SkillDisabledError` if the name has versions and none is enabled, and `SkillNotFoundError` if the
-- name has none.
pub get_default :
    (newer : String → String → Bool) (skills : List SkillSpec) (history : List Call) (name : String)
    → IsAnswer name (calls newer skills history).skills (get name none (calls newer skills history))
unfolding get
get_default newer skills history name =
    by_default (dict_get name reg.defaults) refl ((calls-IsVersioned newer skills history).1 name)
  where
    reg : SkillRegistry
    reg = calls newer skills history

    by_rows :
        (rows : List SkillSpec)
        → named name reg.skills ≡ rows
        → dict_get name reg.defaults ≡ none
        → live name reg.skills ≡ []
        → IsAnswer name reg.skills (get name none reg)
    by_rows [] empty e h =
        let same : get name none reg ≡ raised not_found = simp (get, e, empty) in
        subst (λ r. IsAnswer name reg.skills r) (sym same) empty
    by_rows (s ∷ rest) some_rows e h =
        let same : get name none reg ≡ raised disabled = simp (get, e, some_rows) in
        subst (λ r. IsAnswer name reg.skills r) (sym same) (h, λ none_left. cc)

    by_default :
        (d : Option String)
        → dict_get name reg.defaults ≡ d
        → IsDefaulted reg.skills name d
        → IsAnswer name reg.skills (get name none reg)
    by_default none e h = by_rows (named name reg.skills) refl e h
    by_default (some v) e (s, found, on) =
        let own : s.version ≡ v = ap (λ k. k.1) (find-key skill_key (name, v) reg.skills s found) in
        let same : get name none reg ≡ answered s = simp (get, e, found, on) in
        subst (λ r. IsAnswer name reg.skills r) (sym same)
          (subst (λ w. find skill_key (name, w) reg.skills ≡ some s) (sym own) found, on)
