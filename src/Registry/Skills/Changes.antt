-- ===== src/Registry/Skills/Changes.antt =====
-- framework/registry.py, `SkillRegistry`: `disable` and `deregister` keep the defaults right.
use agent_task_platform.Prelude.{
  String, ◌≡◌, ◌≢◌, refl, sym, ap, subst, ◌∙◌, Bool, true, false, not, Option, none, some, List, [],
  ◌∷◌, arith, string_eq, pair_eq, contains, keep, inl, inr, Bool-cases, differs_iff,
}
use agent_task_platform.Domain.Catalog.{SkillSpec}
use agent_task_platform.Table.{
  find, Unique, update_where, update_where-Unique, find-update_where_miss, find-key,
}
use agent_task_platform.Table.Keys.{find-keep_hit, keep-Unique}
use agent_task_platform.World.{dict_get}
use agent_task_platform.Registry.Skills.{
  SkillRegistry, SkillResult, raised, answered, skill_key, is_selected, switched_off, default_among,
  reselected, disable, deregister, unless_empty,
}
use agent_task_platform.Registry.Skills.Defaults.{IsDefaulted, reselected-IsDefaulted}
use agent_task_platform.Registry.Skills.Versions.{IsVersioned, live-update_where, live-keep}

-- Only skills of the name are selected.
selected-name :
    (name : String) (version : Option String) (s : SkillSpec)
    → is_selected name version s ≡ true
    → s.name ≡ name
selected-name name version s h = (string_eq.eqb_iff s.name name).0 (ground (arith, h))

selected_other :
    (name : String) (version : Option String) (s : SkillSpec)
    → name ≢ s.name
    → is_selected name version s ≡ false
selected_other name version s other = rw (differs_iff s.name name (λ e. other (sym e))) refl

-- A version that is found and selected is among those that the loop collects.
selected_among :
    (p : SkillSpec → Bool) (k : String × String) (rows : List SkillSpec) (s : SkillSpec)
    → find skill_key k rows ≡ some s
    → p s ≡ true
    → default_among (some s.version) (keep p rows) ≡ true
unfolding find keep contains
selected_among p k [] s h on = cc
selected_among p k (x ∷ rows) s h on =
    ground (arith, h, on, selected_among p k rows s, string_eq.eqb_iff s.version s.version)

not_selected :
    (p : SkillSpec → Bool) (n v : String) (rows : List SkillSpec) (s : SkillSpec)
    → find skill_key (n, v) rows ≡ some s
    → default_among (some v) (keep p rows) ≡ false
    → p s ≡ false
not_selected p n v rows s found off = elim (Bool-cases (p s)) [
  | inl e ↦
      let own : s.version ≡ v = ap (λ k. k.1) (find-key skill_key (n, v) rows s found) in
      let among : default_among (some v) (keep p rows) ≡ true =
        rw (← own) (selected_among p (n, v) rows s found e) in
      cc
  | inr e ↦ e
]

module _ (p : SkillSpec → Bool) (n : String) (rows : List SkillSpec) where
  -- A change of the selected rows leaves a right default whose row is not selected.
  switched-IsDefaulted :
      (default : Option String)
      → IsDefaulted rows n default
      → ((s : SkillSpec) (v : String)
          → default ≡ some v
          → find skill_key (n, v) rows ≡ some s
          → p s ≡ false)
      → IsDefaulted (update_where p switched_off rows) n default
  switched-IsDefaulted none h off = live-update_where p n rows h
  switched-IsDefaulted (some v) (s, found, on) off = (
    s,
    find-update_where_miss skill_key p switched_off (λ t _. refl) (n, v) rows s found
        (off s v refl found),
    on,
  )

  kept-IsDefaulted :
      (default : Option String)
      → IsDefaulted rows n default
      → ((s : SkillSpec) (v : String)
          → default ≡ some v
          → find skill_key (n, v) rows ≡ some s
          → p s ≡ false)
      → IsDefaulted (keep (λ t. not (p t)) rows) n default
  kept-IsDefaulted none h off = live-keep (λ t. not (p t)) n rows h
  kept-IsDefaulted (some v) (s, found, on) off = (
    s,
    find-keep_hit skill_key (λ t. not (p t)) (n, v) rows s found (rw (off s v refl found) refl),
    on,
  )

abbrev pub or_same : SkillResult SkillRegistry → SkillRegistry → SkillRegistry
or_same (raised e) reg = reg
or_same (answered reg') reg = reg'

unless_empty-IsVersioned :
    (rows : List SkillSpec) (reg reg' : SkillRegistry)
    → IsVersioned reg
    → IsVersioned reg'
    → IsVersioned (or_same (unless_empty rows reg') reg)
unless_empty-IsVersioned [] reg reg' h h' = h
unless_empty-IsVersioned (s ∷ rows) reg reg' h h' = h'

module _ (newer : String → String → Bool) where
  module _ (name : String) (version : Option String) (reg : SkillRegistry)
      (h : IsVersioned reg) where
    -- A change that takes only selected rows keeps every name right once the default is selected anew.
    changed-IsVersioned :
        (skills : List SkillSpec)
        → Unique skill_key skills
        → ((n : String)
            → ((s : SkillSpec) (v : String)
                → dict_get n reg.defaults ≡ some v
                → find skill_key (n, v) reg.skills ≡ some s
                → is_selected name version s ≡ false)
            → IsDefaulted skills n (dict_get n reg.defaults))
        → IsVersioned (record {
          skills = skills;
          defaults =
              reselected newer name
                (keep (is_selected name version) reg.skills)
                skills
                reg.defaults;
        })
    changed-IsVersioned skills still kept = (
      still,
      λ n.
          reselected-IsDefaulted newer name n (keep (is_selected name version) reg.skills) skills
            reg.defaults still
            (λ other. kept n (λ s v _ found.
              selected_other name version s
                (λ e. other (e ∙ ap (λ k. k.0) (find-key skill_key (n, v) reg.skills s found)))))
            (λ same unchanged. kept n (λ s v e found.
              not_selected (is_selected name version) n v reg.skills s found (
                subst (λ d. default_among d (keep (is_selected name version) reg.skills) ≡ false) e
                  unchanged))),
    )

  pub disable-IsVersioned :
      (name : String) (version : Option String) (reg : SkillRegistry)
      → IsVersioned reg
      → IsVersioned (or_same (disable newer name version reg) reg)
  unfolding disable
  disable-IsVersioned name version reg (unique, right) =
      unless_empty-IsVersioned (keep p reg.skills) reg _ (unique, right)
        (changed-IsVersioned name version reg (unique, right)
          (update_where p switched_off reg.skills)
          (update_where-Unique skill_key p switched_off (λ t _. refl) reg.skills unique)
          (λ n off. switched-IsDefaulted p n reg.skills (dict_get n reg.defaults) (right n) off))
    where
      p : SkillSpec → Bool
      p s = is_selected name version s

  pub deregister-IsVersioned :
      (name : String) (version : Option String) (reg : SkillRegistry)
      → IsVersioned reg
      → IsVersioned (or_same (deregister newer name version reg) reg)
  unfolding deregister
  deregister-IsVersioned name version reg (unique, right) =
      unless_empty-IsVersioned (keep p reg.skills) reg _ (unique, right)
        (changed-IsVersioned name version reg (unique, right) (keep (λ t. not (p t)) reg.skills)
          (keep-Unique skill_key (λ t. not (p t)) reg.skills unique)
          (λ n off. kept-IsDefaulted p n reg.skills (dict_get n reg.defaults) (right n) off))
    where
      p : SkillSpec → Bool
      p s = is_selected name version s
