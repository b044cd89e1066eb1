-- ===== src/Registry/Skills/Versions.antt =====
-- framework/registry.py, `SkillRegistry`: a registration, a switching off and a removal keep the
-- defaults right.
use agent_task_platform.Prelude.{
  String, ◌≡◌, ◌≢◌, refl, sym, ap, subst, ◌∙◌, Bool, true, false, Option, none, some, List, [], ◌∷◌,
  arith, ◌==◌, string_eq, pair_eq, option_eq, keep, inl, inr, Bool-cases, Option-cases, differs,
  differs_iff,
}
use agent_task_platform.Domain.Entities.{Dict}
use agent_task_platform.Domain.Catalog.{SkillSpec}
use agent_task_platform.Table.{find, Unique, merge, find-merge, update_where}
use agent_task_platform.Table.Keys.{merge-Unique}
use agent_task_platform.World.{dict_get, dict_set, dict_pop}
use agent_task_platform.World.Dicts.{dict_get-dict_set, dict_get-dict_pop}
use agent_task_platform.Registry.Skills.{
  SkillRegistry, skill_key, live, select_default, switched_off, register, is_default,
}
use agent_task_platform.Registry.Skills.Defaults.{IsDefaulted, select_default-IsDefaulted}

-- Each name has a default exactly when it has an enabled version, and the default is one.
abbrev pub IsVersioned : SkillRegistry → Type 0
IsVersioned reg =
    Unique skill_key reg.skills
    × ((n : String) → IsDefaulted reg.skills n (dict_get n reg.defaults))

-- A registered version that is enabled adds nothing to the versions of another name.
live-merge_other :
    (b : SkillSpec) (n : String) (rows : List SkillSpec)
    → b.name ≢ n
    → live n (merge skill_key b rows) ≡ live n rows
unfolding live keep merge
live-merge_other b n [] other = rw (differs_iff b.name n other) refl
live-merge_other b n (x ∷ rows) other = elim (Bool-cases (skill_key x == skill_key b)) [
  | inl e ↦
      let same : x.name ≡ b.name =
        ap (λ k. k.0) ((pair_eq.eqb_iff (skill_key x) (skill_key b)).0 e) in
      rw (e, same, differs_iff b.name n other) refl
  | inr e ↦ rw (e, live-merge_other b n rows other) refl
]

live-merge_off :
    (b : SkillSpec) (n : String) (rows : List SkillSpec)
    → b.enabled ≡ false
    → live n rows ≡ []
    → live n (merge skill_key b rows) ≡ []
unfolding live keep merge
live-merge_off b n [] off h = ground (arith, off)
live-merge_off b n (x ∷ rows) off h = elim (Bool-cases (skill_key x == skill_key b)) [
  | inl e ↦ rw (e) (ground (arith, off, h))
  | inr e ↦ rw (e) (ground (arith, h, live-merge_off b n rows off))
]

pub live-update_where :
    (p : SkillSpec → Bool) (n : String) (rows : List SkillSpec)
    → live n rows ≡ []
    → live n (update_where p switched_off rows) ≡ []
unfolding live keep update_where
live-update_where p n [] h = refl
live-update_where p n (x ∷ rows) h = ground (arith, h, live-update_where p n rows)

pub live-keep :
    (p : SkillSpec → Bool) (n : String) (rows : List SkillSpec)
    → live n rows ≡ []
    → live n (keep p rows) ≡ []
unfolding live keep
live-keep p n [] h = refl
live-keep p n (x ∷ rows) h = ground (arith, h, live-keep p n rows)

-- A registration leaves what holds of the other names.
merge-IsDefaulted_other :
    (b : SkillSpec) (n : String) (rows : List SkillSpec) (default : Option String)
    → b.name ≢ n
    → IsDefaulted rows n default
    → IsDefaulted (merge skill_key b rows) n default
merge-IsDefaulted_other b n rows none other h = live-merge_other b n rows other ∙ h
merge-IsDefaulted_other b n rows (some v) other (s, found, on) = (
  s,
  find-merge skill_key b (n, v) rows
      ∙ rw (differs_iff (skill_key b) (n, v) (λ e. other (ap (λ k. k.0) e))) found,
  on,
)

-- A default that is registered again, enabled, stays right.
merge-IsDefaulted_on :
    (b : SkillSpec) (n : String) (rows : List SkillSpec) (v : String)
    → b.enabled ≡ true
    → IsDefaulted rows n (some v)
    → IsDefaulted (merge skill_key b rows) n (some v)
merge-IsDefaulted_on b n rows v enabled (s, found, on) = elim (Bool-cases (skill_key b == (n, v))) [
  | inl e ↦ (b, find-merge skill_key b (n, v) rows ∙ rw (e) refl, enabled)
  | inr e ↦ (s, find-merge skill_key b (n, v) rows ∙ rw (e) found, on)
]

-- A version that is not the default may be registered switched off.
merge-IsDefaulted_off :
    (b : SkillSpec) (n : String) (rows : List SkillSpec) (default : Option String)
    → b.enabled ≡ false
    → (default == some b.version) ≡ false
    → IsDefaulted rows n default
    → IsDefaulted (merge skill_key b rows) n default
merge-IsDefaulted_off b n rows none off other h = live-merge_off b n rows off h
merge-IsDefaulted_off b n rows (some v) off other (s, found, on) = (
  s,
  find-merge skill_key b (n, v) rows
      ∙ rw
          (differs_iff (skill_key b) (n, v)
            (λ e. differs v b.version other (ap (λ k. k.1) (sym e))))
          found,
  on,
)

module _ (newer : String → String → Bool) where
  pub register-IsVersioned :
      (b : SkillSpec) (make_default : Bool) (reg : SkillRegistry)
      → IsVersioned reg
      → IsVersioned (register newer b make_default reg)
  unfolding register
  register-IsVersioned b make_default reg (unique, right) = (still, by_case)
    where
      skills : List SkillSpec
      skills = merge skill_key b reg.skills

      still : Unique skill_key skills
      still = merge-Unique skill_key b reg.skills unique

      own : find skill_key (b.name, b.version) skills ≡ some b
      own =
          find-merge skill_key b (skill_key b) reg.skills
          ∙ rw ((pair_eq.eqb_iff (skill_key b) (skill_key b)).1 refl) refl

      others : (n : String) → b.name ≢ n → IsDefaulted skills n (dict_get n reg.defaults)
      others n other =
          merge-IsDefaulted_other b n reg.skills (dict_get n reg.defaults) other (right n)

      -- what holds of every name once it holds of the registered one
      spread :
          IsDefaulted skills b.name (dict_get b.name reg.defaults)
          → (n : String) → IsDefaulted skills n (dict_get n reg.defaults)
      spread here n = elim (Bool-cases (b.name == n)) [
        | inl e ↦ rw (← (string_eq.eqb_iff b.name n).0 e) here
        | inr e ↦ others n (differs b.name n e)
      ]

      as_default :
          b.enabled ≡ true
          → (n : String)
          → IsDefaulted skills n (dict_get n (dict_set b.name b.version reg.defaults))
      as_default on n =
          rw (dict_get-dict_set b.name n b.version reg.defaults) (elim (Bool-cases (b.name == n)) [
            | inl e ↦ rw (e, ← (string_eq.eqb_iff b.name n).0 e) (b, own, on)
            | inr e ↦ rw (e) (others n (differs b.name n e))
          ])

      selected :
          dict_get b.name reg.defaults ≡ none
          → (n : String)
          → IsDefaulted skills n (dict_get n (select_default newer b.name skills reg.defaults))
      selected absent n =
          select_default-IsDefaulted newer b.name n skills reg.defaults still (others n)
            (λ same. inl (rw (← same) absent))

      popped :
          (n : String)
          → IsDefaulted skills n
              (dict_get n (select_default newer b.name skills (dict_pop b.name reg.defaults)))
      popped n =
          select_default-IsDefaulted newer b.name n skills (dict_pop b.name reg.defaults) still
            (λ other.
              rw (dict_get-dict_pop b.name n reg.defaults, differs_iff b.name n other)
                (others n other))
            (λ same. inl (
              dict_get-dict_pop b.name n reg.defaults
              ∙ rw ((string_eq.eqb_iff b.name n).1 same) refl))

      After : Dict String → String → Type 0
      After defaults n = IsDefaulted skills n (dict_get n defaults)

      reached :
          (defaults : Dict String)
          → (register newer b make_default reg).defaults ≡ defaults
          → (n : String) → After defaults n
          → After (register newer b make_default reg).defaults n
      reached defaults e n h = subst (λ d. After d n) (sym e) h

      by_case : (n : String) → After (register newer b make_default reg).defaults n
      by_case n = elim (Bool-cases b.enabled) [
        | inl on ↦ elim (Bool-cases make_default) [
          | inl d ↦
              reached (dict_set b.name b.version reg.defaults) (simp (register, on, d)) n
                (as_default on n)
          | inr d ↦ elim (Option-cases (dict_get b.name reg.defaults)) [
            | inl e ↦
                reached (select_default newer b.name skills reg.defaults)
                  (simp (register, on, d, e)) n (selected e n)
            | inr (v, e) ↦
                let before : IsDefaulted reg.skills b.name (some v) =
                  subst (λ d. IsDefaulted reg.skills b.name d) e (right b.name) in
                let here = merge-IsDefaulted_on b b.name reg.skills v on before in
                reached reg.defaults (simp (register, on, d, e)) n
                  (spread (subst (λ d. IsDefaulted skills b.name d) (sym e) here) n)
          ]
        ]
        | inr off ↦ elim (Bool-cases (is_default b reg.defaults)) [
          | inl e ↦
              reached (select_default newer b.name skills (dict_pop b.name reg.defaults))
                (simp (register, off, e)) n (popped n)
          | inr e ↦ reached reg.defaults (simp (register, off, e)) n (
              spread
                (merge-IsDefaulted_off b b.name reg.skills (dict_get b.name reg.defaults) off e
                  (right b.name))
                n)
        ]
      ]
