-- ===== src/Registry/Agents/Defaults.antt =====
-- framework/registry.py, `AgentRegistry.register` with `make_default`: whose route tags it takes.
use agent_task_platform.Prelude.{
  String, ◌≡◌, ◌≢◌, refl, sym, ap, ◌∙◌, Bool, true, false, Option, none, some, List, [], ◌∷◌, arith,
  ◌==◌, string_eq, pair_eq, contains, keep, if◌then◌else◌, inl, inr, Bool-cases, differs_iff,
}
use agent_task_platform.Domain.Entities.{AgentSpec, Dict}
use agent_task_platform.Table.{find}
use agent_task_platform.World.{dict_get, dict_set}
use agent_task_platform.World.Dicts.{dict_get-dict_set}
use agent_task_platform.Registry.Agents.{
  AgentRegistry, agent_key, without, route_all, register, resolve, conflicts, popped,
  routed_elsewhere,
}

dict_get-route_all :
    (a : AgentSpec) (tags : List String) (tag : String) (routes : Dict AgentSpec)
    → dict_get tag (route_all a tags routes)
      ≡ (if contains tags tag then some a else dict_get tag routes)
unfolding route_all contains
dict_get-route_all a [] tag routes = refl
dict_get-route_all a (t ∷ tags) tag routes =
    dict_get-route_all a tags tag (dict_set t a routes)
    ∙ ground
        (arith, dict_get-dict_set t tag a routes, string_eq.eqb_iff t tag, string_eq.eqb_iff tag t)

-- Popping the routes of one key leaves those of the others.
dict_get-without :
    (key : String × String) (tag : String) (b : AgentSpec) (routes : Dict AgentSpec)
    → agent_key b ≢ key
    → dict_get tag routes ≡ some b
    → dict_get tag (without key routes) ≡ some b
unfolding dict_get without keep
dict_get-without key tag b [] other h = cc
dict_get-without key tag b ((t, c) ∷ routes) other h = elim (Bool-cases (t == tag)) [
  | inl e ↦
      let same : c ≡ b = ground (arith, h, e) in
      let off : (agent_key c == key) ≡ false =
        differs_iff (agent_key c) key (λ g. other (rw (← same) g)) in
      rw (off, e) (ap some same)
  | inr e ↦
      let rest : dict_get tag (without key routes) ≡ some b =
        dict_get-without key tag b routes other (ground (arith, h, e)) in
      elim (Bool-cases (agent_key c == key)) [ inl g ↦ rw (g) rest | inr g ↦ rw (g, e) rest ]
]

conflicts-elsewhere :
    (name : String) (tags : List String) (tag : String) (routes : Dict AgentSpec) (b : AgentSpec)
    → dict_get tag routes ≡ some b
    → b.name ≢ name
    → conflicts name tags routes ≡ false
    → contains tags tag ≡ false
unfolding conflicts contains
conflicts-elsewhere name [] tag routes b routed other clear = refl
conflicts-elsewhere name (t ∷ tags) tag routes b routed other clear = elim (Bool-cases (tag == t)) [
  | inl e ↦
      let same : tag ≡ t = (string_eq.eqb_iff tag t).0 e in
      let clash : routed_elsewhere name (dict_get t routes) ≡ true =
        rw (← same, routed, differs_iff b.name name other) refl in
      ground (arith, clear, clash)
  | inr e ↦ ground (arith, e, clear, conflicts-elsewhere name tags tag routes b routed other)
]

abbrev routes_of : Option AgentRegistry → Dict AgentSpec
routes_of none = []
routes_of (some reg) = reg.routes

register-routes :
    (newer : String → String → Bool) (a : AgentSpec) (reg reg' : AgentRegistry)
    → register newer a true reg ≡ some reg'
    → a.enabled ≡ true
    → (conflicts a.name a.route_tags reg.routes ≡ false)
      × (reg'.routes
          ≡ route_all a a.route_tags
              (popped (find agent_key (agent_key a) reg.agents) (agent_key a) reg.routes))
unfolding register
register-routes newer a reg reg' accepted on =
    elim (Bool-cases (conflicts a.name a.route_tags reg.routes)) [
      | inl e ↦ let refused : register newer a true reg ≡ none = rw (register, on, e) refl in cc
      | inr e ↦ (e, sym (ap routes_of accepted) ∙ rw (register, on, e) refl)
    ]

-- A registration of an enabled agent as the default, where it is not refused, makes the agent the
-- answer of `resolve` for each of its route tags, and leaves every route to an agent of another name.
pub registered_is_default :
    (newer : String → String → Bool) (a : AgentSpec) (reg reg' : AgentRegistry)
    → register newer a true reg ≡ some reg'
    → a.enabled ≡ true
    → ((tag : String) → contains a.route_tags tag ≡ true → resolve tag none reg' ≡ some a)
      × ((tag : String) (b : AgentSpec)
          → resolve tag none reg ≡ some b
          → b.name ≢ a.name
          → resolve tag none reg' ≡ some b)
unfolding resolve
registered_is_default newer a reg reg' accepted on = (
  λ tag own. opened tag ∙ rw (own) refl,
  λ tag b before other.
      opened tag
      ∙ rw (conflicts-elsewhere a.name a.route_tags tag reg.routes b before other clear) (
          kept tag b (find agent_key (agent_key a) reg.agents) before
            (λ e. other (ap (λ k. k.0) e))),
)
  where
    clear : conflicts a.name a.route_tags reg.routes ≡ false
    clear = (register-routes newer a reg reg' accepted on).0

    opened :
        (tag : String)
        → dict_get tag reg'.routes ≡ (
            if contains a.route_tags tag
            then some a
            else dict_get tag
                (popped (find agent_key (agent_key a) reg.agents) (agent_key a) reg.routes))
    opened tag =
        rw ((register-routes newer a reg reg' accepted on).1)
          (dict_get-route_all a a.route_tags tag _)

    kept :
        (tag : String) (b : AgentSpec) (previous : Option AgentSpec)
        → dict_get tag reg.routes ≡ some b
        → agent_key b ≢ agent_key a
        → dict_get tag (popped previous (agent_key a) reg.routes) ≡ some b
    kept tag b none h other = h
    kept tag b (some p) h other = dict_get-without (agent_key a) tag b reg.routes other h
