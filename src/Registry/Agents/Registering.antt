-- ===== src/Registry/Agents/Registering.antt =====
-- framework/registry.py, `AgentRegistry`: the routes stay served when an agent is registered or made
-- the default.
use agent_task_platform.Prelude.{
  String, ◌≡◌, ◌≢◌, refl, sym, ◌∙◌, Bool, true, not, ◌&&◌, ◌||◌, Option, none, some, List, [], ◌∷◌,
  arith, ◌==◌, string_eq, pair_eq, contains, keep, All, All-map, All-keep, if◌then◌else◌, inl, inr,
  Bool-cases, Option-cases, differs, differs_iff,
}
use agent_task_platform.Domain.Entities.{AgentSpec, Dict, truthy}
use agent_task_platform.Table.{find, Unique, merge, find-merge}
use agent_task_platform.Table.Keys.{merge-Unique, Unique-self}
use agent_task_platform.Registry.Latest.{latest-All}
use agent_task_platform.Registry.Agents.{
  AgentRegistry, agent_key, without, route_all, register, set_default, conflicts, popped, refilled,
  or_all, matches, get,
}
use agent_task_platform.Registry.Agents.Routes.{IsServing, replace_all-All, route_all-All}
use agent_task_platform.Registry.Agents.Changes.{IsRouted, or_same}

module _ (newer : String → String → Bool) where
  own_tags : (tags : List String) → All (λ tag. contains tags tag ≡ true) tags
  unfolding contains
  own_tags [] = tt
  own_tags (t ∷ tags) = (
    ground (arith, string_eq.eqb_iff t t),
    All-map (λ tag. contains tags tag ≡ true) (λ tag. contains (t ∷ tags) tag ≡ true)
        (λ tag h. ground (arith, h)) tags (own_tags tags),
  )

  routed_itself :
      (a : AgentSpec) (agents : List AgentSpec)
      → a.enabled ≡ true
      → find agent_key (agent_key a) agents ≡ some a
      → All (λ tag. IsServing agents (tag, a)) a.route_tags
  routed_itself a agents on found =
      All-map (λ tag. contains a.route_tags tag ≡ true) (λ tag. IsServing agents (tag, a))
        (λ tag h. (found, rw (on) h)) a.route_tags (own_tags a.route_tags)

  merged :
      (a : AgentSpec) (reg : AgentRegistry) (p : String × AgentSpec)
      → IsServing reg.agents p
      → agent_key p.1 ≢ agent_key a
      → IsServing (merge agent_key a reg.agents) p
  merged a reg (tag, b) (found, on) other = (
    find-merge agent_key a (agent_key b) reg.agents
        ∙ rw (differs_iff (agent_key a) (agent_key b) (λ e. other (sym e))) found,
    on,
  )

  popped-All :
      (a : AgentSpec) (reg : AgentRegistry) (previous : Option AgentSpec)
      → find agent_key (agent_key a) reg.agents ≡ previous
      → All (IsServing reg.agents) reg.routes
      → All (IsServing (merge agent_key a reg.agents)) (popped previous (agent_key a) reg.routes)
  unfolding without
  popped-All a reg none absent served =
      All-map (IsServing reg.agents) (IsServing (merge agent_key a reg.agents)) kept reg.routes
        served
    where
      kept :
          (p : String × AgentSpec)
          → IsServing reg.agents p
          → IsServing (merge agent_key a reg.agents) p
      kept p h =
          merged a reg p h (λ e. let found : none ≡ some p.1 = sym absent ∙ rw (← e) h.0 in cc)
  popped-All a reg (some previous) found served = without-All reg.routes served
    where
      without-All :
          (d : Dict AgentSpec)
          → All (IsServing reg.agents) d
          → All (IsServing (merge agent_key a reg.agents)) (without (agent_key a) d)
      without-All d h =
          All-keep (IsServing (merge agent_key a reg.agents))
            (λ p. not (agent_key p.1 == agent_key a)) d
            (All-map (IsServing reg.agents)
              (λ p.
                not (agent_key p.1 == agent_key a) ≡ true
                → IsServing (merge agent_key a reg.agents) p)
              (λ p served off.
                merged a reg p served (differs (agent_key p.1) (agent_key a) (ground (arith, off))))
              d h)

  pub register-IsRouted :
      (a : AgentSpec) (make_default : Bool) (reg : AgentRegistry)
      → IsRouted reg
      → IsRouted (or_same (register newer a make_default reg) reg)
  unfolding register
  register-IsRouted a make_default reg (unique, served) =
      elim (Bool-cases ((a.enabled && make_default) && conflicts a.name a.route_tags reg.routes)) [
        | inl e ↦ rw e (unique, served)
        | inr e ↦ rw e (still, routed)
      ]
    where
      agents : List AgentSpec
      agents = merge agent_key a reg.agents

      previous : Option AgentSpec
      previous = find agent_key (agent_key a) reg.agents

      routes : Dict AgentSpec
      routes = popped previous (agent_key a) reg.routes

      still : Unique agent_key agents
      still = merge-Unique agent_key a reg.agents unique

      own : find agent_key (agent_key a) agents ≡ some a
      own =
          find-merge agent_key a (agent_key a) reg.agents
          ∙ rw ((pair_eq.eqb_iff (agent_key a) (agent_key a)).1 refl) refl

      base : All (IsServing agents) routes
      base = popped-All a reg previous refl served

      refilled-All :
          (p : Option AgentSpec) → All (IsServing agents) (refilled newer agents p routes)
      refilled-All none = base
      refilled-All (some p) = replace_all-All newer agents p.route_tags routes still base

      routed : All (IsServing agents) (
          if a.enabled && make_default
          then route_all a a.route_tags routes
          else refilled newer agents previous routes)
      routed = elim (Bool-cases (a.enabled && make_default)) [
        | inl e ↦ rw e (
            route_all-All newer (IsServing agents) a a.route_tags routes
              (routed_itself a agents (ground (arith, e)) own) base)
        | inr e ↦ rw e (refilled-All previous)
      ]

  get-found :
      (name version : String) (reg : AgentRegistry) (a : AgentSpec)
      → Unique agent_key reg.agents
      → get newer name (some version) reg ≡ some a
      → find agent_key (agent_key a) reg.agents ≡ some a
  unfolding get
  get-found name version reg a unique h =
      latest-All newer (λ b. b.version) Found (or_all (keep (λ b. b.enabled) found) found) a
        (or_all-All (keep (λ b. b.enabled) found) (
          All-keep Found (λ b. b.enabled) found
            (All-map Found (λ b. b.enabled ≡ true → Found b) (λ b f _. f) found all)))
        h
    where
      Found : AgentSpec → Type 0
      Found b = find agent_key (agent_key b) reg.agents ≡ some b

      found : List AgentSpec
      found = keep (matches name (truthy (some version))) reg.agents

      all : All Found found
      all = All-keep Found (matches name (truthy (some version))) reg.agents (
          All-map Found (λ b. matches name (truthy (some version)) b ≡ true → Found b) (λ b f _. f)
            reg.agents (Unique-self agent_key reg.agents unique))

      or_all-All : (rows : List AgentSpec) → All Found rows → All Found (or_all rows found)
      or_all-All [] h = all
      or_all-All (x ∷ rows) h = h

  pub set_default-IsRouted :
      (name version : String) (reg : AgentRegistry)
      → IsRouted reg
      → IsRouted (or_same (set_default newer name version reg) reg)
  unfolding set_default
  set_default-IsRouted name version reg (unique, served) =
      elim (Option-cases (get newer name (some version) reg)) [
        | inl e ↦ rw (or_same, e) (unique, served)
        | inr (a, e) ↦
            elim (Bool-cases (not a.enabled || conflicts a.name a.route_tags reg.routes)) [
              | inl g ↦ rw (or_same, e, g) (unique, served)
              | inr g ↦
                  rw (or_same, e, g)
                    (
                      unique,
                      route_all-All newer (IsServing reg.agents) a a.route_tags reg.routes
                          (routed_itself a reg.agents (ground (arith, g))
                            (get-found name version reg a unique e))
                          served,
                    )
            ]
      ]
