-- ===== src/Registry/Agents/Changes.antt =====
-- framework/registry.py, `AgentRegistry`: the routes stay served when one agent is disabled or removed.
use agent_task_platform.Prelude.{
  String, ◌≡◌, ◌≢◌, refl, sym, ◌∙◌, Bool, true, not, Option, none, some, List, ◌==◌, string_eq,
  pair_eq, keep, All, All-map, differs_iff,
}
use agent_task_platform.Domain.Entities.{AgentSpec}
use agent_task_platform.Table.{Unique, update_where, update_where-Unique, find-update_where_miss}
use agent_task_platform.Table.Keys.{find-keep, keep-Unique}
use agent_task_platform.Registry.Agents.{
  AgentRegistry, agent_key, disabled, disable_one, remove_one,
}
use agent_task_platform.Registry.Agents.Routes.{IsServing, reroute-All}

abbrev pub IsRouted : AgentRegistry → Type 0
IsRouted reg = Unique agent_key reg.agents × All (IsServing reg.agents) reg.routes

abbrev pub or_same : Option AgentRegistry → AgentRegistry → AgentRegistry
or_same none reg = reg
or_same (some reg') reg = reg'

module _ (newer : String → String → Bool) where
  pub disable_one-IsRouted :
      (a : AgentSpec) (reg : AgentRegistry) → IsRouted reg → IsRouted (disable_one newer a reg)
  disable_one-IsRouted a reg (unique, served) = (
    still,
    reroute-All newer (agent_key a) agents reg.routes still (
        All-map (IsServing reg.agents) (λ p. agent_key p.1 ≢ agent_key a → IsServing agents p) kept
          reg.routes served),
  )
    where
      selected : AgentSpec → Bool
      selected b = agent_key b == agent_key a

      agents : List AgentSpec
      agents = update_where selected disabled reg.agents

      still : Unique agent_key agents
      still = update_where-Unique agent_key selected disabled (λ b _. refl) reg.agents unique

      kept :
          (p : String × AgentSpec)
          → IsServing reg.agents p
          → agent_key p.1 ≢ agent_key a
          → IsServing agents p
      kept (tag, b) (found, on) other = (
        find-update_where_miss agent_key selected disabled (λ c _. refl) (agent_key b) reg.agents b
            found (differs_iff (agent_key b) (agent_key a) other),
        on,
      )

  pub remove_one-IsRouted :
      (a : AgentSpec) (reg : AgentRegistry) → IsRouted reg → IsRouted (remove_one newer a reg)
  remove_one-IsRouted a reg (unique, served) = (
    still,
    reroute-All newer (agent_key a) agents reg.routes still (
        All-map (IsServing reg.agents) (λ p. agent_key p.1 ≢ agent_key a → IsServing agents p) kept
          reg.routes served),
  )
    where
      left : AgentSpec → Bool
      left b = not (agent_key b == agent_key a)

      agents : List AgentSpec
      agents = keep left reg.agents

      still : Unique agent_key agents
      still = keep-Unique agent_key left reg.agents unique

      stays : (b : AgentSpec) → agent_key b ≢ agent_key a → left b ≡ true
      stays b other = rw (differs_iff (agent_key b) (agent_key a) other) refl

      kept :
          (p : String × AgentSpec)
          → IsServing reg.agents p
          → agent_key p.1 ≢ agent_key a
          → IsServing agents p
      kept (tag, b) (found, on) other = (
        find-keep agent_key left (agent_key b) (λ c e. stays c (λ g. other (sym e ∙ g))) reg.agents
            ∙ found,
        on,
      )
