-- ===== src/Registry/Agents/Routes.antt =====
-- framework/registry.py, `AgentRegistry._routes`: what popping, setting and replacing routes keep.
use agent_task_platform.Prelude.{
  String, ◌≡◌, ◌≢◌, refl, Bool, true, false, ◌&&◌, ◌||◌, some, List, [], ◌∷◌, arith, ◌==◌,
  string_eq, pair_eq, keep, All, All-map, All-keep, inl, inr, differs, Bool-cases, Option-cases,
}
use agent_task_platform.Domain.Entities.{AgentSpec, Dict}
use agent_task_platform.Table.{find, Unique}
use agent_task_platform.Table.Keys.{Unique-self}
use agent_task_platform.World.{dict_get, dict_set, dict_pop}
use agent_task_platform.Registry.Latest.{latest-All}
use agent_task_platform.Registry.Agents.{
  agent_key, serves, latest_enabled_for_tag, route_all, replaced, replace_all, reroute,
}

-- The agent of the route is registered under its key, enabled, and has the route's tag.
abbrev pub IsServing : List AgentSpec → String × AgentSpec → Type 0
IsServing agents (tag, a) = (find agent_key (agent_key a) agents ≡ some a) × (serves tag a ≡ true)

module _ {ℓ κ} {A : Type ℓ} (P : String × A → Type κ) where
  pub dict_set-All : (k : String) (a : A) (d : Dict A) → P (k, a) → All P d → All P (dict_set k a d)
  unfolding dict_set
  dict_set-All k a [] h all = (h, tt)
  dict_set-All k a ((j, b) ∷ d) h all = elim (Bool-cases (j == k)) [
    | inl e ↦ rw e (h, all.1)
    | inr e ↦ rw e (all.0, dict_set-All k a d h all.1)
  ]

  pub dict_get-All : (k : String) (d : Dict A) (a : A) → All P d → dict_get k d ≡ some a → P (k, a)
  unfolding dict_get
  dict_get-All k [] a all h = cc
  dict_get-All k ((j, b) ∷ d) a all h = elim (Bool-cases (j == k)) [
    | inl e ↦
        let same : b ≡ a = ground (arith, h, e) in rw (← (string_eq.eqb_iff j k).0 e, ← same) all.0
    | inr e ↦ dict_get-All k d a all.1 (ground (arith, h, e))
  ]

  pub dict_pop-All : (k : String) (d : Dict A) → All (λ p. p.0 ≢ k → P p) d → All P (dict_pop k d)
  unfolding dict_pop
  dict_pop-All k [] all = tt
  dict_pop-All k ((j, b) ∷ d) all = elim (Bool-cases (j == k)) [
    | inl e ↦ rw e (dict_pop-All k d all.1)
    | inr e ↦ rw e (all.0 (ground (arith, string_eq.eqb_iff j k)), dict_pop-All k d all.1)
  ]

module _ (newer : String → String → Bool) where
  pub latest_enabled_for_tag-IsServing :
      (tag : String) (agents : List AgentSpec) (a : AgentSpec)
      → Unique agent_key agents
      → latest_enabled_for_tag newer tag agents ≡ some a
      → IsServing agents (tag, a)
  unfolding latest_enabled_for_tag
  latest_enabled_for_tag-IsServing tag agents a unique h =
      latest-All newer (λ b. b.version) (λ b. IsServing agents (tag, b)) (keep (serves tag) agents)
        a
        (All-keep (λ b. IsServing agents (tag, b)) (serves tag) agents
          (All-map (λ b. find agent_key (agent_key b) agents ≡ some b)
            (λ b. serves tag b ≡ true → IsServing agents (tag, b)) (λ b found on. (found, on))
            agents (Unique-self agent_key agents unique)))
        h

  -- A replaced route is served.
  pub replaced-All {κ} :
      (P : String × AgentSpec → Type κ) (tag : String) (agents : List AgentSpec)
      (routes : Dict AgentSpec)
      → Unique agent_key agents
      → ((a : AgentSpec) → IsServing agents (tag, a) → P (tag, a))
      → All P routes
      → All P (replaced tag (latest_enabled_for_tag newer tag agents) routes)
  replaced-All P tag agents routes unique gives all =
      elim (Option-cases (latest_enabled_for_tag newer tag agents)) [
        | inl e ↦ rw e all
        | inr (a, e) ↦ rw e (
            dict_set-All P tag a routes
              (gives a (latest_enabled_for_tag-IsServing tag agents a unique e)) all)
      ]

  pub replace_all-All :
      (agents : List AgentSpec) (tags : List String) (routes : Dict AgentSpec)
      → Unique agent_key agents
      → All (IsServing agents) routes
      → All (IsServing agents) (replace_all newer agents tags routes)
  unfolding replace_all
  replace_all-All agents [] routes unique all = all
  replace_all-All agents (tag ∷ tags) routes unique all =
      replace_all-All agents tags (replaced tag (latest_enabled_for_tag newer tag agents) routes)
        unique (replaced-All (IsServing agents) tag agents routes unique (λ a h. h) all)

  pub route_all-All {κ} :
      (P : String × AgentSpec → Type κ) (a : AgentSpec) (tags : List String)
      (routes : Dict AgentSpec)
      → All (λ tag. P (tag, a)) tags
      → All P routes
      → All P (route_all a tags routes)
  unfolding route_all
  route_all-All P a [] routes tagged all = all
  route_all-All P a (tag ∷ tags) routes tagged all =
      route_all-All P a tags (dict_set tag a routes) tagged.1
        (dict_set-All P tag a routes tagged.0 all)

  -- A route of the key that the loop has still to pop, by its tag.
  unfoldable pending : String × String → Dict AgentSpec → String → Bool
  pending key [] tag = false
  pending key ((t, a) ∷ rest) tag = (t == tag && agent_key a == key) || pending key rest tag

  reroute-pending :
      (key : String × String) (agents : List AgentSpec) (snapshot routes : Dict AgentSpec)
      → Unique agent_key agents
      → All (λ p. pending key snapshot p.0 ≡ false → IsServing agents p) routes
      → All (IsServing agents) (reroute newer key agents snapshot routes)
  unfolding pending reroute
  reroute-pending key agents [] routes unique all =
      All-map (λ p. false ≡ false → IsServing agents p) (IsServing agents) (λ p f. f refl) routes
        all
  reroute-pending key agents ((t, a) ∷ rest) routes unique all =
      elim (Bool-cases (agent_key a == key)) [
        | inl e ↦ rw e (
            reroute-pending key agents rest
              (replaced t (latest_enabled_for_tag newer t agents) (dict_pop t routes)) unique
              (replaced-All Left t agents (dict_pop t routes) unique (λ b h _. h)
                (dict_pop-All Left t routes (
                  All-map Before (λ p. p.0 ≢ t → Left p) (λ p f other off. f (passed p.0 other off))
                    routes all))))
        | inr e ↦ rw e (
            reroute-pending key agents rest routes unique
              (All-map Before Left (λ p f off. f (kept e p.0 off)) routes all))
      ]
    where
      Before : String × AgentSpec → Type 0
      Before p = pending key ((t, a) ∷ rest) p.0 ≡ false → IsServing agents p

      Left : String × AgentSpec → Type 0
      Left p = pending key rest p.0 ≡ false → IsServing agents p

      passed :
          (tag : String)
          → tag ≢ t
          → pending key rest tag ≡ false
          → pending key ((t, a) ∷ rest) tag ≡ false
      passed tag other off = ground (arith, string_eq.eqb_iff t tag, other, off)

      kept :
          (agent_key a == key) ≡ false
          → (tag : String) → pending key rest tag ≡ false
          → pending key ((t, a) ∷ rest) tag ≡ false
      kept e tag off = ground (arith, e, off)

  none_pending :
      (key : String × String) (agents : List AgentSpec) (d : Dict AgentSpec)
      → All (λ p. agent_key p.1 ≢ key → IsServing agents p) d
      → All (λ p. pending key d p.0 ≡ false → IsServing agents p) d
  unfolding pending
  none_pending key agents [] h = tt
  none_pending key agents ((t, a) ∷ d) h = (
    λ off. h.0 (differs (agent_key a) key (ground (arith, off, string_eq.eqb_iff t t))),
    All-map (λ p. pending key d p.0 ≡ false → IsServing agents p)
        (λ p. pending key ((t, a) ∷ d) p.0 ≡ false → IsServing agents p)
        (λ p f off. f (ground (arith, off))) d (none_pending key agents d h.1),
  )

  -- After the loop every route is served, when only those of the key were not.
  pub reroute-All :
      (key : String × String) (agents : List AgentSpec) (routes : Dict AgentSpec)
      → Unique agent_key agents
      → All (λ p. agent_key p.1 ≢ key → IsServing agents p) routes
      → All (IsServing agents) (reroute newer key agents routes routes)
  reroute-All key agents routes unique all =
      reroute-pending key agents routes routes unique (none_pending key agents routes all)
