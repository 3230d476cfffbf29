-- ===== src/Config/Selectors/Tests.antt =====
-- The validation of one spillover selector.
use llemon_swap.Base.{
  lookup, String, ◌≡◌, ◌↔◌, refl, true, false, none, some, List, [], ◌∷◌, inr, contains,
}
use llemon_swap.Scheduler.State.{pos, Swapper}
use llemon_swap.Planner.Group.{GroupConfig, eviction_for_group}
use llemon_swap.Planner.Lifecycle.{ProviderModel, Lifecycle, wrap_lifecycle, planner_of_groups}
use llemon_swap.Config.Names.{ModelNames, resolve_base_model, resolve_peer_model}
use llemon_swap.Config.Selectors.{SelectorConfig, groups, validate_selector, check_target}
use llemon_swap.Config.Selectors.Accepted.{IsAccepted, validate_selector_iff}

abbrev known : ModelNames
known = record {
  models = "a" ∷ "b" ∷ [];
  aliases = ("x", "a") ∷ [];
  peers = ("p", "m" ∷ []) ∷ ("q", "m" ∷ []) ∷ [];
}

-- A name of two peers is not resolved, and the full name is.
peer-ambiguous : resolve_peer_model known "m" ≡ none
unfolding resolve_peer_model
peer-ambiguous = refl

peer-full : resolve_peer_model known "p/m" ≡ some ("p", "m")
unfolding resolve_peer_model
peer-full = refl

abbrev together : GroupConfig
together = record { swap = false; exclusive = true; persistent = false; members = "a" ∷ "b" ∷ [] }

abbrev demo_groups : List (String × GroupConfig)
demo_groups = ("g", together) ∷ []

abbrev demo_selector : SelectorConfig
demo_selector = record {
  strategy = "spillover";
  targets = "x" ∷ "b" ∷ "p/m" ∷ [];
  spillover = pos 1;
}

demo_accepted :
    validate_selector known ("s" ∷ []) (groups demo_groups) false "s" demo_selector ≡ inr tt
unfolding validate_selector check_target resolve_base_model
demo_accepted = refl

validate_selector_iff_example :
    (validate_selector known ("s" ∷ []) (groups demo_groups) false "s" demo_selector ≡ inr tt)
    ↔ IsAccepted known ("s" ∷ []) (groups demo_groups) false "s" demo_selector
validate_selector_iff_example =
    validate_selector_iff known ("s" ∷ []) (groups demo_groups) false "s" demo_selector

abbrev demo_routes : List (String × String)
demo_routes = ("a", "g") ∷ ("b", "g") ∷ []

abbrev in_pool : ProviderModel
in_pool = record {
  provider = "lemonade";
  lifecycle_pool = "npu";
  residency = "transient";
  residency_priority = pos 0;
}

-- "c" is resident in the pool of "a", which has room for one model.
abbrev full_pool : Lifecycle
full_pool = record {
  has_providers = true;
  models = ("a", in_pool) ∷ ("c", in_pool) ∷ [];
  capacities = ("npu", 1) ∷ [];
  managers =
      (
        "a",
        record {
          resident_aliases = λ pool. "c" ∷ [];
          occupied_llm = 1;
          resident_llm_aliases = λ pool. "c" ∷ [];
        },
      )
      ∷ [];
}

abbrev demo_planner : Swapper
demo_planner = planner_of_groups full_pool demo_groups demo_routes

-- Room is made in the pool, also where the group stops nothing.
demo_room : demo_planner.eviction_for "a" ("b" ∷ []) ≡ "c" ∷ []
unfolding wrap_lifecycle eviction_for_group lookup contains
demo_room = refl

-- The accepted targets "a" and "b" in one pool: "b" makes room for "a".
pool_mates-evicted :
    (planner_of_groups
        (record full_pool {
          models = ("a", in_pool) ∷ ("b", in_pool) ∷ [];
          managers =
              (
                "a",
                record {
                  resident_aliases = λ pool. "b" ∷ [];
                  occupied_llm = 1;
                  resident_llm_aliases = λ pool. "b" ∷ [];
                },
              )
              ∷ [];
        })
        demo_groups
        demo_routes).eviction_for
      "a"
      ("b" ∷ [])
    ≡ "b" ∷ []
unfolding wrap_lifecycle eviction_for_group lookup contains
pool_mates-evicted = refl
