-- ===== src/Examples/Pools.antt =====
-- Pools of nodes on concrete inputs.
use netunicorn.Common.{
  ℕ, zero, suc, String, Bool, true, false, any, if◌then◌else◌, ◌&&◌, Option, none, some, List, [],
  ◌∷◌, ◌==◌, ◌≡◌, refl,
}
use netunicorn.Base.{texts, Node, Experiment, empty_experiment}
use netunicorn.Pools.{
  Nodes, Uncountable, Items, countable, uncountable, end, node, pool, skip_nodes, rotate,
  take_nodes,
}
use netunicorn.Pools.Filter.{any_item}
use netunicorn.Pools.Draws.{skip_nodes-rotate, IsTaken, take_nodes-IsTaken}
use netunicorn.Director.Outcome.{success, failure}
use netunicorn.Director.Mediator.Nodes as Mediator
use netunicorn.Director.Infrastructure.Connectors.{get_nodes}
use netunicorn.Director.Infrastructure.Connectors.Seen.{offers, any-seen_nodes}
use netunicorn.Building.{Submission, deployment_of, map_nodes}
use netunicorn.Building.Accepted.{Built, nothing, mapped}
use netunicorn.Director.Mediator.Nodes.Visible.{is_visible}
use netunicorn.Examples.Services.{on_pi, tables}

abbrev pi : Node
pi = on_pi.node

abbrev laptop : Node
laptop = record pi {
  name = "laptop";
  properties = ("netunicorn-access-tags", texts ("staff" ∷ [])) ∷ pi.properties;
}

-- A pool of the two, beside a pool with these templates.
abbrev templates : Uncountable
templates = record { template = pi ∷ laptop ∷ []; ring = pi ∷ laptop ∷ []; soft_limit = some 3 }

abbrev two_pools : Items
two_pools = node pi (pool (countable (node laptop end)) (pool (uncountable templates 1) end))

abbrev str : ℕ → String
str zero = "0"
str (suc n) = "1"

abbrev is_pi : Node → Bool
is_pi x = x.name == "pi"

skip_nodes-rotate_example :
    skip_nodes 5 templates ≡ some (record templates { ring = laptop ∷ pi ∷ [] })
unfolding rotate
skip_nodes-rotate_example = skip_nodes-rotate 5 templates refl

abbrev taken_nodes : Option (List Node) → List Node
taken_nodes none = []
taken_nodes (some xs) = xs

take_nodes-IsTaken_example :
    IsTaken str 3 0 templates (
      taken_nodes (take_nodes str 3 0 templates).0,
      record templates { ring = laptop ∷ pi ∷ [] },
      3,
    )
unfolding take_nodes
take_nodes-IsTaken_example =
    take_nodes-IsTaken str 3 0 templates (record templates { ring = laptop ∷ pi ∷ [] }) 3
      (taken_nodes (take_nodes str 3 0 templates).0) refl

-- The connector "ssh" offers the pools, and "aws" raises.
abbrev offered : String → Option Nodes
offered name = if name == "ssh" then some (countable two_pools) else none

any-seen_nodes_example :
    (elim (Mediator.get_nodes
        (success (get_nodes offered ("aws" ∷ "ssh" ∷ [])).0)
        (some ("guest" ∷ []))
        "ann"
        tables)
      as (λ r. Bool) [ failure e ↦ false | success xs ↦ any_item is_pi xs ])
    ≡ any
        (offers offered "ann" tables (λ x. is_visible (some ("guest" ∷ [])) x && is_pi x))
        ("aws" ∷ "ssh" ∷ [])
any-seen_nodes_example =
    any-seen_nodes offered ("aws" ∷ "ssh" ∷ []) (some ("guest" ∷ [])) "ann" tables is_pi

-- A client deploys one graph on the nodes that are left in the pool.
abbrev one_graph : Submission
one_graph = record {
  environment_definition = on_pi.environment_definition;
  is_valid = true;
  requirements = λ x. "pip install ping3" ∷ [];
  serialized = λ x. "graph";
}

abbrev two_nodes : Experiment
two_nodes = record {
  deployment_map = deployment_of pi one_graph ∷ deployment_of laptop one_graph ∷ [];
  deployment_context = none;
}

two_nodes-Built : Built two_nodes
unfolding map_nodes
two_nodes-Built =
    mapped (empty_experiment none) two_nodes one_graph (pi ∷ laptop ∷ []) (nothing none) refl
