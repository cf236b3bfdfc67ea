-- ===== src/Director/Infrastructure/Connectors/Seen.antt =====
-- What a user sees of the nodes that the connectors offer, through the infrastructure and the
-- mediator.
use netunicorn.Common.{
  String, Bool, false, ◌&&◌, Option, none, some, List, [], ◌∷◌, ◌≡◌, refl, ◌∙◌, arith, any,
  Option-cases, inl, inr,
}
use netunicorn.Base.{Node}
use netunicorn.Pools.{Nodes, set_property}
use netunicorn.Pools.Filter.{any_item}
use netunicorn.Director.Db.{Db}
use netunicorn.Director.Outcome.{success, failure}
use netunicorn.Director.Mediator.Nodes as Mediator
use netunicorn.Director.Mediator.Nodes.Visible.{any_free, any_free_node, is_visible, any-get_nodes}
use netunicorn.Director.Infrastructure.Connectors.{collect_pools, get_nodes, pop}

-- The connector answers, and offers a node with the property that the user may lock.
abbrev pub offers : (String → Option Nodes) → String → Db → (Node → Bool) → String → Bool
offers answers username db p name = elim (answers name) [
  | none ↦ false
  | some nodes ↦ any_free_node username db p (set_property name nodes)
]

any_free-collect_pools :
    (answers : String → Option Nodes) (username : String) (db : Db) (p : Node → Bool)
    (names connectors : List String)
    → any_free username db p (collect_pools answers names connectors).0
      ≡ any (offers answers username db p) names
unfolding collect_pools any_free
any_free-collect_pools answers username db p [] connectors = refl
any_free-collect_pools answers username db p (name ∷ names) connectors =
    elim (Option-cases (answers name)) [
      | inl q ↦
          ground
            (arith, q, any_free-collect_pools answers username db p names (pop name connectors))
      | inr (nodes, q) ↦
          ground (arith, q, any_free-collect_pools answers username db p names connectors)
    ]

-- Through the infrastructure and the mediator, the user sees a node exactly if a connector that
-- answers offers it, no other user has locked it under this connector, and the access tags allow
-- it; a connector that raises hides no node of another one.
pub any-seen_nodes :
    (answers : String → Option Nodes) (connectors : List String) (accesstags : Option (List String))
    (username : String) (db : Db) (p : Node → Bool)
    → (elim (Mediator.get_nodes (success (get_nodes answers connectors).0) accesstags username db)
        as (λ r. Bool) [ failure e ↦ false | success xs ↦ any_item p xs ])
      ≡ any (offers answers username db (λ x. is_visible accesstags x && p x)) connectors
unfolding get_nodes
any-seen_nodes answers connectors accesstags username db p =
    any-get_nodes (get_nodes answers connectors).0 accesstags username db p
    ∙ any_free-collect_pools answers username db (λ x. is_visible accesstags x && p x) connectors
        connectors
