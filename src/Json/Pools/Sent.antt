-- ===== src/Json/Pools/Sent.antt =====
-- The nodes that the infrastructure sends to the mediator.
use netunicorn.Common.{
  ℕ, zero, suc, String, Option, none, some, List, [], ◌∷◌, ◌≡◌, refl, true, insert, ap, arith, map,
  Option-cases, inl, inr,
}
use netunicorn.Base.{text, Node, Properties, infer_environments}
use netunicorn.Pools.{
  Uncountable, Nodes, Items, countable, uncountable, end, node, pool, new_uncountable,
  set_connector, set_property, set_items,
}
use netunicorn.Director.Infrastructure.Connectors.{collect_pools, get_nodes, pop}
use netunicorn.Director.Mediator.Experiments.Listing.{lookup-insert}
use netunicorn.Json.{All}
use netunicorn.Json.RoundTrips.{IsPlain, no_sets}
use netunicorn.Json.Pools.{pool_json, pool_from}
use netunicorn.Json.Pools.Back.{AreFresh, IsFresh, pool-back}

no_sets-insert :
    (c : String) (ps : Properties)
    → no_sets ps ≡ true
    → no_sets (insert "connector" (text c) ps) ≡ true
unfolding insert
no_sets-insert c [] h = refl
no_sets-insert c ((k, p) ∷ ps) h = ground (arith, h, no_sets-insert c ps)

-- The name of the connector does not change which environments a node has.
IsPlain-set_connector : (c : String) (x : Node) → IsPlain x → IsPlain (set_connector c x)
unfolding infer_environments
IsPlain-set_connector c x (h, e, p, q) =
    let same = lookup-insert "netunicorn-environments" "connector" (text c) x.properties in
    (h, rw (infer_environments, same) e, no_sets-insert c x.properties p, q)

All-set_connector :
    (c : String) (xs : List Node) → All IsPlain xs → All IsPlain (map (set_connector c) xs)
All-set_connector c [] h = tt
All-set_connector c (x ∷ xs) (h, hs) = (IsPlain-set_connector c x h, All-set_connector c xs hs)

abbrev ring_of : Option Uncountable → List Node
ring_of none = []
ring_of (some u) = u.ring

unused-ring :
    (t : List Node) (l : Option ℕ) (u : Uncountable) → new_uncountable t l ≡ some u → t ≡ u.ring
unfolding new_uncountable
unused-ring t none u h = ap ring_of h
unused-ring t (some zero) u h = ground (arith, h)
unused-ring t (some (suc n)) u h = ap ring_of h

unused-map :
    (f : Node → Node) (t : List Node) (l : Option ℕ) (u : Uncountable)
    → new_uncountable t l ≡ some u
    → new_uncountable (map f t) l
      ≡ some (record { template = map f t; ring = map f t; soft_limit = l })
unfolding new_uncountable
unused-map f t none u h = refl
unused-map f t (some zero) u h = ground (arith, h)
unused-map f t (some (suc n)) u h = refl

mutual
  unfolding AreFresh set_property

  AreFresh-set_items : (c : String) (xs : Items) → AreFresh xs → AreFresh (set_items c xs)
  AreFresh-set_items c end h = tt
  AreFresh-set_items c (node x xs) (h, hs) =
      (IsPlain-set_connector c x h, AreFresh-set_items c xs hs)
  AreFresh-set_items c (pool p xs) (h, hs) =
      (IsFresh-set_property c p h, AreFresh-set_items c xs hs)

  IsFresh-set_property : (c : String) (p : Nodes) → IsFresh p → IsFresh (set_property c p)
  IsFresh-set_property c (countable xs) h = AreFresh-set_items c xs h
  IsFresh-set_property c (uncountable u n) (h, (k, o)) = (
    All-set_connector c u.template h,
    (
      rw (← unused-ring u.template u.soft_limit u k)
          (unused-map (set_connector c) u.template u.soft_limit u k),
      o,
    ),
  )

-- What a connector answers is fresh; it may raise.
abbrev pub IsOffered : Option Nodes → Type 0
IsOffered none = Unit {0}
IsOffered (some nodes) = IsFresh nodes

collect_pools-AreFresh :
    (answers : String → Option Nodes) (names connectors : List String)
    → ((name : String) → IsOffered (answers name))
    → AreFresh (collect_pools answers names connectors).0
unfolding AreFresh collect_pools
collect_pools-AreFresh answers [] connectors h = tt
collect_pools-AreFresh answers (name ∷ names) connectors h = elim (Option-cases (answers name)) [
  | inl q ↦ rw (collect_pools, q) (collect_pools-AreFresh answers names (pop name connectors) h)
  | inr (nodes, q) ↦
      let offered = h name in
      let fresh : IsFresh nodes = rw q at offered in
      rw (collect_pools, q)
        (IsFresh-set_property name nodes fresh, collect_pools-AreFresh answers names connectors h)
]

-- The nodes that the infrastructure sends are those that the mediator reads, if the connectors offer
-- pools as their constructors make them, of nodes with known architectures and the environments of
-- their properties.
pub get_nodes-back :
    (answers : String → Option Nodes) (connectors : List String)
    → ((name : String) → IsOffered (answers name))
    → pool_from (pool_json (countable (get_nodes answers connectors).0))
      ≡ some (countable (get_nodes answers connectors).0)
unfolding get_nodes IsFresh
get_nodes-back answers connectors h =
    pool-back (countable (get_nodes answers connectors).0)
      (collect_pools-AreFresh answers connectors connectors h)
