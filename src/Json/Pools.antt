-- ===== src/Json/Pools.antt =====
-- The forms of the pools in nodes.py. Python's literal Infinity stands as the text "Infinity", which
-- `float` reads as well.
pub mod Back
pub mod Sent
use netunicorn.Common.{
  ℕ, String, Bool, true, false, Option, none, some, List, [], ◌∷◌, ◌==◌, is_some, if◌then◌else◌,
}
use netunicorn.Base.{Node}
use netunicorn.Pools.{
  Uncountable, Nodes, Items, countable, uncountable, end, node, pool, new_uncountable,
}
use netunicorn.Json.{
  Json, null, number, text, array, object, Elements, no_elements, element, Members, no_members,
  member, ◌>>=◌, get, text_of, elements, list_of,
}
use netunicorn.Json.Entities.{node_json, node_from}

abbrev pub limit_json : Option ℕ → Json
limit_json none = text "Infinity"
limit_json (some n) = number n

-- `CountableNodePool.__json__` and `UncountableNodePool.__json__`
unfoldable mutual
  pub pool_json : Nodes → Json
  pool_json (countable xs) = object (
      member "node_pool_type" (text "CountableNodePool") (
        member "node_pool_data" (array (items_json xs))
          (member "node_pool_metadata" null no_members)))
  pool_json (uncountable u c) = object (
      member "node_pool_type" (text "UncountableNodePool") (
        member "node_pool_data" (array (elements node_json u.template))
          (member "node_pool_metadata" (limit_json u.soft_limit) no_members)))

  pub items_json : Items → Elements
  items_json end = no_elements
  items_json (node x xs) = element (node_json x) (items_json xs)
  items_json (pool p xs) = element (pool_json p) (items_json xs)

-- `"node_pool_type" in element`
abbrev pub is_pool : Json → Bool
is_pool (object ms) = is_some (get "node_pool_type" ms)
is_pool j = false

-- `float(metadata)`, unless the metadata is None or missing.
abbrev pub limit_from : Option Json → Option (Option ℕ)
limit_from none = some none
limit_from (some null) = some none
limit_from (some (number n)) = some (some n)
limit_from (some (text t)) = if t == "Infinity" then some none else none
limit_from (some j) = none

-- An element of an uncountable pool that is a pool is a ValueError.
abbrev pub template_from : Json → Option Node
template_from j = if is_pool j then none else node_from j

unfoldable pub uncountable_from : Members → Option Nodes
unfolding node_from new_uncountable
uncountable_from data_ = get "node_pool_data" data_ >>= list_of template_from >>= λ template.
    limit_from (get "node_pool_metadata" data_) >>= new_uncountable template >>= λ u.
    some (uncountable u 1)

-- `Nodes.dispatch_and_deserialize`, with `from_json` of the two classes; another class of the module
-- has no such method. `countable_from` is the look-up of "node_pool_data".
unfoldable mutual
  pub pool_from : Json → Option Nodes
  pool_from (object data_) =
      let nodes = countable_from data_ in
      get "node_pool_type" data_ >>= text_of >>= λ name.
      if name == "CountableNodePool"
      then (nodes >>= λ xs. some (countable xs))
      else if name == "UncountableNodePool"
      then uncountable_from data_
      else none
  pool_from j = none

  pub countable_from : Members → Option Items
  countable_from no_members = none
  countable_from (member key j ms) =
      let here = array_from j in
      let rest = countable_from ms in if key == "node_pool_data" then here else rest

  pub array_from : Json → Option Items
  array_from (array js) = items_from js
  array_from j = none

  pub items_from : Elements → Option Items
  items_from no_elements = some end
  items_from (element j js) =
      let nested = pool_from j in
      let rest = items_from js in
      if is_pool j
      then (nested >>= λ p. rest >>= λ xs. some (pool p xs))
      else (node_from j >>= λ x. rest >>= λ xs. some (node x xs))
