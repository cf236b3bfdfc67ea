-- ===== src/Graph.antt =====
-- The graph of netunicorn-base/src/netunicorn/base/execution_graph.py: its nodes, the attributes of
-- its edges, and the operations of networkx.DiGraph that the program calls, as an interface.
mod Vertex
pub mod Adjacency
pub mod Validation
unfoldable pub use Vertex.*
use netunicorn.Common.{
  Bool, true, ◌&&◌, ◌||◌, Option, none, some, List, [], ◌≡◌, String, is_some, all, if◌then◌else◌,
  or_else,
}
use netunicorn.Common.Int.{ℤ}

-- The attribute dictionary of an edge; `none` is an absent key.
pub record Edge : Type 0 where
  pub type : Option String
  pub counter : Option ℤ
  pub traverse_on : Option String

abbrev pub plain : Edge
plain = record { type = none; counter = none; traverse_on = none }

abbrev pub override {ℓ} : {A : Type ℓ} → Option A → Option A → Option A
override new none = new
override none (some a) = some a
override (some b) (some a) = some b

-- `d.update(attributes)` on the attributes of an edge that may be there already.
abbrev pub update : Edge → Option Edge → Edge
update new none = new
update new (some old) = record {
  type = override new.type old.type;
  counter = override new.counter old.counter;
  traverse_on = override new.traverse_on old.traverse_on;
}

abbrev pub with_counter : ℤ → Option Edge → Option Edge
with_counter c none = none
with_counter c (some d) = some (record d { counter = some c })

-- `edge g u v` is `g.edges[u, v]`, with `none` for a KeyError; `set_counter` is the assignment
-- `g.edges[u, v]["counter"] = c`; `edges` is `g.edges(data=True)`.
pub record Digraph : Type 1 where
  pub Graph : Type 0
  pub empty : Graph
  pub nodes : Graph → List Node
  pub edges : Graph → List (Node × Node × Edge)
  pub edge : Graph → Node → Node → Option Edge
  pub successors : Graph → Node → List Node
  pub predecessors : Graph → Node → List Node
  pub add_node : Graph → Node → Graph
  pub add_edge : Graph → Node → Node → Edge → Graph
  pub remove_edge : Graph → Node → Node → Graph
  pub set_counter : Graph → Node → Node → ℤ → Graph
  pub nodes-empty : nodes empty ≡ []
  pub edge-empty : (u v : Node) → edge empty u v ≡ none
  pub has-successors : (g : Graph) (u v : Node) → has_node (successors g u) v ≡ is_some (edge g u v)
  pub successors-distinct : (g : Graph) (u : Node) → distinct (successors g u) ≡ true
  pub has-predecessors :
      (g : Graph) (v u : Node) → has_node (predecessors g v) u ≡ is_some (edge g u v)
  pub all-edges :
      (g : Graph) (p : Node × Node × Edge → Bool) (u v : Node) (d : Edge)
      → all p (edges g) ≡ true
      → edge g u v ≡ some d
      → p (u, v, d) ≡ true
  pub edge-add_node : (g : Graph) (w u v : Node) → edge (add_node g w) u v ≡ edge g u v
  pub edge-add_edge :
      (g : Graph) (u v : Node) (d : Edge) (x y : Node)
      → edge (add_edge g u v d) x y
        ≡ (if node_eq u x && node_eq v y then some (update d (edge g x y)) else edge g x y)
  pub edge-remove_edge :
      (g : Graph) (u v x y : Node)
      → edge (remove_edge g u v) x y ≡ (if node_eq u x && node_eq v y then none else edge g x y)
  pub edge-set_counter :
      (g : Graph) (u v : Node) (c : ℤ) (x y : Node)
      → edge (set_counter g u v c) x y
        ≡ (if node_eq u x && node_eq v y then with_counter c (edge g x y) else edge g x y)
  pub has-add_node :
      (g : Graph) (w u : Node)
      → has_node (nodes (add_node g w)) u ≡ (node_eq w u || has_node (nodes g) u)
  pub has-add_edge :
      (g : Graph) (u v : Node) (d : Edge) (w : Node)
      → has_node (nodes (add_edge g u v d)) w
        ≡ (node_eq u w || (node_eq v w || has_node (nodes g) w))

-- `d.get("type", "strong")`
abbrev pub edge_type : Edge → String
edge_type d = or_else d.type "strong"
