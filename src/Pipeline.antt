-- ===== src/Pipeline.antt =====
-- netunicorn-base/src/netunicorn/base/pipeline.py: pipelines and cyclic pipelines, which build an
-- execution graph stage by stage. An element that is one task stands here as the list that
-- `_element_to_stage` makes of it.
pub mod Edges
pub mod Cycle
use netunicorn.Common.{
  ℕ, ◌+◌, Bool, true, false, Option, none, some, List, [], ◌∷◌, is_some, if◌then◌else◌,
}
use netunicorn.Common.Int.{ℤ, pos, negsuc, pred_ℤ, is_nonpositive}
use netunicorn.Graph.{Node, text, number, root, Edge, plain, Digraph}

-- The number of the stage behind `last_stage`.
unfoldable pub next_stage : Node → Node
next_stage (number n) = number (n + 1)
next_stage _ = number 1

-- `cycles <= 2`
abbrev pub is_few : ℤ → Bool
is_few c = is_nonpositive (pred_ℤ (pred_ℤ c))

-- The check of `cycles` in CyclePipeline, and the attributes of the edge back to the root; `none` is
-- a ValueError.
unfoldable pub edge_params : Option ℤ → Option Edge
edge_params none = some (record { type = some "weak"; counter = none; traverse_on = none })
edge_params (some cycles) =
    if is_few cycles
    then none
    else some (record { type = some "weak"; counter = some (pred_ℤ cycles); traverse_on = none })

module _ (nx : Digraph) where
  open nx use {Graph, empty, edge, add_node, add_edge, remove_edge}

  pub record Pipeline : Type 0 where
    pub graph : Graph
    pub last_stage : Node

  -- `add_edges_from([(u, x) for x in xs])` and `add_edges_from([(x, v) for x in xs])`
  pub add_edges_to : Node → List Node → Graph → Graph
  add_edges_to u [] g = g
  add_edges_to u (x ∷ xs) g = add_edges_to u xs (add_edge g u x plain)

  pub add_edges_from : List Node → Node → Graph → Graph
  add_edges_from [] v g = g
  add_edges_from (x ∷ xs) v g = add_edges_from xs v (add_edge g x v plain)

  abbrev pub new : Pipeline
  new = record { graph = add_node empty root; last_stage = root }

  abbrev pub add_stage : List Node → Node → Graph → Graph
  add_stage element initial g =
      add_edges_from element (next_stage initial) (add_edges_to initial element g)

  -- `Pipeline.then`
  unfoldable pub append : List Node → Pipeline → Pipeline
  append element p = record {
    graph = add_stage element p.last_stage p.graph;
    last_stage = next_stage p.last_stage;
  }

  -- The edge back to the root is taken away, if there is one.
  abbrev pub open_loop : Graph → Node → Graph
  open_loop g initial = if is_some (edge g initial root) then remove_edge g initial root else g

  -- `CyclePipeline.then`
  unfoldable pub cycle_append : Edge → List Node → Pipeline → Pipeline
  cycle_append params element p =
      let initial = p.last_stage in
      let next = next_stage initial in
      record {
        graph = add_edge (add_stage element initial (open_loop p.graph initial)) next root params;
        last_stage = next;
      }

  -- The constructors: the stages are appended in order.
  unfoldable pub pipeline : List (List Node) → Pipeline → Pipeline
  unfolding append add_edges_to add_edges_from
  pipeline [] p = p
  pipeline (element ∷ tasks) p = pipeline tasks (append element p)

  unfoldable pub append_cycles : Edge → List (List Node) → Pipeline → Pipeline
  unfolding cycle_append add_edges_to add_edges_from
  append_cycles params [] p = p
  append_cycles params (element ∷ tasks) p =
      append_cycles params tasks (cycle_append params element p)

  -- `CyclePipeline.__init__` past its checks: the edge from the root to itself is added last.
  unfoldable pub construct : Edge → List (List Node) → Pipeline
  unfolding append_cycles
  construct params tasks =
      let p = append_cycles params tasks new in
      record p { graph = add_edge p.graph root root params }

  unfoldable pub cycle_pipeline : Option ℤ → List (List Node) → Option Pipeline
  unfolding construct edge_params
  cycle_pipeline cycles tasks = elim (edge_params cycles) [
    | none ↦ none
    | some params ↦ some (construct params tasks)
  ]
