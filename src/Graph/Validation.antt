-- ===== src/Graph/Validation.antt =====
-- ExecutionGraph of netunicorn-base/src/netunicorn/base/execution_graph.py: its fields and
-- `is_execution_graph_valid`. The analyses that networkx makes of a graph are parameters.
pub mod Sound
use netunicorn.Common.{
  String, Bool, true, not, ◌&&◌, ◌||◌, Option, none, some, List, [], ◌∷◌, all, ◌==◌, ◌≡◌, refl, ◌⊎◌,
  inl, inr, if◌then◌else◌,
}
use netunicorn.Common.Int.{is_nonpositive}
use netunicorn.Graph.{Node, root, has_node, is_task, is_dispatcher, Edge, edge_type, Digraph}

-- `is_weakly_connected`, `dfs_postorder_nodes` and `is_directed_acyclic_graph` of networkx.
pub record Analysis (nx : Digraph) : Type 0 where
  pub weakly_connected : nx.Graph → Bool
  pub dfs_postorder : nx.Graph → Node → List Node
  pub acyclic : nx.Graph → Bool

-- The reasons for which validation raises ValueError.
pub data Fault : Type 0 where
  no_root not_connected unreachable cyclic unreachable_by_strong bad_counter bad_traverse_on
        traverse_on_of_sync_point :
      Fault

pub data Validity : Type 0 where
  valid : Validity
  invalid : Fault → Validity

pub Validity-cases : (v : Validity) → ((f : Fault) × (v ≡ invalid f)) ⊎ (v ≡ valid)
Validity-cases valid = inr refl
Validity-cases (invalid f) = inl (f, refl)

-- One check of the method: the first that fails raises.
abbrev pub check : Bool → Fault → Validity → Validity
check ok fault rest = if ok then rest else invalid fault

abbrev pub counter_is_positive : Edge → Bool
counter_is_positive d = elim d.counter [ none ↦ true | some c ↦ not (is_nonpositive c) ]

abbrev pub is_choice : String → Bool
is_choice t = t == "success" || (t == "failure" || t == "any")

abbrev pub traverse_on_is_choice : Edge → Bool
traverse_on_is_choice d = elim d.traverse_on [ none ↦ true | some t ↦ is_choice t ]

abbrev pub has_no_traverse_on : Edge → Bool
has_no_traverse_on d = elim d.traverse_on [ none ↦ true | some t ↦ Bool.false ]

module _ (nx : Digraph) where
  open nx use {Graph, nodes, edges, remove_edge}

  pub record ExecutionGraph : Type 0 where
    pub graph : Graph
    pub early_stopping : Bool
    pub report_results : Bool
    pub override_graph_validation : Bool

  -- `graph_copy.remove_edges_from` of the weak edges among the given ones.
  unfoldable pub remove_weak : List (Node × Node × Edge) → Graph → Graph
  remove_weak [] g = g
  remove_weak ((u, v, d) ∷ es) g =
      remove_weak es (if edge_type d == "weak" then remove_edge g u v else g)

  -- All nodes of the graph are among those that a search from the root visits.
  abbrev reaches_all : Analysis nx → Graph → Bool
  reaches_all a g = all (λ v. has_node (a.dfs_postorder g root) v) (nodes g)

  unfoldable pub is_execution_graph_valid : Analysis nx → ExecutionGraph → Validity
  unfolding remove_weak
  is_execution_graph_valid a obj =
      let g = obj.graph in
      let strong = remove_weak (edges g) g in
      if obj.override_graph_validation
      then valid
      else check (has_node (nodes g) root) no_root (
          check (a.weakly_connected g) not_connected (
            check (reaches_all a g) unreachable (
              check (a.acyclic strong) cyclic (
                check (reaches_all a strong) unreachable_by_strong (
                  check (all (λ (u, v, d). counter_is_positive d) (edges g)) bad_counter (
                    check (all (λ (u, v, d). traverse_on_is_choice d) (edges g)) bad_traverse_on (
                      check
                        (all (λ (u, v, d). is_task u || is_dispatcher u || has_no_traverse_on d)
                          (edges g))
                        traverse_on_of_sync_point valid)))))))
