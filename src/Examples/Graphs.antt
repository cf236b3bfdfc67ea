-- ===== src/Examples/Graphs.antt =====
-- Graphs, validation and pipelines on concrete inputs: an execution graph of two tasks in a row.
use netunicorn.Common.{true, false, is_some, none, some, List, [], ◌∷◌, ◌==◌, ◌≡◌, refl}
use netunicorn.Common.Int.{pos}
use netunicorn.Graph.{Node, number, task, root, node_eq, has_node, insert, Edge, plain, edge_type}
use netunicorn.Graph.Adjacency.{adjacency, add_vertex, add_arc, drop_arc, get_arc, out_arcs}
use netunicorn.Graph.Validation.{
  Analysis, valid, ExecutionGraph, is_execution_graph_valid, remove_weak,
}
use netunicorn.Graph.Validation.Sound.{IsLawful, valid-IsLawful, edge-remove_weak}
use netunicorn.Pipeline.{
  Pipeline, next_stage, pipeline, new, append, append_cycles, construct, edge_params,
}
use netunicorn.Pipeline.Edges.{Reaches, here, append-Reaches}
use netunicorn.Pipeline.Cycle.{IsLooped, construct-append_cycles, construct-two_loops}

-- Answers that networkx gives for the graphs of this file, which are connected and acyclic.
abbrev pub answers : Analysis adjacency
answers = record {
  weakly_connected = λ g. true;
  dfs_postorder = λ g v. adjacency.nodes g;
  acyclic = λ g. true;
}

abbrev pub counted_edge : Edge
counted_edge = record { type = none; counter = some (pos 2); traverse_on = some "success" }

-- A weak edge back to the first task.
abbrev pub back_edge : Edge
back_edge = record { type = some "weak"; counter = none; traverse_on = none }

abbrev pub row : ExecutionGraph adjacency
row = record {
  graph =
      adjacency.add_edge
        (adjacency.add_edge (adjacency.add_edge adjacency.empty root (task 1) plain) (task 1)
          (task 2) counted_edge)
        (task 2) (task 1) back_edge;
  early_stopping = true;
  report_results = true;
  override_graph_validation = false;
}

pub row-valid : is_execution_graph_valid adjacency answers row ≡ valid
unfolding is_execution_graph_valid has_node add_arc insert node_eq remove_weak drop_arc
row-valid = refl

valid-IsLawful_example : IsLawful (task 1) counted_edge
unfolding get_arc add_arc node_eq
valid-IsLawful_example =
    valid-IsLawful adjacency answers row (task 1) (task 2) counted_edge refl row-valid refl

edge-remove_weak_example :
    (adjacency.edge row.graph (task 1) (task 2) ≡ some counted_edge)
    × ((edge_type counted_edge == "weak") ≡ false)
unfolding remove_weak drop_arc get_arc add_arc node_eq
edge-remove_weak_example =
    edge-remove_weak adjacency answers row.graph (task 1) (task 2) counted_edge refl

-- `Pipeline().then([task 1, task 2])`
abbrev one_stage : Pipeline adjacency
one_stage = append adjacency (task 1 ∷ task 2 ∷ []) (new adjacency)

append-Reaches_example :
    Reaches adjacency one_stage.graph root (task 2)
    × Reaches adjacency one_stage.graph root one_stage.last_stage
unfolding has_node node_eq
append-Reaches_example =
    append-Reaches adjacency (task 1) (task 2 ∷ []) (new adjacency) (task 2) here refl

abbrev stages : List (List Node)
stages = (task 1 ∷ []) ∷ (task 2 ∷ task 3 ∷ []) ∷ []

construct-append_cycles_example :
    IsLooped adjacency (append_cycles adjacency back_edge stages (construct adjacency back_edge []))
unfolding has_node node_eq
construct-append_cycles_example = construct-append_cycles adjacency back_edge stages refl

construct-two_loops_example :
    let p = construct adjacency back_edge stages in
    (is_some (adjacency.edge p.graph p.last_stage root) ≡ true)
    × (node_eq p.last_stage root ≡ false)
    × (is_some (adjacency.edge p.graph root root) ≡ true)
construct-two_loops_example =
    construct-two_loops adjacency back_edge (task 1 ∷ []) ((task 2 ∷ task 3 ∷ []) ∷ [])

-- Tests.
refuses_two_cycles : edge_params (some (pos 2)) ≡ none
unfolding edge_params
refuses_two_cycles = refl

builds_a_row :
    adjacency.successors
      (pipeline adjacency ((task 1 ∷ []) ∷ (task 2 ∷ []) ∷ []) (new adjacency)).graph
      (number 1)
    ≡ task 2 ∷ []
unfolding pipeline next_stage add_vertex add_arc out_arcs insert has_node node_eq
builds_a_row = refl
