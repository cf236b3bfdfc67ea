-- ===== src/Executor/Successors.antt =====
-- `add_successors_to_waiting_tasks` of the executor.
pub mod Traversal
pub mod Errors
use netunicorn.Common.{
  String, Bool, true, false, not, ◌&&◌, ◌||◌, Option, none, some, List, [], ◌∷◌, ◌++◌, ◌==◌,
  if◌then◌else◌, or_else,
}
use netunicorn.Common.Int.{ℤ, pred_ℤ, is_nonpositive}
use netunicorn.Graph.{Node, Edge, Digraph}
use netunicorn.Executor.Types.{Result, return, raise, key_error, value_error, ◌>>=◌}

-- The value of "traverse_on" that counts for an edge.
unfoldable pub traverse_on : Bool → Edge → String
traverse_on early_stopping d = or_else d.traverse_on (if early_stopping then "success" else "any")

unfoldable pub known : String → Bool
known t = t == "success" || (t == "failure" || t == "any")

-- `outcome` is `task_execution_successful`; `none` is a synchronization point.
unfoldable pub traverses : Option Bool → String → Bool
traverses none t = true
traverses (some ok) t = t == "any" || (t == "success" && ok || t == "failure" && not ok)

-- `task_execution_successful is False`
abbrev pub is_false : Option Bool → Bool
is_false none = false
is_false (some ok) = not ok

module _ (nx : Digraph) where
  open nx use {Graph, edge, successors, remove_edge, set_counter}

  -- The variables of the loop over the successors.
  pub record Sweep : Type 0 where
    pub graph : Graph
    pub waiting : List Node
    pub any_edges : Bool
    pub to_delete : List Node

  -- The part of the loop's body behind the tests: the counter of an edge that is traversed.
  pub count_down : Node → Node → Option ℤ → Sweep → Sweep
  count_down u v none s = s
  count_down u v (some c) s = record s {
    graph = set_counter s.graph u v (pred_ℤ c);
    to_delete = if is_nonpositive (pred_ℤ c) then s.to_delete ++ v ∷ [] else s.to_delete;
  }

  -- The loop's body for the edge from `u` to `v`, whose attributes are looked up first.
  pub visit : Bool → Option Bool → Node → Node → Option Edge → Sweep → Result Sweep
  visit early_stopping outcome u v none s = raise key_error
  visit early_stopping outcome u v (some d) s =
      let t = traverse_on early_stopping d in
      if not (known t)
      then raise value_error
      else if traverses outcome t
      then return
          (count_down u v d.counter (record s { any_edges = true; waiting = s.waiting ++ v ∷ [] }))
      else return s

  pub sweep : Bool → Option Bool → Node → List Node → Sweep → Result Sweep
  sweep early_stopping outcome u [] s = return s
  sweep early_stopping outcome u (v ∷ vs) s =
      visit early_stopping outcome u v (edge s.graph u v) s >>= sweep early_stopping outcome u vs

  pub remove_edges : Node → List Node → Graph → Graph
  remove_edges u [] g = g
  remove_edges u (v ∷ vs) g = remove_edges u vs (remove_edge g u v)

  -- The result says whether to stop, with the list of waiting tasks and the graph as they are then.
  -- A call that raises changes the graph too; it ends the run, and the graph is not read again.
  unfoldable pub add_successors :
      Bool → Option Bool → Node → List Node → Graph → Result (Bool × List Node × Graph)
  unfolding sweep visit count_down remove_edges traverse_on known traverses
  add_successors early_stopping outcome u waiting g =
      sweep early_stopping outcome u (successors g u)
        (record { graph = g; waiting = waiting; any_edges = false; to_delete = [] })
      >>= λ s. return (
        is_false outcome && (early_stopping && not s.any_edges),
        s.waiting,
        remove_edges u s.to_delete s.graph,
      )
