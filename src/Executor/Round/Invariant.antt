-- ===== src/Executor/Round/Invariant.antt =====
-- The order of execution: the invariant, and what keeps it.
use netunicorn.Common.{
  ℕ, Bool, true, not, ◌||◌, Option, List, [], ◌∷◌, ◌≡◌, refl, arith, ◌⊎◌, inl, inr,
}
use netunicorn.Graph.{Node, task, has_node, all-has_node, node_eq, node_eq_iff, Digraph}
use netunicorn.Executor.Types.{return, StepResults}
use netunicorn.Executor.Successors.{add_successors}
use netunicorn.Executor.Successors.Traversal.{add_successors_lem}
use netunicorn.Executor.Round.{
  Running, put_running, drop_running, running_nodes, is_strong, Run, is_ready,
}

pub has-put_running :
    (t : ℕ) (steps : StepResults) (rs : Running) (v : Node)
    → has_node (running_nodes (put_running t steps rs)) v
      ≡ (node_eq (task t) v || has_node (running_nodes rs) v)
unfolding put_running has_node
has-put_running t steps [] v = refl
has-put_running t steps ((u, old) ∷ rs) v =
    ground (arith, has-put_running t steps rs v, node_eq_iff (task t) v, node_eq_iff (task u) v)

pub has-drop_running :
    (x : Node) (rs : Running) (v : Node)
    → has_node (running_nodes (drop_running x rs)) v ≡ true
    → has_node (running_nodes rs) v ≡ true
unfolding drop_running has_node
has-drop_running x [] v h = h
has-drop_running x ((u, steps) ∷ rs) v h = ground (arith, has-drop_running x rs v)

module _ (nx : Digraph) where
  open nx use {Graph, edge, predecessors, has-predecessors}

  -- Every strong predecessor, in the graph as it is now, of a running or finished node is finished.
  pub record IsOrdered (s : Run nx) : Type 0 where
    pub before :
        (a v : Node)
        → is_strong (edge s.graph a v) ≡ true
        → (has_node s.finished v || has_node (running_nodes s.running) v) ≡ true
        → has_node s.finished a ≡ true

  pub is_ready_lem :
      (g : Graph) (finished : List Node) (a v : Node)
      → is_ready nx g finished v ≡ true
      → is_strong (edge g a v) ≡ true
      → has_node finished a ≡ true
  unfolding is_ready
  is_ready_lem g finished a v h strong = ground (
    arith,
    all-has_node (λ b. not (is_strong (edge g b v)) || has_node finished b) (predecessors g v) a,
    has-predecessors g v a,
  )

  -- A traversal makes no edge, and changes the type of none.
  pub strong-add_successors :
      (e : Bool) (outcome : Option Bool) (u : Node) (w : List Node) (g : Graph)
      (r : Bool × List Node × Graph) (a v : Node)
      → add_successors nx e outcome u w g ≡ return r
      → is_strong (edge r.2 a v) ≡ true
      → is_strong (edge g a v) ≡ true
  strong-add_successors e outcome u w g r a v h strong =
      ground (arith, (add_successors_lem nx e outcome u w g r.0 r.1 r.2 h).1 a v, node_eq_iff u a)

  abbrev pub is_active : Run nx → Node → Bool
  is_active s v = has_node s.finished v || has_node (running_nodes s.running) v

  -- What a part of a round does that keeps the order.
  pub record Advances (s t : Run nx) : Type 0 where
    pub edges :
        (a v : Node) → is_strong (edge t.graph a v) ≡ true → is_strong (edge s.graph a v) ≡ true
    pub finished : (a : Node) → has_node s.finished a ≡ true → has_node t.finished a ≡ true
    pub active :
        (v : Node)
        → is_active t v ≡ true
        → (is_active s v ≡ true) ⊎ (is_ready nx s.graph s.finished v ≡ true)

  pub IsOrdered-Advances : (s t : Run nx) → Advances s t → IsOrdered s → IsOrdered t
  IsOrdered-Advances s t b h = record {
    before = λ a v strong act. b.finished a (elim (b.active v act) [
      | inl old ↦ h.before a v (b.edges a v strong) old
      | inr ready ↦ is_ready_lem s.graph s.finished a v ready (b.edges a v strong)
    ]);
  }
