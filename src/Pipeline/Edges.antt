-- ===== src/Pipeline/Edges.antt =====
-- The edges of a pipeline.
use netunicorn.Common.{true, ◌&&◌, ◌||◌, List, [], ◌∷◌, ◌≡◌, arith, is_some}
use netunicorn.Graph.{Node, root, node_eq, node_eq_refl, has_node, plain, Digraph}
use netunicorn.Pipeline.{next_stage, Pipeline, add_edges_to, add_edges_from, append}

module _ (nx : Digraph) where
  open nx use {Graph, edge, add_edge, edge-add_edge}

  pub has_edge-add_edges_to :
      (u : Node) (xs : List Node) (g : Graph) (x y : Node)
      → is_some (edge (add_edges_to nx u xs g) x y)
        ≡ (is_some (edge g x y) || node_eq u x && has_node xs y)
  unfolding add_edges_to has_node
  has_edge-add_edges_to u [] g x y = ground arith
  has_edge-add_edges_to u (v ∷ vs) g x y =
      ground (
        arith,
        has_edge-add_edges_to u vs (add_edge g u v plain) x y,
        edge-add_edge g u v plain x y,
      )

  pub has_edge-add_edges_from :
      (xs : List Node) (v : Node) (g : Graph) (x y : Node)
      → is_some (edge (add_edges_from nx xs v g) x y)
        ≡ (is_some (edge g x y) || has_node xs x && node_eq v y)
  unfolding add_edges_from has_node
  has_edge-add_edges_from [] v g x y = ground arith
  has_edge-add_edges_from (u ∷ us) v g x y = ground (
    arith,
    has_edge-add_edges_from us v (add_edge g u v plain) x y,
    edge-add_edge g u v plain x y,
  )

  -- A stage adds exactly the edges from the last stage to each task of it, and from each task to
  -- the next stage.
  pub has_edge-append :
      (element : List Node) (p : Pipeline nx) (x y : Node)
      → is_some (edge (append nx element p).graph x y) ≡ (
          is_some (edge p.graph x y)
          || (node_eq p.last_stage x && has_node element y
              || has_node element x && node_eq (next_stage p.last_stage) y))
  unfolding append
  has_edge-append element p x y = ground (
    arith,
    has_edge-add_edges_from element (next_stage p.last_stage)
        (add_edges_to nx p.last_stage element p.graph) x y,
    has_edge-add_edges_to p.last_stage element p.graph x y,
  )

  -- There is a path from one node to another.
  pub data Reaches (g : Graph) (u : Node) : Node → Type 0 where
    here : Reaches g u u
    step : {v : Node} (w : Node) → Reaches g u v → is_some (edge g v w) ≡ true → Reaches g u w

  Reaches-append :
      (element : List Node) (p : Pipeline nx) (u : Node) {v : Node}
      → Reaches p.graph u v
      → Reaches (append nx element p).graph u v
  Reaches-append element p u here = here
  Reaches-append element p u (step {v = v} w r h) =
      step w (Reaches-append element p u r) (ground (arith, has_edge-append element p v w))

  to_last_stage :
      (element : List Node) (p : Pipeline nx) (v : Node)
      → has_node element v ≡ true
      → is_some (edge (append nx element p).graph v (append nx element p).last_stage) ≡ true
  unfolding append
  to_last_stage element p v m = ground (
    arith,
    has_edge-append element p v (next_stage p.last_stage),
    node_eq_refl (next_stage p.last_stage),
  )

  -- If the last stage is reachable from the root, then so are, after a stage with at least one task
  -- is appended, each task of it and the new last stage.
  pub append-Reaches :
      (t : Node) (element : List Node) (p : Pipeline nx) (v : Node)
      → Reaches p.graph root p.last_stage
      → has_node (t ∷ element) v ≡ true
      → Reaches (append nx (t ∷ element) p).graph root v
        × Reaches (append nx (t ∷ element) p).graph root (append nx (t ∷ element) p).last_stage
  append-Reaches t element p v r m =
      let old = Reaches-append (t ∷ element) p root r in
      let first = step v old (
        ground
          (arith, has_edge-append (t ∷ element) p p.last_stage v, node_eq_refl p.last_stage)) in
      (first, step (append nx (t ∷ element) p).last_stage first (to_last_stage (t ∷ element) p v m))
