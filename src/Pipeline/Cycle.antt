-- ===== src/Pipeline/Cycle.antt =====
-- The loop edge of a cyclic pipeline.
use netunicorn.Common.{Bool, true, false, not, List, [], ◌∷◌, ◌≡◌, refl, arith, all, is_some}
use netunicorn.Graph.{
  Node, number, root, node_eq, node_eq_iff, node_eq_refl, has_node, Edge, Digraph,
}
use netunicorn.Pipeline.{
  next_stage, Pipeline, add_edges_to, add_stage, open_loop, new, cycle_append, append_cycles,
  construct,
}
use netunicorn.Pipeline.Edges.{has_edge-add_edges_to, has_edge-add_edges_from}

-- A stage is numbered, so it is not the root.
next_stage_ne_root : (u : Node) → node_eq (next_stage u) root ≡ false
unfolding next_stage node_eq
next_stage_ne_root (number n) = refl
next_stage_ne_root _ = refl

abbrev pub no_roots : List (List Node) → Bool
no_roots tasks = all (λ element. not (has_node element root)) tasks

module _ (nx : Digraph) where
  open nx use {
    Graph, empty, edge, add_node, add_edge, remove_edge, edge-empty, edge-add_node, edge-add_edge,
    edge-remove_edge,
  }

  -- An edge to the root starts at the last stage, and there is one once a stage was appended.
  pub record IsLooped (p : Pipeline nx) : Type 0 where
    pub single : (x : Node) → is_some (edge p.graph x root) ≡ true → node_eq p.last_stage x ≡ true

  has_edge-add_stage :
      (element : List Node) (u : Node) (g : Graph) (x : Node)
      → has_node element root ≡ false
      → is_some (edge (add_stage nx element u g) x root) ≡ is_some (edge g x root)
  has_edge-add_stage element u g x h = ground (
    arith,
    has_edge-add_edges_from nx element (next_stage u) (add_edges_to nx u element g) x root,
    has_edge-add_edges_to nx u element g x root,
    next_stage_ne_root u,
  )

  no_loop :
      (element : List Node) (p : Pipeline nx) (x : Node)
      → has_node element root ≡ false
      → IsLooped p
      → is_some
          (edge (add_stage nx element p.last_stage (open_loop nx p.graph p.last_stage)) x root)
        ≡ false
  no_loop element p x h l =
      rw (has_edge-add_stage element p.last_stage (open_loop nx p.graph p.last_stage) x h) (
        ground (
          arith,
          edge-remove_edge p.graph p.last_stage root x root,
          l.single x,
          node_eq_iff p.last_stage x,
          node_eq_refl root,
        ))

  -- A cyclic pipeline has one edge back to the root, from its last stage: each new stage takes the
  -- old one away. The tasks of a stage are not the root.
  pub cycle_append-IsLooped :
      (params : Edge) (element : List Node) (p : Pipeline nx)
      → has_node element root ≡ false
      → IsLooped p
      → IsLooped (cycle_append nx params element p)
        × (is_some (
              edge
                (cycle_append nx params element p).graph
                (cycle_append nx params element p).last_stage
                root)
            ≡ true)
  unfolding cycle_append
  cycle_append-IsLooped params element p h l = (
    record {
      single = λ x m. ground (
        arith,
        edge-add_edge (add_stage nx element p.last_stage (open_loop nx p.graph p.last_stage))
            (next_stage p.last_stage) root params x root,
        no_loop element p x h l,
      );
    },
    ground (
      arith,
      edge-add_edge (add_stage nx element p.last_stage (open_loop nx p.graph p.last_stage))
          (next_stage p.last_stage) root params (next_stage p.last_stage) root,
      node_eq_refl (next_stage p.last_stage),
      node_eq_refl root,
    ),
  )

  append_cycles-IsLooped :
      (params : Edge) (tasks : List (List Node)) (p : Pipeline nx)
      → no_roots tasks ≡ true
      → IsLooped p
      → IsLooped (append_cycles nx params tasks p)
  unfolding append_cycles
  append_cycles-IsLooped params [] p h l = l
  append_cycles-IsLooped params (element ∷ tasks) p h l =
      append_cycles-IsLooped params tasks (cycle_append nx params element p) (ground arith)
        (cycle_append-IsLooped params element p (ground arith) l).0

  construct-empty : (params : Edge) → IsLooped (construct nx params [])
  unfolding construct
  construct-empty params = record {
    single = λ x m. ground (
      arith,
      edge-add_edge (add_node empty root) root root params x root,
      edge-add_node empty root x root,
      edge-empty x root,
    );
  }

  -- A cyclic pipeline that is constructed without tasks and filled by any number of calls of
  -- `then`, of which no stage contains the root, has no edge to the root but from its last stage.
  pub construct-append_cycles :
      (params : Edge) (tasks : List (List Node))
      → no_roots tasks ≡ true
      → IsLooped (append_cycles nx params tasks (construct nx params []))
  construct-append_cycles params tasks h =
      append_cycles-IsLooped params tasks (construct nx params []) h (construct-empty params)

  last_stage_ne_root :
      (params : Edge) (element : List Node) (tasks : List (List Node)) (p : Pipeline nx)
      → node_eq (append_cycles nx params (element ∷ tasks) p).last_stage root ≡ false
  unfolding append_cycles cycle_append
  last_stage_ne_root params element [] p = next_stage_ne_root p.last_stage
  last_stage_ne_root params element (e ∷ tasks) p =
      last_stage_ne_root params e tasks (cycle_append nx params element p)

  last_edge :
      (params : Edge) (element : List Node) (tasks : List (List Node)) (p : Pipeline nx)
      → let q = append_cycles nx params (element ∷ tasks) p in
        is_some (edge q.graph q.last_stage root) ≡ true
  unfolding append_cycles cycle_append
  last_edge params element [] p = ground (
    arith,
    edge-add_edge (add_stage nx element p.last_stage (open_loop nx p.graph p.last_stage))
        (next_stage p.last_stage) root params (next_stage p.last_stage) root,
    node_eq_refl (next_stage p.last_stage),
    node_eq_refl root,
  )
  last_edge params element (e ∷ tasks) p =
      last_edge params e tasks (cycle_append nx params element p)

  -- A cyclic pipeline that is given tasks when it is constructed has two edges back to the root: one
  -- from its last stage, which is not the root, and one from the root to itself.
  pub construct-two_loops :
      (params : Edge) (element : List Node) (tasks : List (List Node))
      → let p = construct nx params (element ∷ tasks) in
        (is_some (edge p.graph p.last_stage root) ≡ true)
        × (node_eq p.last_stage root ≡ false)
        × (is_some (edge p.graph root root) ≡ true)
  unfolding construct
  construct-two_loops params element tasks =
      let p = append_cycles nx params (element ∷ tasks) (new nx) in
      (
        ground (
          arith,
          edge-add_edge p.graph root root params p.last_stage root,
          last_edge params element tasks (new nx),
        ),
        last_stage_ne_root params element tasks (new nx),
        ground (arith, edge-add_edge p.graph root root params root root, node_eq_refl root),
      )
