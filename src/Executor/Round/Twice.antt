-- ===== src/Executor/Round/Twice.antt =====
-- A task that is started and waits again.
use netunicorn.Common.{
  ℕ, String, Bool, true, false, none, some, List, [], ◌∷◌, ◌++◌, ◌≡◌, refl, arith,
}
use netunicorn.Graph.{Node, number, task, has_node, node_eq_refl, insert, has-insert, Edge, Digraph}
use netunicorn.Executor.Types.{return, Probe}
use netunicorn.Executor.Successors.{traverse_on, known, add_successors}
use netunicorn.Executor.Round.{
  put_running, Run, Verdict, is_ready, traverse, collect, settle_running, launch, start_one,
  start_all, settle_waiting, begin_round, conclude, round,
}

module _ (nx : Digraph) (e : Bool) (name : ℕ → String) where
  open nx use {Graph, edge, successors}

  -- The one edge of the synchronization point is followed, and changes nothing in the graph.
  one_successor :
      (n t : ℕ) (d : Edge) (g : Graph)
      → successors g (number n) ≡ task t ∷ []
      → edge g (number n) (task t) ≡ some d
      → d.counter ≡ none
      → known (traverse_on e d) ≡ true
      → add_successors nx e none (number n) [] g ≡ return (false, task t ∷ [], g)
  unfolding add_successors
  one_successor n t d g hs he hc hk = rw (hs, add_successors) (ground (arith, he, hc, hk))

  both_start :
      (n t : ℕ) (d : Edge) (s : Run nx)
      → s.running ≡ []
      → s.to_add ≡ []
      → is_ready nx s.graph s.finished (number n) ≡ true
      → successors s.graph (number n) ≡ task t ∷ []
      → edge s.graph (number n) (task t) ≡ some d
      → d.counter ≡ none
      → known (traverse_on e d) ≡ true
      → is_ready nx s.graph (insert (number n) s.finished) (task t) ≡ true
      → start_all nx e name (number n ∷ task t ∷ []) s
        ≡ return (record s {
          running = (t, s.step_results) ∷ [];
          finished = insert (number n) s.finished;
          to_delete = (s.to_delete ++ number n ∷ []) ++ task t ∷ [];
          to_add = task t ∷ [];
          processed = true;
        })
  unfolding start_all start_one launch traverse put_running
  both_start n t d s hr ha r1 hs he hc hk r2 =
      ground (arith, hr, ha, r1, r2, one_successor n t d s.graph hs he hc hk)

  -- What the loop over the waiting nodes leaves, and the end of the round.
  abbrev both_started : ℕ → ℕ → Run nx → Run nx
  both_started n t s = record s {
    running = (t, s.step_results) ∷ [];
    finished = insert (number n) s.finished;
    to_delete = number n ∷ task t ∷ [];
    to_add = task t ∷ [];
    processed = true;
  }

  round_computes :
      (probes : ℕ → Probe) (arrange : List Node → List Node) (n t : ℕ) (s s' : Run nx)
      (verdict : Verdict)
      → s.running ≡ []
      → arrange s.waiting ≡ number n ∷ task t ∷ []
      → start_all nx e name (number n ∷ task t ∷ []) (begin_round nx e name s)
        ≡ return (both_started n t s)
      → round nx e name probes arrange s ≡ return (verdict, s')
      → settle_waiting nx e name (both_started n t s) ≡ s'
  unfolding round collect settle_running conclude settle_waiting
  round_computes probes arrange n t s s' verdict hr ha hs h = ground (arith, hr, ha, hs, h)

  has-insert_last : (v : Node) (us : List Node) → has_node (insert v us) v ≡ true
  has-insert_last v us = ground (arith, has-insert v us v, node_eq_refl v)

  -- Suppose no task runs, a synchronization point and a task wait, in this order of iteration, the
  -- point is ready and its one edge leads to the task, without a counter, and the task is ready once
  -- the point is finished. Then the round starts the task, and the task still waits and is ready
  -- when the round ends: the next round starts it once more.
  pub round-starts_twice :
      (probes : ℕ → Probe) (arrange : List Node → List Node) (n t : ℕ) (d : Edge) (s s' : Run nx)
      (verdict : Verdict)
      → s.running ≡ []
      → arrange s.waiting ≡ number n ∷ task t ∷ []
      → is_ready nx s.graph s.finished (number n) ≡ true
      → successors s.graph (number n) ≡ task t ∷ []
      → edge s.graph (number n) (task t) ≡ some d
      → d.counter ≡ none
      → known (traverse_on e d) ≡ true
      → is_ready nx s.graph (insert (number n) s.finished) (task t) ≡ true
      → round nx e name probes arrange s ≡ return (verdict, s')
      → (s'.running ≡ (t, s.step_results) ∷ [])
        × (has_node s'.waiting (task t) ≡ true)
        × (is_ready nx s'.graph s'.finished (task t) ≡ true)
  unfolding settle_waiting
  round-starts_twice probes arrange n t d s s' verdict hr ha r1 hs he hc hk r2 h =
      let b = both_start n t d (begin_round nx e name s) hr refl r1 hs he hc hk r2 in
      let q = round_computes probes arrange n t s s' verdict hr ha b h in
      (ground (arith, q), rw (← q) (has-insert_last (task t) _), rw (← q) r2)
