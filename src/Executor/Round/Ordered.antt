-- ===== src/Executor/Round/Ordered.antt =====
-- The order of execution: a task runs only when its strong predecessors are finished.
use netunicorn.Common.{
  ℕ, String, Bool, true, ◌&&◌, ◌||◌, Option, none, some, List, [], ◌∷◌, ◌++◌, ◌≡◌, refl, arith, all,
  ◌⊎◌, inl, inr, Bool-cases, Option-cases,
}
use netunicorn.Graph.{
  Node, text, number, task, dispatcher, other, has_node, node_eq, node_eq_iff, node_eq_refl, insert,
  has-insert, Digraph,
}
use netunicorn.Executor.Types.{TaskResult, is_successful, return, ◌>>=◌, >>=-eq-return, Probe}
use netunicorn.Executor.Successors.{add_successors}
use netunicorn.Executor.Round.{
  Running, put_running, drop_running, running_nodes, is_strong, is_error, Run, is_ready, traverse,
  abort, complete, collect_one, collect, settle_running, launch, start_one, start_all, begin_round,
  round, Verdict, forget_running,
}
use netunicorn.Executor.Round.Invariant.{
  IsOrdered, is_active, IsOrdered-Advances, strong-add_successors, has-put_running,
  has-drop_running,
}

module _ (nx : Digraph) where
  open nx use {Graph, edge, predecessors, has-predecessors}

  module _ (early_stopping : Bool) (name : ℕ → String) where
    pub record Same (s t : Run nx) : Type 0 where
      pub edges :
          (a v : Node) → is_strong (edge t.graph a v) ≡ true → is_strong (edge s.graph a v) ≡ true
      pub finished : t.finished ≡ s.finished
      pub running : t.running ≡ s.running
      pub waiting : t.waiting ≡ s.waiting

    pub traverse-Same :
        (outcome : Option Bool) (u : Node) (s : Run nx) (r : Bool × Run nx)
        → traverse nx early_stopping name outcome u s ≡ return r
        → Same s r.1
    unfolding traverse
    traverse-Same outcome u s r h =
        let (a, h1, h2) =
          >>=-eq-return (add_successors nx early_stopping outcome u s.to_add s.graph) _ h in
        record {
          edges = λ x v m.
              strong-add_successors nx early_stopping outcome u s.to_add s.graph a x v h1
                (ground arith);
          finished = cc;
          running = cc;
          waiting = cc;
        }

    complete-IsOrdered :
        (t : ℕ) (r : TaskResult) (s s' : Run nx)
        → has_node (running_nodes s.running) (task t) ≡ true
        → complete nx early_stopping name t r s ≡ return s'
        → IsOrdered nx s
        → IsOrdered nx s' × (s'.running ≡ s.running)
    unfolding complete
    complete-IsOrdered t r s s' m h o =
        let (b, h1, h2) = >>=-eq-return _ _ h in
        let same = traverse-Same (some (is_successful r)) (task t) _ b h1 in
        (
          IsOrdered-Advances nx s s'
              (record {
                edges = λ a v strong. same.edges a v (ground arith);
                finished = λ a f. ground (arith, same.finished, has-insert (task t) s.finished a);
                active = λ v act. inl (
                    ground (
                      arith,
                      same.finished,
                      same.running,
                      has-insert (task t) s.finished v,
                      node_eq_iff (task t) v,
                    ));
              })
              o,
          ground (arith, same.running),
        )

    same_run :
        (s s' : Run nx)
        → s'.graph ≡ s.graph
        → s'.finished ≡ s.finished
        → s'.running ≡ s.running
        → IsOrdered nx s
        → IsOrdered nx s'
    same_run s s' g f r o = record {
      before = λ a v strong act. ground (arith, g, f, r, o.before a v);
    }

    pub collect_one_cases :
        (t : ℕ) (p : Probe) (s s' : Run nx)
        → collect_one nx early_stopping name t p s ≡ return s'
        → (s'.graph ≡ s.graph)
            × (s'.finished ≡ s.finished)
            × (s'.running ≡ s.running)
            × (s'.waiting ≡ s.waiting)
          ⊎ (r : TaskResult) × (complete nx early_stopping name t r (record s { processed = true })
              ≡ return s')
    unfolding collect_one abort
    collect_one_cases t p s s' h = elim (Option-cases p.message) [
      | inl e ↦ inl (ground arith)
      | inr (r, e) ↦ elim (Bool-cases (p.empty && p.alive || is_error p.exitcode)) [
        | inl q ↦ inl (ground arith)
        | inr q ↦ inr (r, ground arith)
      ]
    ]

    collect_one-IsOrdered :
        (t : ℕ) (p : Probe) (s s' : Run nx)
        → has_node (running_nodes s.running) (task t) ≡ true
        → collect_one nx early_stopping name t p s ≡ return s'
        → IsOrdered nx s
        → IsOrdered nx s' × (s'.running ≡ s.running)
    collect_one-IsOrdered t p s s' m h o = elim (collect_one_cases t p s s' h) [
      | inl (g, f, r, w) ↦ (same_run s s' g f r o, r)
      | inr (r, e) ↦
          complete-IsOrdered t r (record s { processed = true }) s' m e
            (same_run s (record s { processed = true }) refl refl refl o)
    ]

    collect-IsOrdered :
        (probes : ℕ → Probe) (rs : Running) (s s' : Run nx)
        → all (λ r. has_node (running_nodes s.running) (task r.0)) rs ≡ true
        → collect nx early_stopping name probes rs s ≡ return s'
        → IsOrdered nx s
        → IsOrdered nx s'
    unfolding collect
    collect-IsOrdered probes [] s s' m h o = let e : s ≡ s' = cc in rw (← e) o
    collect-IsOrdered probes ((t, steps) ∷ rs) s s' m h o =
        let (s1, h1, h2) = >>=-eq-return (collect_one nx early_stopping name t (probes t) s) _ h in
        let (o1, e) = collect_one-IsOrdered t (probes t) s s1 (ground arith) h1 o in
        elim (Bool-cases s1.stopped) [
          | inl q ↦ let e2 : s1 ≡ s' = ground (arith, h2) in rw (← e2) o1
          | inr q ↦ collect-IsOrdered probes rs s1 s' (rw e (ground arith)) (rw q at h2) o1
        ]

    launch_active :
        (t : ℕ) (v : Node) (s s' : Run nx)
        → is_ready nx s.graph s.finished (task t) ≡ true
        → record s { running = put_running t s.step_results s.running } ≡ s'
        → is_active nx s' v ≡ true
        → (is_active nx s v ≡ true) ⊎ (is_ready nx s.graph s.finished v ≡ true)
    launch_active t v s s' ready e act = elim (Bool-cases (node_eq (task t) v)) [
      | inl q ↦ inr (let q' : task t ≡ v = (node_eq_iff (task t) v).0 q in rw q' at ready)
      | inr q ↦ inl (ground (arith, e, has-put_running t s.step_results s.running v))
    ]

    synchronize-IsOrdered :
        (v : Node) (s s' : Run nx)
        → is_ready nx s.graph s.finished v ≡ true
        → (traverse nx early_stopping name none v (record s { finished = insert v s.finished })
            >>= λ b. return b.1)
          ≡ return s'
        → IsOrdered nx s
        → IsOrdered nx s'
    synchronize-IsOrdered v s s' ready h o =
        let (b, h1, h2) = >>=-eq-return _ _ h in
        let same = traverse-Same none v _ b h1 in
        IsOrdered-Advances nx s s'
          (record {
            edges = λ a w strong. same.edges a w (ground arith);
            finished = λ a f. ground (arith, same.finished, has-insert v s.finished a);
            active = λ w act. elim (Bool-cases (node_eq v w)) [
              | inl q ↦ inr (let q' : v ≡ w = (node_eq_iff v w).0 q in rw q' at ready)
              | inr q ↦ inl (ground (arith, same.finished, same.running, has-insert v s.finished w))
            ];
          })
          o

    launch-IsOrdered :
        (v : Node) (s s' : Run nx)
        → is_ready nx s.graph s.finished v ≡ true
        → launch nx early_stopping name v s ≡ return s'
        → IsOrdered nx s
        → IsOrdered nx s'
    unfolding launch
    launch-IsOrdered (task t) s s' ready h o =
        IsOrdered-Advances nx s s'
          (record {
            edges = λ a v strong. ground arith;
            finished = λ a f. ground arith;
            active = λ v act. launch_active t v s s' ready (cc) act;
          })
          o
    launch-IsOrdered (text x) s s' ready h o = synchronize-IsOrdered (text x) s s' ready h o
    launch-IsOrdered (number x) s s' ready h o = synchronize-IsOrdered (number x) s s' ready h o
    launch-IsOrdered (dispatcher x) s s' ready h o =
        synchronize-IsOrdered (dispatcher x) s s' ready h o
    launch-IsOrdered (other x) s s' ready h o = synchronize-IsOrdered (other x) s s' ready h o

    start_one-IsOrdered :
        (v : Node) (s s' : Run nx)
        → start_one nx early_stopping name v s ≡ return s'
        → IsOrdered nx s
        → IsOrdered nx s'
    unfolding start_one
    start_one-IsOrdered v s s' h o = elim (Bool-cases (is_ready nx s.graph s.finished v)) [
      | inl q ↦
          let t = record s { to_delete = s.to_delete ++ v ∷ []; processed = true } in
          launch-IsOrdered v t s' q (rw q at h) (same_run s t refl refl refl o)
      | inr q ↦ let e : s ≡ s' = ground arith in rw (← e) o
    ]

    start_all-IsOrdered :
        (vs : List Node) (s s' : Run nx)
        → start_all nx early_stopping name vs s ≡ return s'
        → IsOrdered nx s
        → IsOrdered nx s'
    unfolding start_all
    start_all-IsOrdered [] s s' h o = let e : s ≡ s' = cc in rw (← e) o
    start_all-IsOrdered (v ∷ vs) s s' h o =
        let (t, h1, h2) = >>=-eq-return (start_one nx early_stopping name v s) _ h in
        start_all-IsOrdered vs t s' h2 (start_one-IsOrdered v s t h1 o)

    has-forget_running :
        (xs : List Node) (rs : Running) (v : Node)
        → has_node (running_nodes (forget_running xs rs)) v ≡ true
        → has_node (running_nodes rs) v ≡ true
    has-forget_running [] rs v h = h
    has-forget_running (x ∷ xs) rs v h =
        has-drop_running x rs v (has-forget_running xs (drop_running x rs) v h)

    settle_running-IsOrdered :
        (s : Run nx) → IsOrdered nx s → IsOrdered nx (settle_running nx early_stopping name s)
    unfolding settle_running
    settle_running-IsOrdered s o = record {
      before = λ a v strong act.
          o.before a v strong (ground (arith, has-forget_running s.to_delete s.running v));
    }

    all-running_nodes :
        (rs all_rs : Running)
        → ((v : Node)
            → has_node (running_nodes rs) v ≡ true
            → has_node (running_nodes all_rs) v ≡ true)
        → all (λ r. has_node (running_nodes all_rs) (task r.0)) rs ≡ true
    unfolding has_node
    all-running_nodes [] all_rs h = refl
    all-running_nodes ((t, steps) ∷ rs) all_rs h = ground (
      arith,
      h (task t),
      node_eq_refl (task t),
      all-running_nodes rs all_rs (λ v m. h v (ground arith)),
    )

    -- A round keeps the order: whatever it starts or finishes has its strong predecessors finished.
    pub round-IsOrdered :
        (probes : ℕ → Probe) (arrange : List Node → List Node) (s s' : Run nx) (v : Verdict)
        → round nx early_stopping name probes arrange s ≡ return (v, s')
        → IsOrdered nx s
        → IsOrdered nx s'
    unfolding round
    round-IsOrdered probes arrange s s' v h o =
        let (s1, h1, h2) =
          >>=-eq-return
            (collect nx early_stopping name probes s.running (begin_round nx early_stopping name s))
            _ h in
        let s2 = settle_running nx early_stopping name s1 in
        let (s3, h3, h4) =
          >>=-eq-return (start_all nx early_stopping name (arrange s2.waiting) s2) _ h2 in
        let o1 =
          collect-IsOrdered probes s.running _ s1 (all-running_nodes s.running s.running (λ w m. m))
            h1 (same_run s _ refl refl refl o) in
        let o3 =
          start_all-IsOrdered (arrange s2.waiting) s2 s3 h3 (settle_running-IsOrdered s1 o1) in
        same_run s3 s' (ground arith) (ground arith) (ground arith) o3
