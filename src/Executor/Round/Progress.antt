-- ===== src/Executor/Round/Progress.antt =====
-- Progress: a waiting node that is ready is started in the next round.
use netunicorn.Common.{
  ℕ, String, Bool, true, not, ◌||◌, none, some, List, [], ◌∷◌, ◌++◌, ◌≡◌, refl, ◌∙◌, arith, inl,
  inr, Bool-cases,
}
use netunicorn.Graph.{
  Node, text, number, task, dispatcher, other, has_node, all-intro, node_eq, node_eq_iff,
  node_eq_refl, insert, has-insert, Digraph,
}
use netunicorn.Executor.Types.{is_successful, TaskResult, return, ◌>>=◌, >>=-eq-return, Probe}
use netunicorn.Executor.Round.{
  Running, put_running, is_strong, Run, Verdict, is_ready, traverse, complete, collect_one, collect,
  settle_running, launch, start_one, start_all, settle_waiting, begin_round, conclude, round,
  enqueue,
}
use netunicorn.Executor.Round.Invariant.{is_active, is_ready_lem, has-put_running}
use netunicorn.Executor.Round.Ordered.{Same, traverse-Same, collect_one_cases}

has-enqueue :
    (xs ws : List Node) (v : Node) → has_node ws v ≡ true → has_node (enqueue xs ws) v ≡ true
has-enqueue [] ws v h = h
has-enqueue (x ∷ xs) ws v h = has-enqueue xs (insert x ws) v (ground (arith, has-insert x ws v))

module _ (nx : Digraph) where
  open nx use {Graph, edge, predecessors, has-predecessors}

  -- Strong edges only go away, finished nodes stay, and the waiting set is not touched.
  record Grows (s t : Run nx) : Type 0 where
    edges : (a v : Node) → is_strong (edge t.graph a v) ≡ true → is_strong (edge s.graph a v) ≡ true
    finished : (a : Node) → has_node s.finished a ≡ true → has_node t.finished a ≡ true
    waiting : t.waiting ≡ s.waiting

  Grows-trans : (s t r : Run nx) → Grows s t → Grows t r → Grows s r
  Grows-trans s t r p q = record {
    edges = λ a v m. p.edges a v (q.edges a v m);
    finished = λ a m. q.finished a (p.finished a m);
    waiting = q.waiting ∙ p.waiting;
  }

  is_ready-Grows :
      (s t : Run nx) (v : Node)
      → Grows s t
      → is_ready nx s.graph s.finished v ≡ true
      → is_ready nx t.graph t.finished v ≡ true
  unfolding is_ready
  is_ready-Grows s t v p h =
      all-intro (λ a. not (is_strong (edge t.graph a v)) || has_node t.finished a)
        (predecessors t.graph v)
        (λ a m. elim (Bool-cases (is_strong (edge t.graph a v))) [
          | inl q ↦
              let f = p.finished a (is_ready_lem nx s.graph s.finished a v h (p.edges a v q)) in
              rw (q, f) refl
          | inr q ↦ rw q refl
        ])

  module _ (e : Bool) (name : ℕ → String) where
    Same-Grows :
        (s t u : Run nx)
        → Same nx e name s t
        → ((a v : Node) → is_strong (edge s.graph a v) ≡ true → is_strong (edge u.graph a v) ≡ true)
        → ((a : Node) → has_node u.finished a ≡ true → has_node s.finished a ≡ true)
        → s.waiting ≡ u.waiting
        → Grows u t
    Same-Grows s t u same edges finished waiting = record {
      edges = λ a v m. edges a v (same.edges a v m);
      finished = λ a m. let f = finished a m in rw same.finished f;
      waiting = same.waiting ∙ waiting;
    }

    complete-Grows :
        (t : ℕ) (r : TaskResult) (s s' : Run nx) → complete nx e name t r s ≡ return s' → Grows s s'
    unfolding complete
    complete-Grows t r s s' h =
        let (b, h1, h2) = >>=-eq-return _ _ h in
        let same = traverse-Same nx e name (some (is_successful r)) (task t) _ b h1 in
        let g =
          Same-Grows _ b.1 s same (λ a v m. m)
            (λ a m. ground (arith, has-insert (task t) s.finished a)) refl in
        record {
          edges = λ a v m. g.edges a v (ground arith);
          finished = λ a m. ground (arith, g.finished a m);
          waiting = ground (arith, g.waiting);
        }

    collect_one-Grows :
        (t : ℕ) (p : Probe) (s s' : Run nx) → collect_one nx e name t p s ≡ return s' → Grows s s'
    collect_one-Grows t p s s' h = elim (collect_one_cases nx e name t p s s' h) [
      | inl (g, f, r, w) ↦ record {
        edges = λ a v m. rw g at m;
        finished = λ a m. rw f m;
        waiting = w;
      }
      | inr (r, k) ↦
          let g = complete-Grows t r (record s { processed = true }) s' k in
          record { edges = g.edges; finished = g.finished; waiting = g.waiting }
    ]

    Grows-refl : (s t : Run nx) → s ≡ t → Grows s t
    Grows-refl s t h = record {
      edges = λ a v m. ground arith;
      finished = λ a m. ground arith;
      waiting = ground arith;
    }

    collect-Grows :
        (probes : ℕ → Probe) (rs : Running) (s s' : Run nx)
        → collect nx e name probes rs s ≡ return s'
        → Grows s s'
    unfolding collect
    collect-Grows probes [] s s' h = Grows-refl s s' (cc)
    collect-Grows probes ((t, steps) ∷ rs) s s' h =
        let (s1, h1, h2) = >>=-eq-return (collect_one nx e name t (probes t) s) _ h in
        let g = collect_one-Grows t (probes t) s s1 h1 in
        elim (Bool-cases s1.stopped) [
          | inl q ↦ Grows-trans s s1 s' g (Grows-refl s1 s' (ground (arith, h2)))
          | inr q ↦ Grows-trans s s1 s' g (collect-Grows probes rs s1 s' (rw q at h2))
        ]

    -- A part of the loop over the waiting nodes; what runs goes on, or is finished.
    record Starts (s t : Run nx) : Type 0 where
      grows : Grows s t
      active : (v : Node) → is_active nx s v ≡ true → is_active nx t v ≡ true

    synchronize-Starts :
        (v : Node) (s s' : Run nx)
        → (traverse nx e name none v (record s { finished = insert v s.finished }) >>= λ b.
            return b.1)
          ≡ return s'
        → Starts s s' × (is_active nx s' v ≡ true)
    synchronize-Starts v s s' h =
        let (b, h1, h2) = >>=-eq-return _ _ h in
        let same = traverse-Same nx e name none v _ b h1 in
        let g =
          Same-Grows _ b.1 s same (λ a w m. m) (λ a m. ground (arith, has-insert v s.finished a))
            refl in
        (
          record {
            grows = record {
              edges = λ a w m. g.edges a w (ground arith);
              finished = λ a m. ground (arith, g.finished a m);
              waiting = ground (arith, g.waiting);
            };
            active = λ w m. ground (arith, same.finished, same.running, has-insert v s.finished w);
          },
          ground (arith, same.finished, has-insert v s.finished v, node_eq_refl v),
        )

    launch-Starts :
        (v : Node) (s s' : Run nx)
        → launch nx e name v s ≡ return s'
        → Starts s s' × (is_active nx s' v ≡ true)
    unfolding launch
    launch-Starts (task t) s s' h =
        let q : record s { running = put_running t s.step_results s.running } ≡ s' = cc in
        (
          record {
            grows = record {
              edges = λ a w m. ground arith;
              finished = λ a m. ground arith;
              waiting = ground arith;
            };
            active = λ w m. ground (arith, q, has-put_running t s.step_results s.running w);
          },
          ground (
            arith,
            q,
            has-put_running t s.step_results s.running (task t),
            node_eq_refl (task t),
          ),
        )
    launch-Starts (text x) s s' h = synchronize-Starts (text x) s s' h
    launch-Starts (number x) s s' h = synchronize-Starts (number x) s s' h
    launch-Starts (dispatcher x) s s' h = synchronize-Starts (dispatcher x) s s' h
    launch-Starts (other x) s s' h = synchronize-Starts (other x) s s' h

    start_one-Starts :
        (v : Node) (s s' : Run nx)
        → start_one nx e name v s ≡ return s'
        → Starts s s' × (is_ready nx s.graph s.finished v ≡ true → is_active nx s' v ≡ true)
    unfolding start_one
    start_one-Starts v s s' h = elim (Bool-cases (is_ready nx s.graph s.finished v)) [
      | inl q ↦
          let t = record s { to_delete = s.to_delete ++ v ∷ []; processed = true } in
          let (p, a) = launch-Starts v t s' (rw q at h) in
          (
            record {
              grows = record {
                edges = p.grows.edges;
                finished = p.grows.finished;
                waiting = p.grows.waiting;
              };
              active = p.active;
            },
            λ r. a,
          )
      | inr q ↦
          let same : s ≡ s' = ground arith in
          (record { grows = Grows-refl s s' same; active = λ w m. rw same at m }, λ r. cc)
    ]

    start_all-Starts :
        (vs : List Node) (s s' : Run nx) → start_all nx e name vs s ≡ return s' → Starts s s'
    unfolding start_all
    start_all-Starts [] s s' h =
        let same : s ≡ s' = cc in
        record { grows = Grows-refl s s' same; active = λ w m. rw same at m }
    start_all-Starts (v ∷ vs) s s' h =
        let (t, h1, h2) = >>=-eq-return (start_one nx e name v s) _ h in
        let (p, a) = start_one-Starts v s t h1 in
        let q = start_all-Starts vs t s' h2 in
        record {
          grows = Grows-trans s t s' p.grows q.grows;
          active = λ w m. q.active w (p.active w m);
        }

    start_all-active :
        (vs : List Node) (s s' : Run nx) (v : Node)
        → start_all nx e name vs s ≡ return s'
        → has_node vs v ≡ true
        → is_ready nx s.graph s.finished v ≡ true
        → is_active nx s' v ≡ true
    unfolding start_all has_node
    start_all-active [] s s' v h m r = cc
    start_all-active (u ∷ vs) s s' v h m r =
        let (t, h1, h2) = >>=-eq-return (start_one nx e name u s) _ h in
        let (p, a) = start_one-Starts u s t h1 in
        elim (Bool-cases (node_eq u v)) [
          | inl q ↦
              let same : u ≡ v = (node_eq_iff u v).0 q in
              (start_all-Starts vs t s' h2).active v (rw same at (a (rw (← same) at r)))
          | inr q ↦ start_all-active vs t s' v h2 (rw q at m) (is_ready-Grows s t v p.grows r)
        ]

    -- A waiting node whose strong predecessors are finished when a round begins is running or
    -- finished when the round ends, however it ends, if the order of iteration keeps the elements
    -- of the waiting set.
    pub round-is_active :
        (probes : ℕ → Probe) (arrange : List Node → List Node)
        → ((ws : List Node) (u : Node) → has_node (arrange ws) u ≡ has_node ws u)
        → (s s' : Run nx) (verdict : Verdict) (v : Node)
        → round nx e name probes arrange s ≡ return (verdict, s')
        → has_node s.waiting v ≡ true
        → is_ready nx s.graph s.finished v ≡ true
        → is_active nx s' v ≡ true
    unfolding round settle_running settle_waiting conclude
    round-is_active probes arrange same s s' verdict v h m r =
        let (s1, h1, h2) =
          >>=-eq-return (collect nx e name probes s.running (begin_round nx e name s)) _ h in
        let s2 = settle_running nx e name s1 in
        let (s3, h3, h4) = >>=-eq-return (start_all nx e name (arrange s2.waiting) s2) _ h2 in
        let g = collect-Grows probes s.running (begin_round nx e name s) s1 h1 in
        let m1 : has_node s1.waiting v ≡ true = ground (arith, g.waiting) in
        let m2 = has-enqueue s1.to_add s1.waiting v m1 in
        let act =
          start_all-active (arrange s2.waiting) s2 s3 v h3 (same s2.waiting v ∙ m2)
            (is_ready-Grows (begin_round nx e name s) s1 v g r) in
        ground (arith, h4, act)
