-- ===== src/Executor/Round/Total.antt =====
-- On a graph whose "traverse_on" attributes have a meaning, a round raises no exception.
use netunicorn.Common.{
  ℕ, String, Bool, true, ◌&&◌, Option, none, some, List, [], ◌∷◌, ◌++◌, ◌≡◌, refl, arith,
  Bool-cases, Option-cases, inl, inr, all,
}
use netunicorn.Graph.{
  all-intro, Node, text, number, task, dispatcher, other, node_eq, Edge, Digraph,
}
use netunicorn.Executor.Types.{
  TaskResult, is_successful, Result, return, Probe, Returns, Returns-bind, Returns-if,
}
use netunicorn.Executor.Successors.{add_successors, traverse_on}
use netunicorn.Executor.Successors.Traversal.{is_known, follows, spent, add_successors_lem}
use netunicorn.Executor.Successors.Errors.{add_successors-Checks}
use netunicorn.Executor.Round.{
  Running, Run, Verdict, is_error, is_ready, traverse, abort, complete, collect_one, collect,
  settle_running, launch, start_one, start_all, settle_waiting, conclude, round,
}

module _ (nx : Digraph) where
  open nx use {Graph, edge, successors, has-successors}

  -- The "traverse_on" of every edge has a meaning.
  abbrev pub AllKnown : Bool → Graph → Type 0
  AllKnown e g = (u v : Node) (d : Edge) → edge g u v ≡ some d → is_known e (some d) ≡ true

  known-successors :
      (e : Bool) (g : Graph) (u : Node)
      → AllKnown e g
      → all (λ v. is_known e (edge g u v)) (successors g u) ≡ true
  known-successors e g u k =
      all-intro (λ v. is_known e (edge g u v)) (successors g u)
        λ v m. elim (Option-cases (edge g u v)) [
          | inl q ↦ ground (arith, has-successors g u v)
          | inr (d, q) ↦ rw q (k u v d q)
        ]

  spent-known :
      (e : Bool) (o : Option Edge) (d : Edge)
      → ((c : Edge) → o ≡ some c → is_known e (some c) ≡ true)
      → spent o ≡ some d
      → is_known e (some d) ≡ true
  unfolding traverse_on
  spent-known e none d k h = cc
  spent-known e (some c) d k h = ground (arith, k c refl)

  add_successors-AllKnown :
      (e : Bool) (outcome : Option Bool) (u : Node) (w : List Node) (g : Graph)
      → AllKnown e g
      → Returns (λ r. AllKnown e r.2) (add_successors nx e outcome u w g)
  add_successors-AllKnown e outcome u w g k = elim (add_successors-Checks nx e outcome u w g) [
    | inl (q, (r, h)) ↦ (
      r,
      h,
      λ x y d m.
          let edges = (add_successors_lem nx e outcome u w g r.0 r.1 r.2 h).1 x y in
          elim (Bool-cases (node_eq u x && follows e outcome (edge g u y))) [
            | inl f ↦ spent-known e (edge g u y) d (k u y) (ground (arith, edges, f))
            | inr f ↦ k x y d (ground (arith, edges, f))
          ],
    )
    | inr (q, h) ↦ cc (known-successors e g u k)
  ]

  module _ (e : Bool) (name : ℕ → String) where
    abbrev Keeps : Result (Run nx) → Type 0
    Keeps r = Returns (λ (s : Run nx). AllKnown e s.graph) r

    traverse-Keeps :
        (outcome : Option Bool) (u : Node) (s : Run nx)
        → AllKnown e s.graph
        → Returns (λ (b : Bool × Run nx). AllKnown e b.1.graph) (traverse nx e name outcome u s)
    unfolding traverse
    traverse-Keeps outcome u s k =
        Returns-bind _ _ (add_successors nx e outcome u s.to_add s.graph) _
          (add_successors-AllKnown e outcome u s.to_add s.graph k) (λ r q. (_, refl, q))

    complete-Keeps :
        (t : ℕ) (r : TaskResult) (s : Run nx)
        → AllKnown e s.graph
        → Keeps (complete nx e name t r s)
    unfolding complete
    complete-Keeps t r s k =
        Returns-bind _ _ (traverse nx e name (some (is_successful r)) (task t) _) _
          (traverse-Keeps (some (is_successful r)) (task t) _ k) (λ b q. (_, refl, q))

    collect_one-Keeps :
        (t : ℕ) (p : Probe) (s : Run nx) → AllKnown e s.graph → Keeps (collect_one nx e name t p s)
    unfolding collect_one abort
    collect_one-Keeps t p s k = elim (Bool-cases (p.empty && p.alive)) [
      | inl q ↦ rw q (s, refl, k)
      | inr q ↦ rw q (elim (Bool-cases (is_error p.exitcode)) [
        | inl x ↦ rw x (_, refl, k)
        | inr x ↦ rw x (message_cases p.message)
      ])
    ]
      where
        message_cases :
            (m : Option TaskResult)
            → Keeps (
                (elim m as (λ x. Result (Run nx)) [
                  | none ↦ return (
                      abort nx e name t "failed to return results into a queue"
                        (record s { processed = true }))
                  | some r ↦ complete nx e name t r (record s { processed = true })
                ]))
        message_cases none = (_, refl, k)
        message_cases (some r) = complete-Keeps t r (record s { processed = true }) k

    collect-Keeps :
        (probes : ℕ → Probe) (rs : Running) (s : Run nx)
        → AllKnown e s.graph
        → Keeps (collect nx e name probes rs s)
    unfolding collect
    collect-Keeps probes [] s k = (s, refl, k)
    collect-Keeps probes ((t, steps) ∷ rs) s k =
        Returns-bind _ _ (collect_one nx e name t (probes t) s) _
          (collect_one-Keeps t (probes t) s k)
          (λ s1 q. Returns-if _ s1.stopped _ _ (s1, refl, q) (collect-Keeps probes rs s1 q))

    launch-Keeps : (v : Node) (s : Run nx) → AllKnown e s.graph → Keeps (launch nx e name v s)
    unfolding launch
    launch-Keeps (task t) s k = (_, refl, k)
    launch-Keeps (text x) s k =
        Returns-bind _ _ (traverse nx e name none (text x) _) _ (traverse-Keeps none (text x) _ k)
          (λ b q. (_, refl, q))
    launch-Keeps (number x) s k =
        Returns-bind _ _ (traverse nx e name none (number x) _) _
          (traverse-Keeps none (number x) _ k) (λ b q. (_, refl, q))
    launch-Keeps (dispatcher x) s k =
        Returns-bind _ _ (traverse nx e name none (dispatcher x) _) _
          (traverse-Keeps none (dispatcher x) _ k) (λ b q. (_, refl, q))
    launch-Keeps (other x) s k =
        Returns-bind _ _ (traverse nx e name none (other x) _) _ (traverse-Keeps none (other x) _ k)
          (λ b q. (_, refl, q))

    start_all-Keeps :
        (vs : List Node) (s : Run nx) → AllKnown e s.graph → Keeps (start_all nx e name vs s)
    unfolding start_all start_one
    start_all-Keeps [] s k = (s, refl, k)
    start_all-Keeps (v ∷ vs) s k = elim (Bool-cases (is_ready nx s.graph s.finished v)) [
      | inl q ↦ rw q (
          Returns-bind _ _
            (launch nx e name v (record s { to_delete = s.to_delete ++ v ∷ []; processed = true }))
            _ (launch-Keeps v _ k) (start_all-Keeps vs))
      | inr q ↦ rw q (start_all-Keeps vs s k)
    ]

    pub round-AllKnown :
        (probes : ℕ → Probe) (arrange : List Node → List Node) (s : Run nx)
        → AllKnown e s.graph
        → Returns
            (λ (r : Verdict × Run nx). AllKnown e r.1.graph)
            (round nx e name probes arrange s)
    unfolding round settle_running settle_waiting conclude
    round-AllKnown probes arrange s k =
        Returns-bind _ _ (collect nx e name probes s.running _) _
          (collect-Keeps probes s.running _ k)
          (λ s1 q.
            let s2 = settle_running nx e name s1 in
            Returns-bind _ _ (start_all nx e name (arrange s2.waiting) s2)
              (λ s3. return (conclude nx e name s3)) (start_all-Keeps (arrange s2.waiting) s2 q)
              (λ s3 q3. (conclude nx e name s3, refl, q3)))
