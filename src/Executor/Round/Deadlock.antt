-- ===== src/Executor/Round/Deadlock.antt =====
-- When a round reports a deadlock.
use netunicorn.Common.{
  ℕ, String, Bool, true, false, not, none, List, [], ◌∷◌, ◌≡◌, refl, arith, Bool-cases, inl, inr,
  all, ap, ◌∙◌, List-cases,
}
use netunicorn.Graph.{all-has_node, Node, text, number, task, dispatcher, other, has_node, Digraph}
use netunicorn.Executor.Types.{return, ◌>>=◌, >>=-eq-return, Probe}
use netunicorn.Executor.Successors.{add_successors}
use netunicorn.Executor.Round.{
  Run, deadlock, is_ready, traverse, collect, settle_running, launch, start_one, start_all,
  settle_waiting, conclude, begin_round, round,
}

module _ (nx : Digraph) (e : Bool) (name : ℕ → String) where
  synchronize-processed :
      (v : Node) (s t : Run nx)
      → (traverse nx e name none v s >>= λ b. return b.1) ≡ return t
      → t.processed ≡ s.processed
  unfolding traverse
  synchronize-processed v s t h =
      let (b, h1, h2) = >>=-eq-return (traverse nx e name none v s) _ h in
      let (a, h3, h4) = >>=-eq-return (add_successors nx e none v s.to_add s.graph) _ h1 in
      ground arith

  launch-processed :
      (v : Node) (s t : Run nx) → launch nx e name v s ≡ return t → t.processed ≡ s.processed
  unfolding launch
  launch-processed (task u) s t h = ground arith
  launch-processed (text u) s t h = synchronize-processed (text u) _ t h
  launch-processed (number u) s t h = synchronize-processed (number u) _ t h
  launch-processed (dispatcher u) s t h = synchronize-processed (dispatcher u) _ t h
  launch-processed (other u) s t h = synchronize-processed (other u) _ t h

  start_all-processed :
      (vs : List Node) (s t : Run nx)
      → start_all nx e name vs s ≡ return t
      → s.processed ≡ true
      → t.processed ≡ true
  unfolding start_all start_one
  start_all-processed [] s t h p = ground arith
  start_all-processed (v ∷ vs) s t h p = elim (Bool-cases (is_ready nx s.graph s.finished v)) [
    | inl q ↦
        let (r, h1, h2) = >>=-eq-return _ (start_all nx e name vs) (rw q at h) in
        start_all-processed vs r t h2 (launch-processed v _ r h1)
    | inr q ↦ start_all-processed vs s t (rw q at h) p
  ]

  abbrev blocked : Run nx → Node → Bool
  blocked s v = not (is_ready nx s.graph s.finished v)

  start_all-idle :
      (vs : List Node) (s t : Run nx)
      → start_all nx e name vs s ≡ return t
      → t.processed ≡ false
      → (t ≡ s) × (all (blocked s) vs ≡ true)
  unfolding start_all start_one
  start_all-idle [] s t h p = (ground arith, refl)
  start_all-idle (v ∷ vs) s t h p = elim (Bool-cases (is_ready nx s.graph s.finished v)) [
    | inl q ↦
        let (r, h1, h2) = >>=-eq-return _ (start_all nx e name vs) (rw q at h) in
        ground (arith, start_all-processed vs r t h2 (launch-processed v _ r h1))
    | inr q ↦ let (same, rest) = start_all-idle vs s t (rw q at h) p in (same, rw (q, rest) refl)
  ]

  conclude-deadlock :
      (s t : Run nx)
      → conclude nx e name s ≡ (deadlock, t)
      → (t ≡ settle_waiting nx e name s) × (s.processed ≡ false) × (s.running ≡ [])
  unfolding conclude settle_waiting
  conclude-deadlock s t h = elim (List-cases s.running) [
    | inl r ↦ ground (arith, r)
    | inr (a, rest, r) ↦ ground (arith, r)
  ]

  settle_waiting_settled :
      (s : Run nx)
      → settle_waiting nx e name (settle_running nx e name s) ≡ settle_running nx e name s
  unfolding settle_waiting settle_running
  settle_waiting_settled s = refl

  -- A round reports a deadlock only where nothing can go on: no task is running, and none of the
  -- waiting nodes has all its strong predecessors finished. `arrange` keeps the elements of a set.
  pub round-deadlock :
      (probes : ℕ → Probe) (arrange : List Node → List Node)
      → ((ws : List Node) (v : Node) → has_node (arrange ws) v ≡ has_node ws v)
      → (s s' : Run nx) (v : Node) → round nx e name probes arrange s ≡ return (deadlock, s')
      → has_node s'.waiting v ≡ true
      → (s'.running ≡ []) × (is_ready nx s'.graph s'.finished v ≡ false)
  unfolding round
  round-deadlock probes arrange same s s' v h m =
      let (s1, h1, h2) =
        >>=-eq-return (collect nx e name probes s.running (begin_round nx e name s)) _ h in
      let s2 = settle_running nx e name s1 in
      let (s3, h3, h4) = >>=-eq-return (start_all nx e name (arrange s2.waiting) s2) _ h2 in
      let (end, idle, empty) = conclude-deadlock s3 s' (ground (arith, h4)) in
      let (still, none_ready) = start_all-idle (arrange s2.waiting) s2 s3 h3 idle in
      let final : s' ≡ s2 = end ∙ ap (settle_waiting nx e name) still ∙ settle_waiting_settled s1 in
      let blocked_v =
        all-has_node (blocked s2) (arrange s2.waiting) v none_ready
          (same s2.waiting v ∙ (rw final at m)) in
      (ground (arith, final, still), rw final (ground (arith, blocked_v)))
