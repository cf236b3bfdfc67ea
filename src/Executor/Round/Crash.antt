-- ===== src/Executor/Round/Crash.antt =====
-- What a round does when the process of a task dies.
use mathlib.Core.Path.{subst}
use netunicorn.Common.{
  ℕ, String, Bool, true, false, ◌&&◌, none, List, [], ◌∷◌, ◌≡◌, arith, Bool-cases, inl, inr,
}
use netunicorn.Graph.{Node, text, number, task, dispatcher, other, Digraph}
use netunicorn.Executor.Types.{return, failure, ◌>>=◌, >>=-eq-return, StepResults, Probe}
use netunicorn.Executor.Successors.{add_successors}
use netunicorn.Executor.Round.{
  Run, Verdict, is_error, is_ready, traverse, collect_one, collect, abort, settle_running, launch,
  start_one, start_all, settle_waiting, conclude, begin_round, round, append_result,
}

module _ (nx : Digraph) (e : Bool) (name : ℕ → String) where
  -- The second half of a round starts tasks, and leaves the results and the verdict alone.
  record Leaves (s t : Run nx) : Type 0 where
    step_results : t.step_results ≡ s.step_results
    failing : t.failing ≡ s.failing
    stopped : t.stopped ≡ s.stopped

  synchronize-Leaves :
      (v : Node) (s t : Run nx)
      → (traverse nx e name none v s >>= λ b. return b.1) ≡ return t
      → Leaves s t
  unfolding traverse
  synchronize-Leaves v s t h =
      let (b, h1, h2) = >>=-eq-return (traverse nx e name none v s) _ h in
      let (a, h3, h4) = >>=-eq-return (add_successors nx e none v s.to_add s.graph) _ h1 in
      ground arith

  launch-Leaves : (v : Node) (s t : Run nx) → launch nx e name v s ≡ return t → Leaves s t
  unfolding launch
  launch-Leaves (task u) s t h = ground arith
  launch-Leaves (text u) s t h = ground (arith, synchronize-Leaves (text u) _ t h)
  launch-Leaves (number u) s t h = ground (arith, synchronize-Leaves (number u) _ t h)
  launch-Leaves (dispatcher u) s t h = ground (arith, synchronize-Leaves (dispatcher u) _ t h)
  launch-Leaves (other u) s t h = ground (arith, synchronize-Leaves (other u) _ t h)

  start_all-Leaves :
      (vs : List Node) (s t : Run nx) → start_all nx e name vs s ≡ return t → Leaves s t
  unfolding start_all start_one
  start_all-Leaves [] s t h = ground arith
  start_all-Leaves (v ∷ vs) s t h = elim (Bool-cases (is_ready nx s.graph s.finished v)) [
    | inl q ↦
        let (r, h1, h2) = >>=-eq-return _ (start_all nx e name vs) (rw q at h) in
        ground (arith, launch-Leaves v _ r h1, start_all-Leaves vs r t h2)
    | inr q ↦ start_all-Leaves vs s t (rw q at h)
  ]

  collect-crash :
      (probes : ℕ → Probe) (t : ℕ) (steps : StepResults) (s s' : Run nx)
      → ((probes t).empty && (probes t).alive) ≡ false
      → is_error (probes t).exitcode ≡ true
      → collect nx e name probes ((t, steps) ∷ []) s ≡ return s'
      → (s'.step_results
          ≡ append_result (name t) (failure "failed with the exit code") s.step_results)
        × (s'.failing ≡ s.failing)
        × (s'.stopped ≡ true)
  unfolding collect collect_one abort
  collect-crash probes t steps s s' dead error h = ground (arith, dead, error, h)

  -- If the process of the only running task has ended with a truthy exit code, and the round
  -- returns, then the loop is stopped, the task has a Failure among the results, and
  -- `resulting_type` is as it was.
  pub round-crash :
      (probes : ℕ → Probe) (arrange : List Node → List Node) (t : ℕ) (steps : StepResults)
      (s s' : Run nx) (v : Verdict)
      → s.running ≡ (t, steps) ∷ []
      → ((probes t).empty && (probes t).alive) ≡ false
      → is_error (probes t).exitcode ≡ true
      → round nx e name probes arrange s ≡ return (v, s')
      → (s'.step_results
          ≡ append_result (name t) (failure "failed with the exit code") s.step_results)
        × (s'.failing ≡ s.failing)
        × (s'.stopped ≡ true)
  unfolding round settle_running settle_waiting conclude
  round-crash probes arrange t steps s s' v run dead error h =
      let (s1, h1, h2) =
        >>=-eq-return (collect nx e name probes s.running (begin_round nx e name s)) _ h in
      let s2 = settle_running nx e name s1 in
      let (s3, h3, h4) = >>=-eq-return (start_all nx e name (arrange s2.waiting) s2) _ h2 in
      let first : (s1.step_results
            ≡ append_result (name t) (failure "failed with the exit code") s.step_results)
          × (s1.failing ≡ s.failing)
          × (s1.stopped ≡ true) =
        collect-crash probes t steps (begin_round nx e name s) s1 dead error (
          subst (λ rs. collect nx e name probes rs (begin_round nx e name s) ≡ return s1) run h1) in
      ground (arith, first, start_all-Leaves (arrange s2.waiting) s2 s3 h3, h4)
