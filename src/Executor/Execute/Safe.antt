-- ===== src/Executor/Execute/Safe.antt =====
-- Safety of the loop of `execute`, over any turns.
use netunicorn.Common.{ℕ, String, Bool, ◌&&◌, some, List, [], ◌∷◌, ◌≡◌, arith, Bool-cases, inl, inr}
use netunicorn.Graph.{has_node, Digraph}
use netunicorn.Graph.Validation.{Analysis, Validity-cases, ExecutionGraph, is_execution_graph_valid}
use netunicorn.Executor.Types.{return, ◌>>=◌, >>=-eq-return, StepResults}
use netunicorn.Executor.Round.{Run, Verdict, proceed, stop, deadlock, round, is_empty}
use netunicorn.Executor.Round.Invariant.{IsOrdered}
use netunicorn.Executor.Round.Ordered.{round-IsOrdered}
use netunicorn.Executor.Execute.{
  Turn, Ending, ran, start, leave, loop, verify_no_task_dispatchers, execute,
}

module _ (nx : Digraph) where
  open nx use {Graph}

  start-IsOrdered :
      (g : Graph) (step_results : StepResults) → IsOrdered nx (start nx g step_results)
  unfolding start has_node
  start-IsOrdered g step_results = record { before = λ a v strong act. cc }

  loop-IsOrdered :
      (early_stopping : Bool) (name : ℕ → String) (turns : List Turn) (s s' : Run nx) (e : Ending)
      → loop nx early_stopping name turns s ≡ return (e, s')
      → IsOrdered nx s
      → IsOrdered nx s'
  unfolding loop leave
  loop-IsOrdered es name [] s s' e h o = let q : s ≡ s' = cc in rw (← q) o
  loop-IsOrdered es name (t ∷ ts) s s' e h o =
      elim (Bool-cases (is_empty s.waiting && is_empty s.running)) [
        | inl q ↦ let same : s ≡ s' = ground arith in rw (← same) o
        | inr q ↦
            let ((v, s1), h1, h2) =
              >>=-eq-return (round nx es name t.probes t.arrange s) _ (rw q at h) in
            leave_cases es name ts s1 s' v e h2
              (round-IsOrdered nx es name t.probes t.arrange s s1 v h1 o)
              (loop-IsOrdered es name ts s1 s' e)
      ]
    where
      leave_cases :
          (es : Bool) (name : ℕ → String) (ts : List Turn) (s1 s' : Run nx) (v : Verdict)
          (e : Ending)
          → leave nx es name v s1 (loop nx es name ts s1) ≡ return (e, s')
          → IsOrdered nx s1
          → (loop nx es name ts s1 ≡ return (e, s') → IsOrdered nx s1 → IsOrdered nx s')
          → IsOrdered nx s'
      leave_cases es name ts s1 s' proceed e h o ih = ih h o
      leave_cases es name ts s1 s' stop e h o ih = let q : s1 ≡ s' = cc in rw (← q) o
      leave_cases es name ts s1 s' deadlock e h o ih = let q : s1 ≡ s' = cc in rw (← q) o

  -- `execute` on a graph of its own: whenever the loop is left or goes on, every node that is
  -- running or finished has all its strong predecessors finished.
  pub execute-IsOrdered :
      (a : Analysis nx) (name : ℕ → String) (turns : List Turn) (obj : ExecutionGraph nx)
      (step_results : StepResults) (e : Ending) (s : Run nx)
      → execute nx a name turns (some obj) step_results ≡ return (ran e s)
      → IsOrdered nx s
  unfolding execute
  execute-IsOrdered a name turns obj step_results e s h =
      elim (Validity-cases (is_execution_graph_valid nx a obj)) [
        | inl (f, q) ↦ ground (arith, h, q)
        | inr q ↦ elim (Bool-cases (verify_no_task_dispatchers nx obj.graph)) [
          | inl r ↦
              let go = loop nx obj.early_stopping name turns (start nx obj.graph step_results) in
              let h' : (go >>= λ (b, t). return (ran b t)) ≡ return (ran e s) =
                ground (arith, q, r) in
              let ((b, t), h1, h2) = >>=-eq-return go _ h' in
              let same : t ≡ s = ground arith in
              rw (← same) (
                loop-IsOrdered obj.early_stopping name turns _ t b h1
                  (start-IsOrdered obj.graph step_results))
          | inr r ↦ ground (arith, h, q, r)
        ]
      ]
