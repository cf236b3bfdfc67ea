-- ===== src/Executor/Execute/Total.antt =====
-- `execute` raises no exception on a graph that is validated.
use netunicorn.Common.{
  ℕ, String, Bool, true, false, ◌&&◌, some, List, [], ◌∷◌, ◌≡◌, refl, ◌⊎◌, Bool-cases, Option-cases,
  inl, inr,
}
use netunicorn.Graph.{Node, Edge, Digraph}
use netunicorn.Graph.Validation.{Analysis, Validity-cases, ExecutionGraph, is_execution_graph_valid}
use netunicorn.Graph.Validation.Sound.{IsLawful, valid-IsLawful}
use netunicorn.Executor.Types.{Result, StepResults, Returns, Returns-bind, Returns-if}
use netunicorn.Executor.Successors.{traverse_on, known}
use netunicorn.Executor.Successors.Traversal.{is_known}
use netunicorn.Executor.Round.{Run, Verdict, proceed, stop, deadlock, round, is_empty}
use netunicorn.Executor.Round.Total.{AllKnown, round-AllKnown}
use netunicorn.Executor.Execute.{
  Turn, Ending, start, leave, loop, verify_no_task_dispatchers, execute,
}

one_of_three_known :
    (t : String) → (t ≡ "success") ⊎ ((t ≡ "failure") ⊎ (t ≡ "any")) → known t ≡ true
unfolding known
one_of_three_known t (inl q) = rw q refl
one_of_three_known t (inr (inl q)) = rw q refl
one_of_three_known t (inr (inr q)) = rw q refl

IsLawful-known : (e : Bool) (u : Node) (d : Edge) → IsLawful u d → is_known e (some d) ≡ true
unfolding traverse_on known
IsLawful-known e u d h = elim (Option-cases d.traverse_on) [
  | inl q ↦ elim (Bool-cases e) [ inl r ↦ rw (q, r) refl | inr r ↦ rw (q, r) refl ]
  | inr (t, q) ↦ rw q (one_of_three_known t (h.traverse_on t q))
]

module _ (nx : Digraph) where
  abbrev Ends : Result (Ending × Run nx) → Type 0
  Ends r = Returns (λ x. Unit {0}) r

  leave-Ends :
      (e : Bool) (name : ℕ → String) (v : Verdict) (s : Run nx) (rest : Result (Ending × Run nx))
      → Ends rest
      → Ends (leave nx e name v s rest)
  unfolding leave
  leave-Ends e name proceed s rest h = h
  leave-Ends e name stop s rest h = (_, refl, tt)
  leave-Ends e name deadlock s rest h = (_, refl, tt)

  loop-Ends :
      (e : Bool) (name : ℕ → String) (turns : List Turn) (s : Run nx)
      → AllKnown nx e s.graph
      → Ends (loop nx e name turns s)
  unfolding loop
  loop-Ends e name [] s k = (_, refl, tt)
  loop-Ends e name (t ∷ ts) s k =
      Returns-if _ (is_empty s.waiting && is_empty s.running) _ _ (_, refl, tt)
        (Returns-bind (λ (r : Verdict × Run nx). AllKnown nx e r.1.graph) _
          (round nx e name t.probes t.arrange s) _ (round-AllKnown nx e name t.probes t.arrange s k)
          (λ (v, s') q. leave-Ends e name v s' _ (loop-Ends e name ts s' q)))

  -- For counters that are integers and removals that find their element, as they are modelled: without
  -- the override of validation, `execute` returns whatever the processes do and however
  -- the waiting tasks are ordered: no look-up fails and no ValueError is raised in the loop.
  pub execute-Returns :
      (a : Analysis nx) (name : ℕ → String) (turns : List Turn) (obj : ExecutionGraph nx)
      (step_results : StepResults)
      → obj.override_graph_validation ≡ false
      → Returns (λ x. Unit {0}) (execute nx a name turns (some obj) step_results)
  unfolding execute
  execute-Returns a name turns obj step_results o =
      elim (Validity-cases (is_execution_graph_valid nx a obj)) [
        | inl (f, q) ↦ rw (q, execute) (_, refl, tt)
        | inr q ↦
            rw (q, execute)
              (Returns-if _ (verify_no_task_dispatchers nx obj.graph) _ _
                (Returns-bind (λ x. Unit {0}) _ (loop nx obj.early_stopping name turns _) _
                  (loop-Ends obj.early_stopping name turns _ (
                    unfold start in
                    λ u v d m.
                      IsLawful-known obj.early_stopping u d (valid-IsLawful nx a obj u v d o q m)))
                  (λ x h. (_, refl, tt)))
                (_, refl, tt))
      ]
