-- ===== src/Executor/Execute.antt =====
-- `execute` of the executor: the checks before the loop, the loop, and the result that is set.
pub mod Safe
pub mod Total
use netunicorn.Common.{
  ℕ, String, Bool, true, false, not, ◌&&◌, List, [], ◌∷◌, any, if◌then◌else◌, Option, none, some,
}
use netunicorn.Graph.{Node, root, is_dispatcher, Digraph}
use netunicorn.Graph.Validation.{
  Analysis, Validity, valid, invalid, ExecutionGraph, is_execution_graph_valid,
}
use netunicorn.Executor.Types.{
  Result, return, raise, ◌>>=◌, StepResults, GraphResult, succeeded, failed, Probe,
}
use netunicorn.Executor.Round.{Run, Verdict, proceed, stop, deadlock, round, is_empty}

-- What the executor reads in one turn of the loop, and the order in which the waiting set is read.
pub record Turn : Type 0 where
  pub probes : ℕ → Probe
  pub arrange : List Node → List Node

-- How the loop ended; `pending` says that the observed turns are used up and the loop goes on.
pub data Ending : Type 0 where
  completed stopped deadlocked pending : Ending

module _ (nx : Digraph) where
  open nx use {Graph, nodes}

  -- `_verify_no_task_dispatchers`
  pub verify_no_task_dispatchers : Graph → Bool
  verify_no_task_dispatchers g = not (any is_dispatcher (nodes g))

  unfoldable pub start : Graph → StepResults → Run nx
  start g step_results = record {
    graph = g;
    step_results = step_results;
    waiting = root ∷ [];
    running = [];
    finished = [];
    failing = false;
    to_delete = [];
    to_add = [];
    processed = false;
    stopped = false;
  }

  module _ (early_stopping : Bool) (name : ℕ → String) where
    -- What follows a turn: the `while` loop's own test, or its `break`.
    pub leave : Verdict → Run nx → Result (Ending × Run nx) → Result (Ending × Run nx)
    leave proceed s rest = rest
    leave stop s rest = return (stopped, s)
    leave deadlock s rest = return (deadlocked, s)

    -- The `while` loop over the turns that are observed.
    pub loop : List Turn → Run nx → Result (Ending × Run nx)
    loop [] s = return (if is_empty s.waiting && is_empty s.running then completed else pending, s)
    loop (t ∷ ts) s =
        if is_empty s.waiting && is_empty s.running
        then return (completed, s)
        else round nx early_stopping name t.probes t.arrange s >>= λ (v, s').
            let rest = loop ts s' in leave v s' rest

  -- How `execute` ended: before the loop, with a Failure, or with the loop.
  pub data Executed : Type 0 where
    rejected : StepResults → Executed
    ran : Ending → Run nx → Executed

  -- `execution_graph_results`. A deadlock sets a Failure, and the assignment behind the loop
  -- overwrites it.
  abbrev pub execution_graph_results : Executed → GraphResult
  execution_graph_results (rejected step_results) = failed step_results
  execution_graph_results (ran e s) =
      if s.failing then failed s.step_results else succeeded s.step_results

  -- The whole method, without the heartbeat task that it starts.
  unfoldable pub execute :
      Analysis nx
      → (ℕ → String)
      → List Turn
      → Option (ExecutionGraph nx)
      → StepResults
      → Result Executed
  unfolding verify_no_task_dispatchers start loop leave
  execute a name turns none step_results = return (rejected step_results)
  execute a name turns (some obj) step_results = elim (is_execution_graph_valid nx a obj) [
    | invalid fault ↦ return (rejected step_results)
    | valid ↦
        if verify_no_task_dispatchers obj.graph
        then (loop obj.early_stopping name turns (start obj.graph step_results) >>= λ (e, s).
            return (ran e s))
        else return (rejected step_results)
  ]
