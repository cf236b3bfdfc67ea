-- ===== src/Executor/Service.antt =====
-- The executor as a service: `__call__`, `request_execution_graph` and `report_results`, over what
-- the network and the file system answer. Logging and the heartbeat are left out.
pub mod Backoff
use netunicorn.Common.{
  ℕ, ◌+◌, ◌*◌, String, Bool, true, false, not, Option, none, some, List, [], ◌∷◌, ltb,
  if◌then◌else◌,
}
use netunicorn.Graph.{Digraph}
use netunicorn.Graph.Validation.{Analysis, ExecutionGraph}
use netunicorn.Executor.Types.{
  Result, return, raise, stop_iteration, ◌>>=◌, Error, ExecutorState, looking_for_execution_graph,
  executing, reporting, finished, StepResults, GraphResult,
}
use netunicorn.Executor.Round.{Run}
use netunicorn.Executor.Execute.{
  Turn, Ending, pending, Executed, ran, rejected, execute, execution_graph_results,
}

-- The answer to a request: a timeout or a refused connection, status 200 with a body, any other
-- status, or another exception.
pub data Reply (A : Type 0) : Type 0 where
  timed_out refused : Reply A
  answered : A → Reply A
  broken : String → Reply A

module _ (nx : Digraph) where
  pub record Executor : Type 0 where
    pub execution_graph : Option (ExecutionGraph nx)
    pub step_results : StepResults
    pub results : Option GraphResult
    pub state : ExecutorState
    -- The number of values that were taken from `backoff_func`, and the seconds slept on them.
    pub backoff : ℕ
    pub slept : ℕ

  -- What one turn of the service meets: the local file with a graph, the reply to a request for the
  -- graph or to a report, and the turns of the loop in `execute`.
  pub record World : Type 0 where
    pub local_file : Option (ExecutionGraph nx)
    pub graph_reply : Reply (ExecutionGraph nx)
    pub report_reply : Reply (Unit {0})
    pub turns : List Turn

  -- `time.sleep(next(self.backoff_func))`, with `backoff_func = (5 * x for x in range(10))`.
  pub back_off : Executor → Result Executor
  back_off ex =
      if ltb ex.backoff 10
      then return (record ex { backoff = ex.backoff + 1; slept = ex.slept + 5 * ex.backoff })
      else raise stop_iteration

  abbrev pub set_state : ExecutorState → Executor → Executor
  set_state s ex = record ex { state = s }

  abbrev pub with_graph : ExecutionGraph nx → Executor → Executor
  with_graph g ex = record ex { execution_graph = some g; state = executing }

  download : Reply (ExecutionGraph nx) → Executor → Result Executor
  download timed_out ex = back_off ex
  download refused ex = return ex
  download (answered g) ex = return (with_graph g ex)
  download (broken reason) ex = raise (Error.external reason)

  find_graph :
      Option (ExecutionGraph nx)
      → Option (ExecutionGraph nx)
      → Reply (ExecutionGraph nx)
      → Executor
      → Result Executor
  find_graph (some own) local_file reply ex = return (set_state executing ex)
  find_graph none (some g) reply ex = return (with_graph g ex)
  find_graph none none reply ex = download reply ex

  pub request_execution_graph : World → Executor → Result Executor
  request_execution_graph w ex = find_graph ex.execution_graph w.local_file w.graph_reply ex

  send_report : Reply (Unit {0}) → Executor → Result Executor
  send_report timed_out ex = back_off ex
  send_report refused ex = return ex
  send_report (answered r) ex = return (set_state finished ex)
  send_report (broken reason) ex = raise (Error.external reason)

  wants_report : Option (ExecutionGraph nx) → Bool
  wants_report none = true
  wants_report (some g) = g.report_results

  pub report_results : World → Executor → Result Executor
  report_results w ex =
      if wants_report ex.execution_graph
      then send_report w.report_reply ex
      else return (set_state finished ex)

  -- The state that `execute` leaves. Turns that are used up leave the executor inside it.
  after_execute : Executed nx → Executor → Executor
  after_execute (ran pending s) ex = ex
  after_execute (rejected steps) ex = record ex {
    results = some (execution_graph_results nx (rejected steps));
    state = reporting;
  }
  after_execute (ran e s) ex = record ex {
    step_results = s.step_results;
    results = some (execution_graph_results nx (ran e s));
    state = reporting;
  }

  module _ (a : Analysis nx) (name : ℕ → String) where
    -- The `try` block of the loop in `__call__`, for a state that is not FINISHED.
    pub advance : ExecutorState → World → Executor → Result Executor
    advance looking_for_execution_graph w ex = request_execution_graph w ex
    advance executing w ex = execute nx a name w.turns ex.execution_graph ex.step_results >>= λ r.
        return (after_execute r ex)
    advance reporting w ex = report_results w ex
    advance finished w ex = return ex

    -- The report behind the loop, after an exception; its own exceptions leave `__call__`.
    pub last_report : List World → Executor → Result (Bool × Executor)
    last_report [] ex = return (false, ex)
    last_report (w ∷ ws) ex = report_results w (set_state finished ex) >>= λ ex'. return (true, ex')

    -- `__call__`. The answer says whether it has returned within the given worlds.
    unfoldable pub call : List World → Executor → Result (Bool × Executor)
    unfolding advance last_report request_execution_graph find_graph download report_results
        send_report wants_report after_execute back_off
    call [] ex = return (false, ex)
    call (w ∷ ws) ex = elim ex.state [
      | finished ↦ return (true, ex)
      | _ ↦ elim (advance ex.state w ex) [ return ex' ↦ call ws ex' | raise e ↦ last_report ws ex ]
    ]
