-- ===== src/Executor/Round.antt =====
-- One turn of the loop in `execute` of the executor.
pub mod Invariant
pub mod Ordered
pub mod Total
pub mod Progress
pub mod Twice
pub mod Deadlock
pub mod Crash
use netunicorn.Common.{
  ℕ, zero, String, Bool, true, false, not, ◌&&◌, ◌||◌, Option, none, some, List, [], ◌∷◌, ◌++◌, map,
  all, ◌==◌, nat_eq, if◌then◌else◌,
}
use netunicorn.Common.Int.{ℤ, pos}
use netunicorn.Graph.{Node, task, has_node, node_eq, insert, erase, Edge, edge_type, Digraph}
use netunicorn.Executor.Types.{
  TaskResult, success, failure, is_successful, Result, return, raise, ◌>>=◌, StepResults, Probe,
}
use netunicorn.Executor.Successors.{add_successors}

-- `step_results[name].append(r)` of a defaultdict of lists.
unfoldable pub append_result : String → TaskResult → StepResults → StepResults
append_result k r [] = (k, r ∷ []) ∷ []
append_result k r ((j, rs) ∷ m) =
    if j == k then (j, rs ++ r ∷ []) ∷ m else (j, rs) ∷ append_result k r m

-- The running tasks, each with the results that it was handed as `previous_steps`.
abbrev pub Running : Type 0
Running = List (ℕ × StepResults)

-- `running_tasks[t] = …`: the entry of a task that is running already is replaced in its place.
unfoldable pub put_running : ℕ → StepResults → Running → Running
put_running t steps [] = (t, steps) ∷ []
put_running t steps ((u, old) ∷ rs) =
    if nat_eq u t then (t, steps) ∷ rs else (u, old) ∷ put_running t steps rs

-- `del running_tasks[x]`
unfoldable pub drop_running : Node → Running → Running
drop_running x [] = []
drop_running x ((u, steps) ∷ rs) =
    let rest = drop_running x rs in if node_eq (task u) x then rest else (u, steps) ∷ rest

abbrev pub running_nodes : Running → List Node
running_nodes rs = map (λ r. task r.0) rs

-- A truthy exit code.
abbrev pub is_error : Option ℤ → Bool
is_error none = false
is_error (some (pos zero)) = false
is_error (some c) = true

-- `d.get("type", "strong") != "weak"`, for an edge that is there.
abbrev pub is_strong : Option Edge → Bool
is_strong none = false
is_strong (some d) = not (edge_type d == "weak")

abbrev pub is_empty {ℓ} : {A : Type ℓ} → List A → Bool
is_empty [] = true
is_empty (x ∷ xs) = false

-- `for x in tasks_to_delete: del running_tasks[x]`, then the tasks to add join the waiting ones.
abbrev pub forget_running : List Node → Running → Running
forget_running [] rs = rs
forget_running (x ∷ xs) rs = forget_running xs (drop_running x rs)

abbrev pub forget_waiting : List Node → List Node → List Node
forget_waiting [] ws = ws
forget_waiting (x ∷ xs) ws = forget_waiting xs (erase x ws)

abbrev pub enqueue : List Node → List Node → List Node
enqueue [] ws = ws
enqueue (x ∷ xs) ws = enqueue xs (insert x ws)

-- How a turn ends: the loop goes on, is left by `stop_execution`, or by the deadlock's `break`.
pub data Verdict : Type 0 where
  proceed stop deadlock : Verdict

module _ (nx : Digraph) where
  open nx use {Graph, edge, predecessors}

  -- The local variables of `execute`, with the graph and the results that it updates; `failing`
  -- says that `resulting_type` is Failure.
  pub record Run : Type 0 where
    pub graph : Graph
    pub step_results : StepResults
    pub waiting : List Node
    pub running : Running
    pub finished : List Node
    pub failing : Bool
    pub to_delete : List Node
    pub to_add : List Node
    pub processed : Bool
    pub stopped : Bool

  -- All ancestors of `v` over strong edges are finished.
  unfoldable pub is_ready : Graph → List Node → Node → Bool
  is_ready g finished v =
      all (λ a. not (is_strong (edge g a v)) || has_node finished a) (predecessors g v)

  module _ (early_stopping : Bool) (name : ℕ → String) where
    -- A call of `add_successors_to_waiting_tasks` with `tasks_to_add`.
    pub traverse : Option Bool → Node → Run → Result (Bool × Run)
    traverse outcome u s =
        add_successors nx early_stopping outcome u s.to_add s.graph >>= λ (halt, adding, g).
        return (halt, record s { to_add = adding; graph = g })

    abbrev pub set_stop : Bool × Run → Run
    set_stop (halt, s) = record s { stopped = halt }

    -- A running task that ended without a result.
    pub abort : ℕ → String → Run → Run
    abort t reason s = record s {
      step_results = append_result (name t) (failure reason) s.step_results;
      stopped = true;
    }

    -- A running task whose result came out of its queue.
    pub complete : ℕ → TaskResult → Run → Result Run
    complete t r s =
        traverse (some (is_successful r)) (task t) (record s {
          step_results = append_result (name t) r s.step_results;
          failing = if is_successful r then s.failing else true;
          finished = insert (task t) s.finished;
          to_delete = s.to_delete ++ task t ∷ [];
        })
        >>= λ b. return (set_stop b)

    -- The body of the loop over the running tasks. The texts of the two failures are shortened.
    pub collect_one : ℕ → Probe → Run → Result Run
    collect_one t p s =
        let s' = record s { processed = true } in
        if p.empty && p.alive
        then return s
        else if is_error p.exitcode
        then return (abort t "failed with the exit code" s')
        else elim p.message [
          | none ↦ return (abort t "failed to return results into a queue" s')
          | some r ↦ complete t r s'
        ]

    pub collect : (ℕ → Probe) → Running → Run → Result Run
    collect probes [] s = return s
    collect probes ((t, steps) ∷ rs) s = collect_one t (probes t) s >>= λ s'.
        let rest = collect probes rs s' in if s'.stopped then return s' else rest

    pub settle_running : Run → Run
    settle_running s = record s {
      running = forget_running s.to_delete s.running;
      waiting = enqueue s.to_add s.waiting;
      to_delete = [];
      to_add = [];
    }

    -- A waiting task that is ready: a Task is started, any other node is a synchronization point.
    pub launch : Node → Run → Result Run
    launch (task t) s = return (record s { running = put_running t s.step_results s.running })
    launch v s = traverse none v (record s { finished = insert v s.finished }) >>= λ b. return b.1

    -- The body of the loop over the waiting tasks.
    pub start_one : Node → Run → Result Run
    start_one v s =
        if is_ready s.graph s.finished v
        then launch v (record s { to_delete = s.to_delete ++ v ∷ []; processed = true })
        else return s

    pub start_all : List Node → Run → Result Run
    start_all [] s = return s
    start_all (v ∷ vs) s = start_one v s >>= start_all vs

    pub settle_waiting : Run → Run
    settle_waiting s = record s {
      waiting = enqueue s.to_add (forget_waiting s.to_delete s.waiting);
    }

    abbrev pub verdict : Run → Verdict
    verdict s =
        if is_empty s.running && (not (is_empty s.waiting) && not s.processed)
        then deadlock
        else if s.stopped
        then stop
        else proceed

    abbrev pub begin_round : Run → Run
    begin_round s = record s { to_delete = []; to_add = []; processed = false }

    pub conclude : Run → Verdict × Run
    conclude s = let s' = settle_waiting s in (verdict s', s')

    -- One turn of the loop, past the test for an empty state. `probes` is what the loop reads of
    -- each running process, and `arrange` the order in which Python iterates over the waiting set.
    unfoldable pub round : (ℕ → Probe) → (List Node → List Node) → Run → Result (Verdict × Run)
    unfolding collect collect_one abort complete traverse settle_running start_all start_one launch
        settle_waiting conclude is_ready put_running drop_running append_result
    round probes arrange s = collect probes s.running (begin_round s) >>= λ s1.
        let s2 = settle_running s1 in
        start_all (arrange s2.waiting) s2 >>= λ s3. return (conclude s3)
