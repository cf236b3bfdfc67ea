-- ===== src/Examples/Runs.antt =====
-- The executor on concrete inputs: two tasks in a row, of which the second has a weak edge back.
use netunicorn.Common.{
  ℕ, ◌≤◌, String, Bool, true, false, ◌&&◌, none, some, List, [], ◌∷◌, ◌++◌, ◌≡◌, refl, not, keep,
  all, any, if◌then◌else◌,
}
use netunicorn.Common.Int.{pos}
use netunicorn.Graph.{task, number, root, plain, Node, node_eq, has_node, insert, erase}
use netunicorn.Graph.Adjacency.{
  adjacency, Lists, add_arc, get_arc, drop_arc, in_arcs, out_arcs, count_arc,
}
use netunicorn.Graph.Validation.{is_execution_graph_valid}
use netunicorn.Executor.Types.{
  success, failure, Result, return, raise, Probe, looking_for_execution_graph,
}
use netunicorn.Executor.Successors.{add_successors, is_false, traverses, known}
use netunicorn.Executor.Successors.Traversal.{follows, is_known, spent, add_successors_lem}
use netunicorn.Executor.Successors.Errors.{Checks, add_successors-Checks}
use netunicorn.Executor.Round.{Run, Verdict, stop, round, append_result, is_ready}
use netunicorn.Executor.Round.Invariant.{IsOrdered, is_active}
use netunicorn.Executor.Round.Deadlock.{round-deadlock}
use netunicorn.Executor.Round.Progress.{round-is_active}
use netunicorn.Executor.Round.Twice.{round-starts_twice}
use netunicorn.Executor.Round.Crash.{round-crash}
use netunicorn.Executor.Execute.{Turn, pending, Executed, ran, start, execute}
use netunicorn.Executor.Execute.Safe.{execute-IsOrdered}
use netunicorn.Executor.Service.{Executor, World, timed_out, refused, call}
use netunicorn.Executor.Service.Backoff.{slept-le}
use netunicorn.Examples.Graphs.{answers, row}

abbrev name : ℕ → String
name t = "work"

abbrev done : Probe
done = record { empty = false; alive = true; exitcode = none; message = some (success "1") }

abbrev dead : Probe
dead = record { empty = false; alive = false; exitcode = some (pos 9); message = none }

abbrev turn : Turn
turn = record { probes = λ t. done; arrange = λ ws. ws }

abbrev five_turns : List Turn
five_turns = turn ∷ turn ∷ turn ∷ turn ∷ turn ∷ []

abbrev run_of : Result (Executed adjacency) → Run adjacency
run_of (return (ran e s)) = s
run_of _ = start adjacency row.graph []

abbrev last_run : Run adjacency
last_run = run_of (execute adjacency answers name five_turns (some row) [])

-- All theorems on a run of the two tasks rest on this computation.
five_turns-returns :
    execute adjacency answers name five_turns (some row) [] ≡ return (ran pending last_run)
unfolding execute round add_successors is_execution_graph_valid has_node insert erase node_eq
    add_arc get_arc drop_arc in_arcs out_arcs count_arc
five_turns-returns = refl

execute-IsOrdered_example : IsOrdered adjacency last_run
execute-IsOrdered_example =
    execute-IsOrdered adjacency answers name five_turns row [] pending last_run five_turns-returns

-- The second task returned a Success: its edge is followed, and its counter goes from 2 to 1.
abbrev graph_of : Result (Bool × List Node × Lists) → Lists
graph_of (return (halt, waiting, g)) = g
graph_of (raise e) = row.graph

abbrev counted_down : Lists
counted_down = graph_of (add_successors adjacency true (some true) (task 1) [] row.graph)

add_successors_lem_example :
    (task 2 ∷ []
      ≡ []
        ++ keep
            (λ v. follows true (some true) (adjacency.edge row.graph (task 1) v))
            (adjacency.successors row.graph (task 1)))
    × ((x y : Node)
        → adjacency.edge counted_down x y ≡ (
            if node_eq (task 1) x && follows true (some true) (adjacency.edge row.graph (task 1) y)
            then spent (adjacency.edge row.graph (task 1) y)
            else adjacency.edge row.graph x y))
    × (false ≡ (
        is_false (some true)
        && (true
            && not (
                any
                  (λ v. follows true (some true) (adjacency.edge row.graph (task 1) v))
                  (adjacency.successors row.graph (task 1))))))
unfolding add_successors traverses known add_arc get_arc out_arcs count_arc node_eq has_node insert
add_successors_lem_example =
    add_successors_lem adjacency true (some true) (task 1) [] row.graph false (task 2 ∷ [])
      counted_down refl

add_successors-Checks_example :
    Checks
      (all
        (λ v. is_known true (adjacency.edge row.graph (task 1) v))
        (adjacency.successors row.graph (task 1)))
      (add_successors adjacency true (some true) (task 1) [] row.graph)
add_successors-Checks_example =
    add_successors-Checks adjacency true (some true) (task 1) [] row.graph

-- The first task was never finished, and the second one waits for it.
abbrev stuck : Run adjacency
stuck = record (start adjacency row.graph []) { waiting = task 2 ∷ [] }

abbrev round_of : Result (Verdict × Run adjacency) → Run adjacency
round_of (return (v, s)) = s
round_of (raise e) = stuck

abbrev after_stuck : Run adjacency
after_stuck = round_of (round adjacency true name (λ t. done) (λ ws. ws) stuck)

round-deadlock_example :
    (after_stuck.running ≡ [])
    × (is_ready adjacency after_stuck.graph after_stuck.finished (task 2) ≡ false)
unfolding round start add_arc get_arc in_arcs node_eq has_node insert
round-deadlock_example =
    round-deadlock adjacency true name (λ t. done) (λ ws. ws) (λ ws v. refl) stuck after_stuck
      (task 2) refl refl

-- The process of the first task was killed.
abbrev killed : Run adjacency
killed = record (start adjacency row.graph []) { waiting = []; running = (1, []) ∷ [] }

abbrev after_killed : Run adjacency
after_killed = round_of (round adjacency true name (λ t. dead) (λ ws. ws) killed)

round-crash_example :
    (after_killed.step_results ≡ append_result "work" (failure "failed with the exit code") [])
    × (after_killed.failing ≡ false)
    × (after_killed.stopped ≡ true)
unfolding round start append_result
round-crash_example =
    round-crash adjacency true name (λ t. dead) (λ ws. ws) 1 [] killed after_killed stop refl refl
      refl refl

-- The first task is ready when the loop starts.
abbrev first_run : Run adjacency
first_run = record (start adjacency row.graph []) { waiting = task 1 ∷ []; finished = root ∷ [] }

abbrev verdict_of : Result (Verdict × Run adjacency) → Verdict
verdict_of (return (v, s)) = v
verdict_of (raise e) = stop

abbrev first_round : Result (Verdict × Run adjacency)
first_round = round adjacency true name (λ t. done) (λ ws. ws) first_run

round-is_active_example : is_active adjacency (round_of first_round) (task 1) ≡ true
unfolding round start add_arc get_arc in_arcs out_arcs node_eq has_node insert
round-is_active_example =
    round-is_active adjacency true name (λ t. done) (λ ws. ws) (λ ws v. refl) first_run
      (round_of first_round) (verdict_of first_round) (task 1) refl refl refl

-- A point that leads to a task that waits too: the task has no other strong edge.
abbrev shortcut : Lists
shortcut = adjacency.add_edge adjacency.empty (number 5) (task 1) plain

abbrev both_wait : Run adjacency
both_wait = record (start adjacency shortcut []) { waiting = number 5 ∷ task 1 ∷ [] }

abbrev both_round : Result (Verdict × Run adjacency)
both_round = round adjacency true name (λ t. done) (λ ws. ws) both_wait

round-starts_twice_example :
    ((round_of both_round).running ≡ (1, []) ∷ [])
    × (has_node (round_of both_round).waiting (task 1) ≡ true)
    × (is_ready adjacency (round_of both_round).graph (round_of both_round).finished (task 1)
        ≡ true)
unfolding round start add_successors add_arc get_arc drop_arc in_arcs out_arcs count_arc node_eq
    has_node insert known
round-starts_twice_example =
    round-starts_twice adjacency true name (λ t. done) (λ ws. ws) 5 1 plain both_wait
      (round_of both_round) (verdict_of both_round) refl refl refl refl refl refl refl refl refl

-- An executor that finds no graph and meets a timeout.
abbrev fresh : Executor adjacency
fresh = record {
  execution_graph = none;
  step_results = [];
  results = none;
  state = looking_for_execution_graph;
  backoff = 0;
  slept = 0;
}

abbrev silence : World adjacency
silence = record { local_file = none; graph_reply = timed_out; report_reply = refused; turns = [] }

slept-le_example : 30 ≤ 225
unfolding call
slept-le_example =
    slept-le adjacency answers name (silence ∷ silence ∷ silence ∷ silence ∷ []) fresh
      (record fresh { backoff = 4; slept = 30 }) false refl refl refl
