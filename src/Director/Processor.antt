-- ===== src/Director/Processor.antt =====
-- netunicorn-director/netunicorn-processor/src/netunicorn/director/processor/__main__.py: the tasks
-- that follow the experiments. A postprocessor is a plug-in, and stands as what it answers: `none`,
-- or the text of an exception. A time is a number of seconds. Texts of errors are shortened.
pub mod Turns
pub mod Statuses
pub mod Status
pub mod Heartbeat
pub mod Locks
use netunicorn.Common.{
  ℕ, ◌+◌, ◌-◌, ◌*◌, String, Bool, true, false, not, ◌&&◌, ◌||◌, Option, none, some, List, [], ◌∷◌,
  ◌++◌, ◌==◌, map, keep, any, ltb, lookup, insert, nat_eq, concat, or_else, if◌then◌else◌,
}
use netunicorn.Base.{
  connector, value, unknown, preparing, running, finished, Deployment, Experiment,
  DeploymentExecutionResult,
}
use netunicorn.Director.Db.{
  Db, ExperimentRow, ExecutorRow, is_executor, LockRow, select_one, update_where,
}
use netunicorn.Director.Mediator.Experiments.{has_id, update_experiment}

abbrev pub set_error : String → String → Db → Db
set_error id e = update_experiment id (λ r. record r { error = some e })

-- The row is there. Its data is decoded for the postprocessors too; data that is missing, at which
-- the decoding raises, is left out.
abbrev pub has_experiment : String → Db → Bool
has_experiment id db = any (has_id id) db.experiments

-- The loop over the postprocessors: an error of one replaces what was stored before.
pub apply_each : String → List (Option String) → Db → Db
apply_each id [] db = db
apply_each id (none ∷ ps) db = apply_each id ps db
apply_each id (some e ∷ ps) db = apply_each id ps (set_error id e db)

unfoldable pub apply_postprocessors : List (Option String) → String → Db → Db
unfolding apply_each
apply_postprocessors postprocessors id db =
    if has_experiment id db then apply_each id postprocessors db else db

abbrev pub result_of : Deployment → Option ExecutorRow → DeploymentExecutionResult
result_of d row = record {
  node = d.node;
  serialized_execution_graph = d.execution_graph;
  result = elim row [ none ↦ none | some r ↦ r.result ];
  error = elim row [ none ↦ none | some r ↦ r.error ];
}

-- What the database answers when the results are stored.
pub data Stored : Type 0 where
  stored too_large : Stored
  broken : String → Stored

unfoldable pub collect_executors_results : Stored → String → Experiment → Db → Db
collect_executors_results answer id experiment db =
    let rs =
      map (λ d. result_of d (select_one (is_executor id d.executor_id) db.executors))
        experiment.deployment_map in
    elim answer [
      | stored ↦ update_experiment id (λ r. record r { execution_results = some rs }) db
      | too_large ↦ set_error id "Execution results are too large to store in the database." db
      | broken e ↦ set_error id (concat "Error occurred during saving execution results: " e) db
    ]

-- `executor_timeouts`, with the last entry of a key.
abbrev pub timeouts : List Deployment → List (String × ℕ) → List (String × ℕ)
timeouts [] m = m
timeouts (d ∷ ds) m = timeouts ds (insert d.executor_id d.keep_alive_timeout_minutes m)

-- What `datetime.now()` shows at a time of UTC, where the clock is `ahead` seconds ahead of it, or
-- `behind` seconds behind.
abbrev pub local_time : ℕ → ℕ → ℕ → ℕ
local_time ahead behind utc = utc + ahead - behind

-- The executor answered last at `keepalive`, or started at `start_time`, which are times of UTC;
-- `now` is the local time.
abbrev pub is_timed_out : ℕ → ℕ → ℕ → Option ℕ → Bool
is_timed_out now start_time minutes keepalive =
    ltb (or_else keepalive start_time + 60 * minutes) now

abbrev pub time_out : String → String → Db → Db
time_out id executor_id db = record db {
  executors =
      update_where (is_executor id executor_id)
        (λ r. record r { finished = true; error = some "Executor timed out" }) db.executors;
}

-- The loop over the unfinished executors; the answer is `alive_executor_exists`, and `none` is a
-- KeyError.
pub check_each :
    ℕ → ℕ → String → List (String × ℕ) → List ExecutorRow → Bool → Db → Option (Bool × Db)
check_each now start_time id minutes [] alive db = some (alive, db)
check_each now start_time id minutes (r ∷ rs) alive db = elim (lookup r.executor_id minutes) [
  | none ↦ none
  | some m ↦
      let gone = is_timed_out now start_time m r.keepalive in
      check_each now start_time id minutes rs (if gone then alive else true)
        (if gone then time_out id r.executor_id db else db)
]

abbrev pub is_unfinished : String → ExecutorRow → Bool
is_unfinished id r = r.experiment_id == id && not r.finished

abbrev pub has_error : String → Db → Bool
has_error id db = elim (select_one (has_id id) db.experiments) [
  | none ↦ false
  | some r ↦ elim r.error [ none ↦ false | some e ↦ not (e == "") ]
]

abbrev pub set_status : String → ℕ → Db → Db
set_status id status = update_experiment id (λ r. record r { status = status })

-- The two calls of `collect_executors_results` have an answer of the database each.
unfoldable pub update_experiment_status :
    List (Option String) → Stored → Stored → ℕ → String → Experiment → ℕ → Db → Option Db
unfolding check_each apply_postprocessors collect_executors_results
update_experiment_status postprocessors first second now id experiment start_time db =
    if has_error id db
    then some (apply_postprocessors postprocessors id (set_status id (value unknown) db))
    else let db1 = collect_executors_results first id experiment db in
      elim (check_each now start_time id (timeouts experiment.deployment_map [])
        (keep (is_unfinished id) db1.executors) false db1) [
          | none ↦ none
          | some (alive, db2) ↦
              if alive
              then some db2
              else some (
                  apply_postprocessors postprocessors id (
                    collect_executors_results second id experiment
                      (set_status id (value finished) db2)))
        ]

-- One turn of `locker_task`: the set of the nodes that are in use.
abbrev pub is_in_use : ExperimentRow → Bool
is_in_use r = nat_eq r.status (value preparing) || nat_eq r.status (value running)

abbrev pub lock_eq : LockRow → LockRow → Bool
lock_eq a b = a.node_name == b.node_name && (a.connector == b.connector && a.username == b.username)

abbrev pub add_lock : LockRow → List LockRow → List LockRow
add_lock l ls = if any (lock_eq l) ls then ls else l ∷ ls

abbrev pub lock_of : String → Deployment → LockRow
lock_of username d = record {
  node_name = d.node.name;
  connector = connector d.node;
  username = username;
}

unfoldable pub add_locks : String → List Deployment → List LockRow → List LockRow
add_locks username [] ls = ls
add_locks username (d ∷ ds) ls = add_locks username ds (add_lock (lock_of username d) ls)

unfoldable pub nodes_to_lock : List ExperimentRow → List LockRow → List LockRow
unfolding add_locks
nodes_to_lock [] ls = ls
nodes_to_lock (r ∷ rs) ls = elim r.data_ [
  | none ↦ nodes_to_lock rs ls
  | some e ↦ nodes_to_lock rs (add_locks r.username e.deployment_map ls)
]

-- The primary key of the table: two locks of one node cannot be stored.
abbrev pub same_node : LockRow → LockRow → Bool
same_node a b = a.node_name == b.node_name && a.connector == b.connector

unfoldable pub has_clash : List LockRow → Bool
has_clash [] = false
has_clash (l ∷ ls) = any (same_node l) ls || has_clash ls

-- `none` is a violation of the key, which rolls the transaction back.
unfoldable pub lock_nodes : Db → Option Db
unfolding nodes_to_lock has_clash
lock_nodes db =
    let ls = nodes_to_lock (keep is_in_use db.experiments) [] in
    if has_clash ls then none else some (record db { locks = ls })
