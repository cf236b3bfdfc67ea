-- ===== src/Director/Infrastructure.antt =====
-- netunicorn-director/netunicorn-infrastructure/src/netunicorn/director/infrastructure: kernel.py
-- and the cleanup of tasks.py. A connector is a plug-in: a call of it stands as what it answers,
-- the result of each executor, or `none` for an exception. The contexts that are handed through to
-- the connectors are left out.
pub mod Connectors
pub mod Deployments
pub mod Failures
pub mod Stopping
pub mod Server
use netunicorn.Common.{
  ℕ, String, Bool, true, false, not, ◌&&◌, ◌||◌, Option, none, some, List, [], ◌∷◌, ◌++◌, ◌==◌, map,
  keep, any, all, has_text, lookup, if◌then◌else◌, nat_eq,
}
use netunicorn.Base.{connector, value, unknown, ready, finished, Deployment, Experiment}
use netunicorn.Director.Outcome.{Outcome, success, failure}
use netunicorn.Director.Db.{Db, ExperimentRow, ExecutorRow, select_one, update_where}
use netunicorn.Director.Mediator.Experiments.{has_id, update_experiment}

-- The answers of the connectors to one kind of call, by the connector's name.
abbrev pub Answers : Type 0
Answers = String → Option (List (String × Outcome (Unit {0})))

-- `groups[key].append(x)` of a defaultdict of lists.
unfoldable pub add_to_group {ℓ} :
    {A : Type ℓ} → String → A → List (String × List A) → List (String × List A)
add_to_group key x [] = (key, x ∷ []) ∷ []
add_to_group key x ((k, xs) ∷ groups) =
    if k == key then (k, xs ++ x ∷ []) ∷ groups else (k, xs) ∷ add_to_group key x groups

-- `deployments`: the given deployments per connector.
unfoldable pub by_connector :
    List Deployment → List (String × List Deployment) → List (String × List Deployment)
unfolding add_to_group
by_connector [] groups = groups
by_connector (d ∷ ds) groups = by_connector ds (add_to_group (connector d.node) d groups)

abbrev pub is_available {ℓ} : {A : Type ℓ} → List String → String × List A → Bool
is_available connectors (name, xs) = has_text name connectors

-- What a request answers, with the background task that it started.
pub data Started (A : Type 0) : Type 0 where
  not_found unavailable : Started A
  started : A → Started A

abbrev pub experiment_of : String → Db → Option Experiment
experiment_of id db = elim (select_one (has_id id) db.experiments) [
  | none ↦ none
  | some r ↦ r.data_
]

abbrev pub start_on : List String → List Deployment → Started (List (String × List Deployment))
start_on connectors ds =
    let groups = by_connector ds [] in
    if all (is_available connectors) groups then started groups else unavailable

unfoldable pub deploy : List String → String → Db → Started (List (String × List Deployment))
unfolding by_connector
deploy connectors id db = elim (experiment_of id db) [
  | none ↦ not_found
  | some e ↦ start_on connectors (keep (λ d. d.prepared) e.deployment_map)
]

-- `UPDATE executors SET finished = TRUE, error = …`
abbrev pub finish_executor : String → String → String → Db → Db
finish_executor reason id executor_id db = record db {
  executors =
      update_where (λ (r : ExecutorRow). r.experiment_id == id && r.executor_id == executor_id)
        (λ r. record r { finished = true; error = some reason }) db.executors;
}

-- The results of one connector: each failure is recorded.
unfoldable pub record_results : String → List (String × Outcome (Unit {0})) → Db → Db
record_results id [] db = db
record_results id ((x, success u) ∷ results) db = record_results id results db
record_results id ((x, failure reason) ∷ results) db =
    record_results id results (finish_executor reason id x db)

abbrev pub all_failed : String → List Deployment → List (String × Outcome (Unit {0}))
all_failed reason ds = map (λ d. (d.executor_id, failure reason)) ds

-- The loop over the connectors, for `background_deploy_task` and `background_execute_task`. A
-- connector that raises is taken off the dictionary of connectors, and all its executors fail. One
-- that is not in the dictionary any more raises KeyError twice, also in the handler, which ends the
-- task: the answer says whether the loop came to its end.
unfoldable pub call_each :
    Answers
    → String
    → List (String × List Deployment)
    → List String × Db
    → (List String × Db) × Bool
unfolding record_results
call_each answers id [] state = (state, true)
call_each answers id ((name, ds) ∷ groups) (connectors, db) = elim (has_text name connectors) [
  | false ↦ ((connectors, db), false)
  | true ↦ elim (answers name) [
    | some results ↦ call_each answers id groups (connectors, record_results id results db)
    | none ↦ call_each answers id groups (
      keep (λ c. not (c == name)) connectors,
      record_results id (all_failed "Connector raised an exception" ds) db,
    )
  ]
]

unfoldable pub background_deploy_task :
    Answers → String → List (String × List Deployment) → List String × Db → List String × Db
unfolding call_each
background_deploy_task answers id groups state =
    let ((connectors, db), done) = call_each answers id groups state in
    (
      connectors,
      if done then update_experiment id (λ r. record r { status = value ready }) db else db,
    )

-- The loop over the unprepared deployments of `execute`.
unfoldable pub finish_unprepared : String → List Deployment → Db → Db
finish_unprepared id [] db = db
finish_unprepared id (d ∷ ds) db =
    finish_unprepared id ds
      (if d.prepared then db else finish_executor "Executor is not prepared" id d.executor_id db)

-- The filter by `finished_executors` compares a text with rows, so that no deployment is dropped.
unfoldable pub execute : List String → String → Db → Started (List (String × List Deployment)) × Db
unfolding by_connector finish_unprepared
execute connectors id db = elim (experiment_of id db) [
  | none ↦ (not_found, db)
  | some e ↦ (
    start_on connectors (keep (λ d. d.prepared) e.deployment_map),
    finish_unprepared id e.deployment_map db,
  )
]

unfoldable pub background_execute_task :
    Answers → String → List (String × List Deployment) → List String × Db → List String × Db
unfolding call_each
background_execute_task answers id groups state = (call_each answers id groups state).0

-- `SELECT … WHERE executor_id = ANY($1)`, per connector.
unfoldable pub executors_dict :
    List ExecutorRow → List (String × List String) → List (String × List String)
unfolding add_to_group
executors_dict [] groups = groups
executors_dict (r ∷ rs) groups = executors_dict rs (add_to_group r.connector r.executor_id groups)

unfoldable pub stop_executors :
    List String → List String → Db → Started (List (String × List String))
unfolding executors_dict
stop_executors connectors executors db =
    elim (keep (λ (r : ExecutorRow). has_text r.executor_id executors) db.executors) [
      | [] ↦ not_found
      | r ∷ rs ↦
          let groups = executors_dict (r ∷ rs) [] in
          if all (is_available connectors) groups then started groups else unavailable
    ]

-- The update is by the executor's id alone.
abbrev pub stop_executor : String → String → Db → Db
stop_executor reason executor_id db = record db {
  executors =
      update_where (λ (r : ExecutorRow). r.executor_id == executor_id)
        (λ r. record r { finished = true; error = some reason }) db.executors;
}

unfoldable pub record_stopped : List (String × Outcome (Unit {0})) → Db → Db
record_stopped [] db = db
record_stopped ((x, success u) ∷ results) db =
    record_stopped results (stop_executor "Executor was stopped" x db)
record_stopped ((x, failure reason) ∷ results) db =
    record_stopped results (stop_executor reason x db)

unfoldable pub background_stop_executors_task :
    Answers → List (String × List String) → List String × Db → List String × Db
unfolding record_stopped
background_stop_executors_task answers [] state = state
background_stop_executors_task answers ((name, xs) ∷ groups) (connectors, db) =
    elim (answers name) [
      | some results ↦
          background_stop_executors_task answers groups (connectors, record_stopped results db)
      | none ↦ background_stop_executors_task answers groups (
        keep (λ c. not (c == name)) connectors,
        record_stopped (map (λ x. (x, failure "Connector raised an exception")) xs) db,
      )
    ]

abbrev pub is_to_clean_up : ExperimentRow → Bool
is_to_clean_up r =
    (nat_eq r.status (value finished) || nat_eq r.status (value unknown)) && not r.cleaned_up

-- The calls to the connectors that have a group, in the order of the connectors. Their answers are
-- not read; a connector that raises is left out here.
unfoldable pub cleanup_calls :
    String
    → List (String × List Deployment)
    → List String
    → List (String × String × List Deployment)
cleanup_calls id groups [] = []
cleanup_calls id groups (c ∷ cs) =
    let rest = cleanup_calls id groups cs in
    elim (lookup c groups) [ none ↦ rest | some ds ↦ (c, id, ds) ∷ rest ]

-- One turn of `cleanup_watchdog_task`: the calls that it makes to connectors, and the tables.
unfoldable pub cleanup : List String → Db → List (String × String × List Deployment) × Db
unfolding by_connector cleanup_calls
cleanup connectors db = elim (select_one is_to_clean_up db.experiments) [
  | none ↦ ([], db)
  | some r ↦
      let db' = update_experiment r.experiment_id (λ x. record x { cleaned_up = true }) db in
      let groups = elim r.data_ as (λ x. List (String × List Deployment)) [
        | none ↦ []
        | some e ↦ by_connector (keep (λ d. d.cleanup) e.deployment_map) []
      ] in
      (cleanup_calls r.experiment_id groups connectors, db')
]
