-- ===== src/Director/Mediator/Experiments.antt =====
-- The life cycle of an experiment in engine.py of the mediator. Texts of errors are shortened.
pub mod Lifecycle
pub mod Listing
use netunicorn.Common.{
  ℕ, String, Bool, true, false, ◌&&◌, ◌||◌, Option, none, some, List, ◌==◌, nat_eq, if◌then◌else◌,
  or_else, concat,
}
use netunicorn.Base.{
  ExperimentStatus, unknown, preparing, ready, running, finished, value, from_value, Experiment,
  DeploymentExecutionResult,
}
use netunicorn.Director.Outcome.{Outcome, success, failure, ◌>>=◌}
use netunicorn.Director.Db.{Db, ExperimentRow, select_one, update_where}

abbrev pub is_named : String → String → ExperimentRow → Bool
is_named username name r = r.username == username && r.experiment_name == name

abbrev pub has_id : String → ExperimentRow → Bool
has_id id r = r.experiment_id == id

unfoldable pub get_experiment_id_and_status :
    String → String → Db → Outcome (String × ExperimentStatus)
unfolding from_value
get_experiment_id_and_status name username db =
    elim (select_one (is_named username name) db.experiments) [
      | none ↦ failure "not found"
      | some r ↦ success (r.experiment_id, or_else (from_value r.status) unknown)
    ]

abbrev pub is_busy : ExperimentStatus → Bool
is_busy running = true
is_busy preparing = true
is_busy _ = false

abbrev pub update_experiment : String → (ExperimentRow → ExperimentRow) → Db → Db
update_experiment id f db = record db { experiments = update_where (has_id id) f db.experiments }

-- The row is kept, under another user; `uuid` is a new UUID.
unfoldable pub delete_experiment : String → String → String → Db → Outcome (Unit {0}) × Db
delete_experiment uuid name username db = elim (get_experiment_id_and_status name username db) [
  | failure e ↦ (failure e, db)
  | success (id, status) ↦ if is_busy status then (failure "cannot delete it", db) else (
    success tt,
    update_experiment id
        (λ r. record r {
          username = concat "deleted_" username;
          status = value finished;
          experiment_name = concat name (concat "_" uuid);
        })
        db,
  )
]

abbrev pub is_ready_status : ExperimentStatus → Bool
is_ready_status ready = true
is_ready_status _ = false

abbrev pub post_execution : Option String → String → String → Db → Outcome String × Db
post_execution none name id db = (success name, db)
post_execution (some e) name id db = (
  failure "Error occurred during experiment execution",
  update_experiment id (λ r. record r { status = value unknown; error = some e }) db,
)

-- `post` is the answer of the infrastructure service: `none`, or the text of an exception.
unfoldable pub start_experiment : ℕ → Option String → String → String → Db → Outcome String × Db
start_experiment now post name username db = elim (get_experiment_id_and_status name username db) [
  | failure e ↦ (failure e, db)
  | success (id, status) ↦
      if is_ready_status status
      then post_execution post name id (
          update_experiment id (λ r. record r { status = value running; start_time = some now }) db)
      else (failure "not ready to start", db)
]

-- What `execution_result` of ExperimentExecutionInformation holds: the mediator puts a text there,
-- and the client reads an Exception with this text.
pub data ExecutionResult : Type 0 where
  nothing : ExecutionResult
  error_text exception : String → ExecutionResult
  results : List DeploymentExecutionResult → ExecutionResult

pub record ExperimentExecutionInformation : Type 0 where
  pub status : ExperimentStatus
  pub experiment : Option Experiment
  pub execution_result : ExecutionResult

abbrev execution_result : Option String → Option (List DeploymentExecutionResult) → ExecutionResult
execution_result (some e) rs = error_text e
execution_result none none = nothing
execution_result none (some rs) = results rs

unfoldable pub get_experiment_status : String → String → Db → Outcome ExperimentExecutionInformation
get_experiment_status name username db =
    get_experiment_id_and_status name username db >>= λ (id, status).
    elim (select_one (has_id id) db.experiments) [
      | none ↦ failure "was not found"
      | some r ↦ success (record {
        status = status;
        experiment = r.data_;
        execution_result = execution_result r.error r.execution_results;
      })
    ]
