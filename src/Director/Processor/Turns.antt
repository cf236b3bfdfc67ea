-- ===== src/Director/Processor/Turns.antt =====
-- The turns of the processor's tasks over all experiments.
use netunicorn.Common.{
  ℕ, String, Bool, Option, none, some, List, [], ◌∷◌, keep, any, nat_eq, if◌then◌else◌,
}
use netunicorn.Base.{value, running, preparing}
use netunicorn.Director.Db.{Db, ExperimentRow}
use netunicorn.Director.Processor.{Stored, update_experiment_status}

-- What the postprocessors and the database answer for each experiment.
pub record Replies : Type 0 where
  pub postprocessors : String → List (Option String)
  pub first : String → Stored
  pub second : String → Stored

-- The loop over the rows that were fetched. `none` is an exception, which ends the task: missing
-- data cannot be decoded. A RUNNING experiment has its start time since it was started.
unfoldable pub process_each : Replies → ℕ → List ExperimentRow → Db → Option Db
unfolding update_experiment_status
process_each replies now [] db = some db
process_each replies now (r ∷ rs) db = elim r.data_ [
  | none ↦ none
  | some experiment ↦ elim r.start_time [
    | none ↦ none
    | some start_time ↦
        elim (update_experiment_status (replies.postprocessors r.experiment_id)
          (replies.first r.experiment_id) (replies.second r.experiment_id) now r.experiment_id
          experiment start_time db) [ none ↦ none | some db' ↦ process_each replies now rs db' ]
  ]
]

abbrev pub is_running : ExperimentRow → Bool
is_running r = nat_eq r.status (value running)

-- One turn of `update_experiments_task`.
unfoldable pub update_experiments : Replies → ℕ → Db → Option Db
unfolding process_each
update_experiments replies now db = process_each replies now (keep is_running db.experiments) db

-- One turn of `preparing_experiment_watchdog_task`: the first row raises a KeyError, since the
-- column "creation_time" is not fetched.
unfoldable pub watch_preparing : Db → Option Db
watch_preparing db =
    if any (λ r. nat_eq r.status (value preparing)) db.experiments then none else some db
