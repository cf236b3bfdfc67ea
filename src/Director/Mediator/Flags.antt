-- ===== src/Director/Mediator/Flags.antt =====
-- The flags of an experiment in engine.py of the mediator.
use netunicorn.Common.{String, none, some, ◌≡◌, eq_refl, if◌then◌else◌, false}
use netunicorn.Base.{ExperimentStatus}
use netunicorn.Director.Outcome.{Outcome, success, failure, ◌>>=◌}
use netunicorn.Director.Db.{Db, select_one}
use netunicorn.Director.Gateway.{
  FlagValues, is_flag, both_missing, store_flag, get_flag_value, set_flag_value,
}
use netunicorn.Director.Gateway.Flags.{stored_flag, get-set_flag}
use netunicorn.Director.Mediator.Experiments.{get_experiment_id_and_status}

unfoldable pub get_experiment_flag : String → String → String → Db → Outcome FlagValues
get_experiment_flag username name key db =
    get_experiment_id_and_status name username db >>= λ (id, status).
    elim (select_one (is_flag id key) db.flags) [
      | none ↦ failure "flag not found"
      | some r ↦ success (record { text_value = r.text_value; int_value = some r.int_value })
    ]

unfoldable pub set_experiment_flag :
    String → String → String → FlagValues → Db → Outcome (Unit {0}) × Db
set_experiment_flag username name key v db =
    if both_missing v
    then (failure "Flag values cannot be both None", db)
    else elim (get_experiment_id_and_status name username db) [
      | failure e ↦ (failure e, db)
      | success (id, status) ↦ (success tt, store_flag id key v db)
    ]

-- A flag with a value that a user sets for an experiment of theirs is what the executors of that
-- experiment then read from the gateway.
pub set-get_experiment_flag :
    (username name key : String) (v : FlagValues) (db : Db) (id : String)
    (status : ExperimentStatus)
    → both_missing v ≡ false
    → get_experiment_id_and_status name username db ≡ success (id, status)
    → get_flag_value id key (set_experiment_flag username name key v db).1
      ≡ record { status_code = 200; body = some (stored_flag v) }
unfolding set_experiment_flag set_flag_value
set-get_experiment_flag username name key v db id status b h =
    rw (b, h) (let g = get-set_flag id key id key v db in rw (b, eq_refl id, eq_refl key) at g)
