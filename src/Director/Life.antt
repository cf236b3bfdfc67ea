-- ===== src/Director/Life.antt =====
-- The life of an experiment across the services of the director: the status diagram of the
-- experiments, and the steps of the services on the tables.
pub mod Updates
pub mod Preparing
pub mod Processing
pub mod Steps
pub mod Refinement
use netunicorn.Common.{ℕ, String, Bool, false, Option, none, some, List, [], ◌∷◌, ◌≡◌, ◌⊎◌}
use netunicorn.Base.{
  ExperimentStatus, unknown, preparing, ready, running, finished, value, Deployment, Experiment,
}
use netunicorn.Director.Db.{Db, ExperimentRow, select_one}
use netunicorn.Director.Mediator.Experiments.{has_id, is_busy, start_experiment, delete_experiment}
use netunicorn.Director.Mediator.Preparation.{Context}
use netunicorn.Director.Mediator.Preparation.Task.{Preprocessor, Waiting, begin, finish}
use netunicorn.Director.Infrastructure.{Answers, background_deploy_task, cleanup}
use netunicorn.Director.Processor.Turns.{Replies, update_experiments}
use netunicorn.Director.Processor.Statuses.{status_of}

-- The operations that write statuses; `idle` stands for all others.
pub data Service : Type 0 where
  preparation deployment starting deletion processing idle : Service

-- The diagram, with the service that may take each edge: `none` stands for an experiment that is not
-- stored. The background task of the deployment, the preparation and the deletion do not compare the
-- status with the one that they replace.
pub data Move : Service → Option ℕ → Option ℕ → Type 0 where
  created : Move preparation none (some (value preparing))
  aborted : {s : ℕ} → Move preparation (some s) (some (value finished))
  deployed : {s : ℕ} → Move deployment (some s) (some (value ready))
  launched : Move starting (some (value ready)) (some (value running))
  refused : Move starting (some (value running)) (some (value unknown))
  deleted : {s : ℕ} → Move deletion (some s) (some (value finished))
  lost : Move processing (some (value running)) (some (value unknown))
  collected : Move processing (some (value running)) (some (value finished))

-- Some edges of one service, one after the other.
pub data Moves (k : Service) : Option ℕ → Option ℕ → Type 0 where
  here : {s : Option ℕ} → Moves k s s
  next : {s t u : Option ℕ} → Move k s t → Moves k t u → Moves k s u

-- PRIMARY KEY (experiment_id)
abbrev pub IdsAreUnique : List ExperimentRow → Type 0
IdsAreUnique [] = Unit {0}
IdsAreUnique (r ∷ rs) = (select_one (has_id r.experiment_id) rs ≡ none) × IdsAreUnique rs

-- A step of a service; `elsewhere` is an operation that does not write experiments, like those of
-- the gateway, the compiler and the locker. The identifier of a new experiment is not stored yet.
pub data Step : Db → Db → Type 1 where
  begins :
      (ps : List Preprocessor) (c : Context) (now : ℕ) (name : String) (experiment : Experiment)
      (db : Db)
      → status_of c.experiment_id db ≡ none
      → Step db (begin ps c now name experiment db).1
  finishes :
      (post : Option String) (c : Context) (w : Waiting c) (db : Db) → Step db (finish post c w db)
  deploys :
      (answers : Answers) (id : String) (groups : List (String × List Deployment))
      (connectors : List String) (db : Db)
      → Step db (background_deploy_task answers id groups (connectors, db)).1
  starts :
      (now : ℕ) (post : Option String) (name username : String) (db : Db)
      → IdsAreUnique db.experiments
      → Step db (start_experiment now post name username db).1
  deletes :
      (uuid name username : String) (db : Db) → Step db (delete_experiment uuid name username db).1
  processes :
      (replies : Replies) (now : ℕ) (db db' : Db)
      → IdsAreUnique db.experiments
      → update_experiments replies now db ≡ some db'
      → Step db db'
  cleans : (connectors : List String) (db : Db) → Step db (cleanup connectors db).1
  elsewhere : (db db' : Db) → db'.experiments ≡ db.experiments → Step db db'

-- A run: the steps in the order in which they happen.
pub data Run : Db → Db → Type 1 where
  stop : (db : Db) → Run db db
  step : (db db' db'' : Db) → Step db db' → Run db' db'' → Run db db''

-- The service of a step.
unfoldable pub service : {db db' : Db} → Step db db' → Service
service (begins ps c now name e db h) = preparation
service (finishes post c w db) = preparation
service (deploys answers x groups connectors db) = deployment
service (starts now post name username db u) = starting
service (deletes uuid name username db) = deletion
service (processes replies now db db' u h) = processing
service (cleans connectors db) = idle
service (elsewhere db db' h) = idle

-- In the run there is a start while the experiment is READY.
unfoldable pub IsLaunched : (id : String) {db db' : Db} → Run db db' → Type 0
unfolding service
IsLaunched id (stop db) = ⊥
IsLaunched id (step db db' db'' s r) =
    (service s ≡ starting) × (status_of id db ≡ some (value ready)) ⊎ IsLaunched id r
