-- ===== src/Director/Mediator/Preparation/Task.antt =====
-- The rest of `prepare_experiment_task`: what stands around the loop over the deployments.
use netunicorn.Common.{
  ℕ, String, Bool, true, false, ◌&&◌, Option, none, some, List, [], ◌∷◌, map, all, any, keep,
  has_text, ◌==◌, is_some, or_else, if◌then◌else◌,
}
use netunicorn.Base.{preparing, finished, value, Deployment, Contexts, Experiment}
use netunicorn.Director.Outcome.{Outcome, success, failure, ◌>>=◌}
use netunicorn.Director.Db.{Db, ExperimentRow, CompilationRow, select_one, upsert}
use netunicorn.Director.Mediator.Experiments.{has_id, is_named, update_experiment}
use netunicorn.Director.Mediator.Preparation.{
  Context, Envs, Prepared, key, find, add_executor, is_compilation, prepare_all,
}

-- A preprocessor is a plug-in: it gives an experiment, or the text of an exception.
abbrev pub Preprocessor : Type 0
Preprocessor = String → Experiment → Outcome Experiment

unfoldable pub preprocess : List Preprocessor → String → Experiment → Outcome Experiment
preprocess [] id experiment = success experiment
preprocess (p ∷ ps) id experiment = p id experiment >>= preprocess ps id

-- What the task still knows while it waits.
pub record Waiting (c : Context) : Type 0 where
  pub items : List Prepared
  pub envs : Envs c
  pub context : Option Contexts

-- How the first part ends.
pub data Begun (c : Context) : Type 0 where
  known_name preprocessor_failed : Begun c
  waiting : Waiting c → Begun c

-- The texts of a dictionary; the order and repetitions are not observed.
abbrev pub compilation_ids {ℓ} : {C : Type ℓ} → List (C × String) → List String
compilation_ids [] = []
compilation_ids (entry ∷ envs) = entry.1 ∷ compilation_ids envs

-- `executemany` of the last INSERT.
unfoldable pub add_executors : Context → List Deployment → Db → Db
unfolding add_executor
add_executors c [] db = db
add_executors c (d ∷ ds) db = add_executors c ds (add_executor c none d db)

abbrev pub new_experiment : Context → ℕ → String → ExperimentRow
new_experiment c now name = record {
  username = c.username;
  experiment_name = name;
  experiment_id = c.experiment_id;
  data_ = none;
  status = value preparing;
  error = none;
  execution_results = none;
  creation_time = now;
  start_time = none;
  cleaned_up = false;
}

-- `INSERT INTO experiments … ON CONFLICT DO NOTHING`
abbrev pub add_experiment : Context → ℕ → String → Db → Db
add_experiment c now name db = record db {
  experiments = upsert (has_id c.experiment_id) (new_experiment c now name) (λ r. r) db.experiments;
}

-- `UPDATE experiments SET data = …`
abbrev pub store : (c : Context) → Waiting c → Db → Db
store c w db =
    update_experiment c.experiment_id
      (λ r. record r {
        data_ =
            some
              (record { deployment_map = map (λ i. i.0) w.items; deployment_context = w.context });
      })
      db

unfoldable pub prepare_items : (c : Context) → Experiment → Db → Waiting c × Db
unfolding prepare_all add_executors
prepare_items c experiment db =
    let s = prepare_all c experiment.deployment_map (record { db = db; envs = []; drawn = 0 }) in
    let w : Waiting c = record {
      items = s.0;
      envs = s.1.envs;
      context = experiment.deployment_context;
    } in
    (w, add_executors c (map (λ i. i.0) s.0) (store c w s.1.db))

-- The first part; the identifier of the experiment in `c` is new.
unfoldable pub begin :
    List Preprocessor → (c : Context) → ℕ → String → Experiment → Db → Begun c × Db
unfolding preprocess prepare_items
begin preprocessors c now name experiment db =
    let db' = add_experiment c now name db in
    if any (is_named c.username name) db.experiments
    then (known_name, db)
    else elim (preprocess preprocessors c.experiment_id experiment) [
      | failure e ↦ (
        preprocessor_failed,
        update_experiment c.experiment_id
            (λ r. record r { status = value finished; error = some e }) db',
      )
      | success processed ↦
          let prepared = prepare_items c processed db' in (waiting prepared.0, prepared.1)
    ]

abbrev pub is_requested : (c : Context) → Envs c → CompilationRow → Bool
is_requested c envs r =
    r.experiment_id == c.experiment_id && has_text r.compilation_id (compilation_ids envs)

-- `everything_compiled`, which ends the wait.
unfoldable pub everything_compiled : (c : Context) → Envs c → Db → Bool
everything_compiled c envs db =
    all (λ r. is_some r.status) (keep (is_requested c envs) db.compilations)

-- `compilation_results`: an identifier has at most one row, and a NULL counts as false.
unfoldable pub compilation_result : Context → String → Db → Bool × String
compilation_result c uid db =
    elim (select_one (is_compilation c.experiment_id uid) db.compilations) [
      | none ↦ (false, "Compilation result not found")
      | some r ↦ (or_else r.status false, or_else r.result "None")
    ]

abbrev pub with_result : Bool × String → Deployment → Deployment
with_result result d =
    if result.0
    then record d { prepared = true }
    else record d { prepared = false; error = some result.1 }

-- The last loop, over the deployments that wait; no compilation has an empty identifier.
unfoldable pub settle : (c : Context) → Envs c → Db → Prepared → Prepared
unfolding find compilation_result
settle c envs db (d, false) = (d, false)
settle c envs db (d, true) = elim (find c (c.hash (key d)) envs) [
  | none ↦ (with_result (false, "Compilation result not found") d, true)
  | some uid ↦ (with_result (compilation_result c uid db) d, true)
]

-- The second part. `post` is what the request of the deployment answers: `none`, or the text of
-- an exception.
unfoldable pub finish : Option String → (c : Context) → Waiting c → Db → Db
unfolding settle
finish post c w db =
    let db' = store c (record w { items = map (settle c w.envs db) w.items }) db in
    elim post [
      | none ↦ db'
      | some e ↦
          update_experiment c.experiment_id
            (λ r. record r { status = value finished; error = some e }) db'
    ]
