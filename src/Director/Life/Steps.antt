-- ===== src/Director/Life/Steps.antt =====
-- What the single operations of the services do to the statuses, but for the preparation and the
-- processor.
use netunicorn.Common.{
  ℕ, zero, suc, not, keep, concat, has_text, String, true, Option, none, some, List, [], ◌∷◌, ◌==◌,
  ◌≡◌, refl, arith, eq_refl, eq_iff, or_else, Bool-cases, Option-cases, inl, inr,
}
use netunicorn.Base.{unknown, ready, running, finished, value, from_value, Deployment}
use netunicorn.Director.Outcome.{Outcome, success, failure, Outcome-cases}
use netunicorn.Director.Db.{Db, ExperimentRow, select_one}
use netunicorn.Director.Mediator.Experiments.{
  has_id, is_named, is_busy, update_experiment, get_experiment_id_and_status, start_experiment,
  is_ready_status, post_execution, delete_experiment,
}
use netunicorn.Director.Infrastructure.{
  Answers, record_results, call_each, background_deploy_task, cleanup, is_to_clean_up,
  finish_executor, all_failed,
}
use netunicorn.Director.Processor.Statuses.{status_of, status_of-mark}
use netunicorn.Director.Life.{
  Moves, deployment, deletion, idle, starting, deployed, deleted, launched, refused, IdsAreUnique,
}
use netunicorn.Director.Life.Updates.{
  same_moves, Moves-trans, update_moves, known_moves, kept_moves, status_of-experiments,
}

experiments-record_results :
    (id : String) (results : List (String × Outcome (Unit {0}))) (db : Db)
    → (record_results id results db).experiments ≡ db.experiments
unfolding record_results
experiments-record_results id [] db = refl
experiments-record_results id ((x, success u) ∷ results) db =
    experiments-record_results id results db
experiments-record_results id ((x, failure e) ∷ results) db =
    experiments-record_results id results (finish_executor e id x db)

experiments-call_each :
    (answers : Answers) (id : String) (groups : List (String × List Deployment))
    (connectors : List String) (db : Db)
    → (call_each answers id groups (connectors, db)).0.1.experiments ≡ db.experiments
unfolding call_each
experiments-call_each answers id [] connectors db = refl
experiments-call_each answers id ((name, ds) ∷ groups) connectors db =
    elim (Bool-cases (has_text name connectors)) [
      | inr m ↦ rw (call_each, m) refl
      | inl m ↦ elim (Option-cases (answers name)) [
        | inl q ↦
            let failed = all_failed "Connector raised an exception" ds in
            ground (
              arith,
              m,
              q,
              experiments-call_each answers id groups (keep (λ c. not (c == name)) connectors)
                  (record_results id failed db),
              experiments-record_results id failed db,
            )
        | inr (results, q) ↦ ground (
          arith,
          m,
          q,
          experiments-call_each answers id groups connectors (record_results id results db),
          experiments-record_results id results db,
        )
      ]
    ]

pub deploy_moves :
    (answers : Answers) (x : String) (groups : List (String × List Deployment))
    (connectors : List String) (db : Db) (id : String)
    → Moves deployment
        (status_of id db)
        (status_of id (background_deploy_task answers x groups (connectors, db)).1)
unfolding background_deploy_task
deploy_moves answers x groups connectors db id =
    let db' = (call_each answers x groups (connectors, db)).0.1 in
    let same =
      same_moves
        (status_of-experiments id db db' (experiments-call_each answers x groups connectors db)) in
    elim (Bool-cases (call_each answers x groups (connectors, db)).1) [
      | inl q ↦ rw q (
          Moves-trans same
            (update_moves x id (value ready) _ db' (λ r. refl) (λ r. refl) (λ s. deployed)))
      | inr q ↦ rw q same
    ]

abbrev deleted_row : String → String → String → ExperimentRow → ExperimentRow
deleted_row uuid name username r = record r {
  username = concat "deleted_" username;
  status = value finished;
  experiment_name = concat name (concat "_" uuid);
}

pub delete_moves :
    (uuid name username : String) (db : Db) (id : String)
    → Moves deletion (status_of id db) (status_of id (delete_experiment uuid name username db).1)
unfolding delete_experiment
delete_moves uuid name username db id =
    elim (Outcome-cases (get_experiment_id_and_status name username db)) [
      | inr (e, q) ↦ same_moves (
          status_of-experiments id db (delete_experiment uuid name username db).1
            (ground (arith, q)))
      | inl ((x, status), q) ↦ elim (Bool-cases (is_busy status)) [
        | inl b ↦ same_moves (
            status_of-experiments id db (delete_experiment uuid name username db).1
              (ground (arith, q, b)))
        | inr b ↦
            let e : (delete_experiment uuid name username db).1
                ≡ update_experiment x (deleted_row uuid name username) db =
              ground (arith, q, b) in
            rw e (
              update_moves x id (value finished) (deleted_row uuid name username) db (λ r. refl)
                (λ r. refl) (λ s. deleted))
      ]
    ]

pub cleanup_moves :
    (connectors : List String) (db : Db) (id : String)
    → Moves idle (status_of id db) (status_of id (cleanup connectors db).1)
unfolding cleanup
cleanup_moves connectors db id = elim (Option-cases (select_one is_to_clean_up db.experiments)) [
  | inl q ↦ same_moves (status_of-experiments id db (cleanup connectors db).1 (ground (arith, q)))
  | inr (r, q) ↦
      let e : (cleanup connectors db).1
          ≡ update_experiment r.experiment_id (λ x. record x { cleaned_up = true }) db =
        ground (arith, q) in
      rw e (kept_moves r.experiment_id id _ db (λ r. refl) (λ r. refl))
]

named_status :
    (username name : String) (rs : List ExperimentRow) (r : ExperimentRow)
    → IdsAreUnique rs
    → select_one (is_named username name) rs ≡ some r
    → select_one (has_id r.experiment_id) rs ≡ some r
unfolding select_one
named_status username name [] r u h = cc
named_status username name (x ∷ rs) r u h = elim (Bool-cases (is_named username name x)) [
  | inl q ↦ ground (arith, q, h, eq_refl x.experiment_id)
  | inr q ↦
      let rest = named_status username name rs r u.1 (ground (arith, q, h)) in
      elim (Bool-cases (x.experiment_id == r.experiment_id)) [
        | inl k ↦
            let e = (eq_iff x.experiment_id r.experiment_id).0 k in
            let absent : select_one (has_id r.experiment_id) rs ≡ none = rw e at u.0 in
            ground (arith, absent, rest)
        | inr k ↦ ground (arith, k, rest)
      ]
]

ready_value : (s : ℕ) → is_ready_status (or_else (from_value s) unknown) ≡ true → s ≡ value ready
unfolding from_value
ready_value zero h = cc
ready_value (suc zero) h = cc
ready_value (suc (suc zero)) h = refl
ready_value (suc (suc (suc zero))) h = cc
ready_value (suc (suc (suc (suc zero)))) h = cc
ready_value (suc (suc (suc (suc (suc s))))) h = cc

start_known :
    (post : Option String) (now : ℕ) (name x : String) (db : Db) (id : String)
    → status_of x db ≡ some (value ready)
    → Moves starting (status_of id db) (
        status_of id
          (post_execution post name x (
            update_experiment x
              (λ r. record r { status = value running; start_time = some now })
              db)).1)
start_known none now name x db id k =
    known_moves x id (value ready) (value running) _ db (λ r. refl) (λ r. refl) k launched
start_known (some e) now name x db id k =
    let db' =
      update_experiment x (λ r. record r { status = value running; start_time = some now }) db in
    let k' : status_of x db' ≡ some (value running) = ground (
      arith,
      k,
      status_of-mark x (value running)
          (λ r. record r { status = value running; start_time = some now }) db (λ r. refl)
          (λ r. refl),
    ) in
    Moves-trans
      (known_moves x id (value ready) (value running) _ db (λ r. refl) (λ r. refl) k launched)
      (known_moves x id (value running) (value unknown) _ db' (λ r. refl) (λ r. refl) k' refused)

pub start_moves :
    (now : ℕ) (post : Option String) (name username : String) (db : Db) (id : String)
    → IdsAreUnique db.experiments
    → Moves starting (status_of id db) (status_of id (start_experiment now post name username db).1)
unfolding start_experiment get_experiment_id_and_status from_value
start_moves now post name username db id u =
    elim (Option-cases (select_one (is_named username name) db.experiments)) [
      | inl q ↦ same_moves (
          status_of-experiments id db (start_experiment now post name username db).1
            (ground (arith, q)))
      | inr (r, q) ↦ elim (Bool-cases (is_ready_status (or_else (from_value r.status) unknown))) [
        | inl b ↦
            let n = named_status username name db.experiments r u q in
            let k : status_of r.experiment_id db ≡ some (value ready) =
              ground (arith, n, ready_value r.status b) in
            let e : (start_experiment now post name username db).1
                ≡ (post_execution post name r.experiment_id (
                    update_experiment r.experiment_id
                      (λ r. record r { status = value running; start_time = some now }) db)).1 =
              ground (arith, q, b) in
            rw e (start_known post now name r.experiment_id db id k)
        | inr b ↦ same_moves (
            status_of-experiments id db (start_experiment now post name username db).1
              (ground (arith, q, b)))
      ]
    ]
