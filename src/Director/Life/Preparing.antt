-- ===== src/Director/Life/Preparing.antt =====
-- What the preparation of an experiment does to the statuses.
use netunicorn.Common.{
  ℕ, String, Option, none, some, List, [], ◌∷◌, ◌==◌, ◌≡◌, refl, ◌∙◌, arith, map, any, eq_refl,
  eq_iff, Bool-cases, Option-cases, inl, inr,
}
use netunicorn.Base.{value, preparing, finished, Deployment, Experiment}
use netunicorn.Director.Outcome.{Outcome-cases}
use netunicorn.Director.Db.{Db, select_one}
use netunicorn.Director.Mediator.Experiments.{has_id, is_named}
use netunicorn.Director.Mediator.Preparation.{
  Context, Preparing, set_variable, prepare_all, prepare_deployment, add_executor,
}
use netunicorn.Director.Mediator.Preparation.Refused.{prepare_deployment-Keeps}
use netunicorn.Director.Mediator.Preparation.Task.{
  Preprocessor, Waiting, preprocess, add_executors, add_experiment, new_experiment, store,
  prepare_items, begin, settle, finish,
}
use netunicorn.Director.Processor.Statuses.{status_of}
use netunicorn.Director.Life.{Moves, preparation, here, next, created, aborted}
use netunicorn.Director.Life.Updates.{
  same_moves, Moves-trans, update_moves, kept_moves, status_of-experiments, select_one-upsert_new,
  select_one-upsert_other,
}

experiments-prepare_all :
    (c : Context) (ds : List Deployment) (s : Preparing c)
    → (prepare_all c ds s).1.db.experiments ≡ s.db.experiments
unfolding prepare_all
experiments-prepare_all c [] s = refl
experiments-prepare_all c (d ∷ ds) s =
    let d' = set_variable "NETUNICORN_EXPERIMENT_ID" c.experiment_id d in
    experiments-prepare_all c ds (prepare_deployment c d' s).1 ∙ (prepare_deployment-Keeps c d' s).1

experiments-add_executors :
    (c : Context) (ds : List Deployment) (db : Db)
    → (add_executors c ds db).experiments ≡ db.experiments
unfolding add_executors add_executor
experiments-add_executors c [] db = refl
experiments-add_executors c (d ∷ ds) db = experiments-add_executors c ds (add_executor c none d db)

prepare_items_moves :
    (c : Context) (experiment : Experiment) (db : Db) (id : String)
    → Moves preparation (status_of id db) (status_of id (prepare_items c experiment db).1)
unfolding prepare_items
prepare_items_moves c experiment db id =
    let s = prepare_all c experiment.deployment_map (record { db = db; envs = []; drawn = 0 }) in
    let db' =
      store c (record { items = s.0; envs = s.1.envs; context = experiment.deployment_context })
        s.1.db in
    let first = same_moves (
      status_of-experiments id db s.1.db (experiments-prepare_all c experiment.deployment_map _)) in
    let second = kept_moves c.experiment_id id _ s.1.db (λ r. refl) (λ r. refl) in
    let third = same_moves (
      status_of-experiments id db' (add_executors c (map (λ i. i.0) s.0) db')
        (experiments-add_executors c (map (λ i. i.0) s.0) db')) in
    Moves-trans first (Moves-trans second third)

add_experiment_moves :
    (c : Context) (now : ℕ) (name : String) (db : Db) (id : String)
    → status_of c.experiment_id db ≡ none
    → Moves preparation (status_of id db) (status_of id (add_experiment c now name db))
add_experiment_moves c now name db id h = elim (Bool-cases (id == c.experiment_id)) [
  | inl q ↦
      let e = (eq_iff id c.experiment_id).0 q in
      let absent : select_one (has_id c.experiment_id) db.experiments ≡ none =
        elim (Option-cases (select_one (has_id c.experiment_id) db.experiments)) [
          | inl n ↦ n
          | inr (r, n) ↦ ground (arith, h, n)
        ] in
      let found =
        select_one-upsert_new (has_id c.experiment_id) (new_experiment c now name) db.experiments
          absent (eq_refl c.experiment_id) in
      let stored : status_of c.experiment_id (add_experiment c now name db)
          ≡ some (value preparing) =
        ground (arith, found) in
      rw (e, h, stored) (next created here)
  | inr q ↦
      let kept =
        select_one-upsert_other (has_id id) (has_id c.experiment_id) (new_experiment c now name)
          db.experiments
          (ground (arith, q, eq_iff id c.experiment_id, eq_iff c.experiment_id id)) in
      same_moves (ground (arith, kept))
]

pub begin_moves :
    (ps : List Preprocessor) (c : Context) (now : ℕ) (name : String) (experiment : Experiment)
    (db : Db) (id : String)
    → status_of c.experiment_id db ≡ none
    → Moves preparation (status_of id db) (status_of id (begin ps c now name experiment db).1)
unfolding begin
begin_moves ps c now name experiment db id h =
    let db' = add_experiment c now name db in
    let added = add_experiment_moves c now name db id h in
    elim (Bool-cases (any (is_named c.username name) db.experiments)) [
      | inl q ↦ rw q here
      | inr q ↦ elim (Outcome-cases (preprocess ps c.experiment_id experiment)) [
        | inr (e, p) ↦
            rw (q, p)
              (Moves-trans added (
                update_moves c.experiment_id id (value finished) _ db' (λ r. refl) (λ r. refl)
                  (λ s. aborted)))
        | inl (processed, p) ↦
            rw (q, p) (Moves-trans added (prepare_items_moves c processed db' id))
      ]
    ]

pub finish_moves :
    (post : Option String) (c : Context) (w : Waiting c) (db : Db) (id : String)
    → Moves preparation (status_of id db) (status_of id (finish post c w db))
unfolding finish
finish_moves none c w db id = kept_moves c.experiment_id id _ db (λ r. refl) (λ r. refl)
finish_moves (some e) c w db id =
    Moves-trans (kept_moves c.experiment_id id _ db (λ r. refl) (λ r. refl)) (
      update_moves c.experiment_id id (value finished) _
        (store c (record w { items = map (settle c w.envs db) w.items }) db) (λ r. refl) (λ r. refl)
        (λ s. aborted))
