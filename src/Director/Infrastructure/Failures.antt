-- ===== src/Director/Infrastructure/Failures.antt =====
-- What the failures of connectors do to the executors.
use netunicorn.Common.{
  String, Bool, true, false, not, ◌&&◌, ◌||◌, none, some, List, [], ◌∷◌, ◌==◌, ◌≡◌, refl, arith,
  any, all, keep, has_text, nat_eq, eq_iff, Option-cases, inl, inr,
}
use netunicorn.Base.{Deployment, ready, value}
use netunicorn.Director.Outcome.{Outcome, success, failure}
use netunicorn.Director.Db.{Db, ExperimentRow, ExecutorRow, update_where}
use netunicorn.Director.Mediator.Experiments.{has_id}
use netunicorn.Director.Infrastructure.{
  Answers, is_available, finish_executor, record_results, all_failed, call_each,
  background_deploy_task, background_execute_task,
}

-- The executor's row, if there is one, says that it is finished.
abbrev pub is_over : String → String → List ExecutorRow → Bool
is_over id x rs = all (λ r. not (r.experiment_id == id && r.executor_id == x) || r.finished) rs

abbrev pub is_failure : String → String × Outcome (Unit {0}) → Bool
is_failure x (y, success u) = false
is_failure x (y, failure reason) = y == x

-- The connector reports a failure of the executor, or raises and was asked to handle it.
abbrev pub fails : Answers → String → String × List Deployment → Bool
fails answers x (name, ds) = elim (answers name) [
  | some results ↦ any (is_failure x) results
  | none ↦ any (λ d. d.executor_id == x) ds
]

over-finish :
    (reason id x y : String) (rs : List ExecutorRow)
    → (is_over id x rs || x == y) ≡ true
    → is_over id x (
        update_where
          (λ (r : ExecutorRow). r.experiment_id == id && r.executor_id == y)
          (λ r. record r { finished = true; error = some reason })
          rs)
      ≡ true
unfolding update_where
over-finish reason id x y [] h = refl
over-finish reason id x y (r ∷ rs) h = ground (
  arith,
  over-finish reason id x y rs,
  eq_iff x y,
  eq_iff r.executor_id x,
  eq_iff r.executor_id y,
)

over-record_results :
    (id x : String) (results : List (String × Outcome (Unit {0}))) (db : Db)
    → (is_over id x db.executors || any (is_failure x) results) ≡ true
    → is_over id x (record_results id results db).executors ≡ true
unfolding record_results
over-record_results id x [] db h = ground arith
over-record_results id x ((y, success u) ∷ results) db h = over-record_results id x results db h
over-record_results id x ((y, failure reason) ∷ results) db h =
    over-record_results id x results (finish_executor reason id y db)
      (ground (arith, over-finish reason id x y db.executors, eq_iff x y, eq_iff y x))

any-all_failed :
    (reason x : String) (ds : List Deployment)
    → any (is_failure x) (all_failed reason ds) ≡ any (λ d. d.executor_id == x) ds
any-all_failed reason x [] = refl
any-all_failed reason x (d ∷ ds) = ground (arith, any-all_failed reason x ds)

has_text-keep :
    (name m : String) (cs : List String)
    → (m == name) ≡ false
    → has_text m (keep (λ c. not (c == name)) cs) ≡ has_text m cs
has_text-keep name m [] h = refl
has_text-keep name m (c ∷ cs) h =
    ground
      (arith, h, has_text-keep name m cs h, eq_iff c name, eq_iff m name, eq_iff c m, eq_iff m c)

all-ready :
    (id : String) (rs : List ExperimentRow)
    → all
        (λ r. not (has_id id r) || nat_eq r.status (value ready))
        (update_where (has_id id) (λ r. record r { status = value ready }) rs)
      ≡ true
unfolding update_where
all-ready id [] = refl
all-ready id (r ∷ rs) = ground (arith, all-ready id rs)

-- The names are different, as the keys of a dictionary are.
abbrev pub distinct_names : List (String × List Deployment) → Bool
distinct_names [] = true
distinct_names ((name, ds) ∷ groups) =
    not (any (λ (m, es). m == name) groups) && distinct_names groups

-- A connector that is taken off is none of those that are still to be called.
still_available :
    (name : String) (cs : List String) (groups : List (String × List Deployment))
    → all (is_available cs) groups ≡ true
    → any (λ (m, es). m == name) groups ≡ false
    → all (is_available (keep (λ c. not (c == name)) cs)) groups ≡ true
still_available name cs [] h n = refl
still_available name cs ((m, ds) ∷ groups) h n = ground (
  arith,
  still_available name cs groups (ground (arith, h)) (ground (arith, n)),
  has_text-keep name m cs (ground (arith, n)),
  h,
)

over-call_each :
    (answers : Answers) (id x : String) (groups : List (String × List Deployment))
    (cs : List String) (db : Db)
    → all (is_available cs) groups ≡ true
    → distinct_names groups ≡ true
    → (is_over id x db.executors || any (fails answers x) groups) ≡ true
    → ((call_each answers id groups (cs, db)).1 ≡ true)
      × (is_over id x (call_each answers id groups (cs, db)).0.1.executors ≡ true)
unfolding call_each
over-call_each answers id x [] cs db a d h = (refl, ground arith)
over-call_each answers id x ((name, ds) ∷ groups) cs db a d h =
    let here : has_text name cs ≡ true = ground (arith, a) in
    let rest : all (is_available cs) groups ≡ true = ground (arith, a) in
    let others : distinct_names groups ≡ true = ground (arith, d) in
    elim (Option-cases (answers name)) [
      | inl q ↦
          let reason : String = "Connector raised an exception" in
          let db' = record_results id (all_failed reason ds) db in
          rw (call_each, here, q)
            (over-call_each answers id x groups _ db'
              (still_available name cs groups rest (ground (arith, d))) others
              (ground (
                arith,
                q,
                h,
                over-record_results id x (all_failed reason ds) db,
                any-all_failed reason x ds,
              )))
      | inr (results, q) ↦
          rw (call_each, here, q)
            (over-call_each answers id x groups cs (record_results id results db) rest others
              (ground (arith, q, h, over-record_results id x results db)))
    ]

-- If the connectors of the groups are different and all there when the task begins, then the task of
-- the deployment sets the experiment READY, and in both tasks an executor is finished in the end if
-- a connector reports its failure, if its connector raises, or if it was finished before.
pub over-background_tasks :
    (answers : Answers) (id x : String) (groups : List (String × List Deployment))
    (cs : List String) (db : Db)
    → all (is_available cs) groups ≡ true
    → distinct_names groups ≡ true
    → (is_over id x db.executors || any (fails answers x) groups) ≡ true
    → (all
          (λ r. not (has_id id r) || nat_eq r.status (value ready))
          (background_deploy_task answers id groups (cs, db)).1.experiments
        ≡ true)
      × (is_over id x (background_deploy_task answers id groups (cs, db)).1.executors ≡ true)
      × (is_over id x (background_execute_task answers id groups (cs, db)).1.executors ≡ true)
unfolding background_deploy_task background_execute_task
over-background_tasks answers id x groups cs db a d h =
    let (done, over) = over-call_each answers id x groups cs db a d h in
    let after = (call_each answers id groups (cs, db)).0.1 in
    (rw done (all-ready id after.experiments), rw done over, over)
