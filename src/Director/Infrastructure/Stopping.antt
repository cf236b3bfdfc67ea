-- ===== src/Director/Infrastructure/Stopping.antt =====
-- What stopping does to the executors.
use netunicorn.Common.{
  String, Bool, true, not, ◌||◌, none, some, List, [], ◌∷◌, ◌==◌, ◌≡◌, refl, arith, any, all,
  eq_iff, Option-cases, inl, inr, map,
}
use netunicorn.Director.Outcome.{Outcome, success, failure}
use netunicorn.Director.Db.{Db, ExecutorRow, update_where}
use netunicorn.Director.Infrastructure.{
  Answers, stop_executor, record_stopped, background_stop_executors_task,
}

-- All rows of the executor say that it is finished.
abbrev pub is_stopped : String → List ExecutorRow → Bool
is_stopped x rs = all (λ r. not (r.executor_id == x) || r.finished) rs

abbrev pub is_named_in : String → List (String × Outcome (Unit {0})) → Bool
is_named_in x results = any (λ (y, o). y == x) results

-- The connector answers for the executor, with whatever result, or raises and was asked to stop it.
abbrev pub answers_for : Answers → String → String × List String → Bool
answers_for answers x (name, xs) = elim (answers name) [
  | some results ↦ is_named_in x results
  | none ↦ any (λ y. y == x) xs
]

stopped-update :
    (reason x y : String) (rs : List ExecutorRow)
    → (is_stopped x rs || y == x) ≡ true
    → is_stopped x (
        update_where
          (λ (r : ExecutorRow). r.executor_id == y)
          (λ r. record r { finished = true; error = some reason })
          rs)
      ≡ true
unfolding update_where
stopped-update reason x y [] h = refl
stopped-update reason x y (r ∷ rs) h = ground (
  arith,
  stopped-update reason x y rs,
  eq_iff y x,
  eq_iff r.executor_id x,
  eq_iff r.executor_id y,
)

stopped-record_stopped :
    (x : String) (results : List (String × Outcome (Unit {0}))) (db : Db)
    → (is_stopped x db.executors || is_named_in x results) ≡ true
    → is_stopped x (record_stopped results db).executors ≡ true
unfolding record_stopped
stopped-record_stopped x [] db h = ground arith
stopped-record_stopped x ((y, success u) ∷ results) db h =
    stopped-record_stopped x results (stop_executor "Executor was stopped" y db)
      (ground (arith, stopped-update "Executor was stopped" x y db.executors))
stopped-record_stopped x ((y, failure reason) ∷ results) db h =
    stopped-record_stopped x results (stop_executor reason y db)
      (ground (arith, stopped-update reason x y db.executors))

named-failures :
    (x reason : String) (ys : List String)
    → is_named_in x (map (λ y. (y, failure reason)) ys) ≡ any (λ y. y == x) ys
named-failures x reason [] = refl
named-failures x reason (y ∷ ys) = ground (arith, named-failures x reason ys)

-- After the background task of stopping, an executor is finished if its connector answers for it,
-- a failure included, if its connector raises, or if it was finished before.
pub stopped-background_stop :
    (answers : Answers) (x : String) (groups : List (String × List String)) (cs : List String)
    (db : Db)
    → (is_stopped x db.executors || any (answers_for answers x) groups) ≡ true
    → is_stopped x (background_stop_executors_task answers groups (cs, db)).1.executors ≡ true
unfolding background_stop_executors_task
stopped-background_stop answers x [] cs db h = ground arith
stopped-background_stop answers x ((name, ys) ∷ groups) cs db h =
    elim (Option-cases (answers name)) [
      | inl q ↦
          let reason : String = "Connector raised an exception" in
          let failures : List (String × Outcome (Unit {0})) = map (λ y. (y, failure reason)) ys in
          rw (q, background_stop_executors_task)
            (stopped-background_stop answers x groups _ (record_stopped failures db) (
              ground
                (arith, q, h, stopped-record_stopped x failures db, named-failures x reason ys)))
      | inr (results, q) ↦
          rw (q, background_stop_executors_task)
            (stopped-background_stop answers x groups cs (record_stopped results db)
              (ground (arith, q, h, stopped-record_stopped x results db)))
    ]
