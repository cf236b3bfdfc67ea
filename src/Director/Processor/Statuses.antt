-- ===== src/Director/Processor/Statuses.antt =====
-- What the updates of the processor do to the status of any experiment.
use netunicorn.Common.{
  ℕ, String, Bool, true, false, Option, none, some, List, [], ◌∷◌, ◌==◌, ◌≡◌, refl, ◌∙◌, arith,
  eq_iff, Option-cases, Bool-cases, inl, inr, lookup,
}
use netunicorn.Base.{Experiment}
use netunicorn.Director.Db.{Db, ExperimentRow, ExecutorRow, select_one, select_one-update_where}
use netunicorn.Director.Mediator.Experiments.{has_id, update_experiment}
use netunicorn.Director.Processor.{
  apply_each, set_error, has_experiment, apply_postprocessors, Stored, stored, too_large, broken,
  collect_executors_results, is_timed_out, time_out, check_each, set_status,
}

abbrev pub status_of : String → Db → Option ℕ
status_of id db = elim (select_one (has_id id) db.experiments) [
  | none ↦ none
  | some r ↦ some r.status
]

-- The status `s` for an experiment that is there.
abbrev pub marked : ℕ → Option ℕ → Option ℕ
marked s none = none
marked s (some old) = some s

pub status_of-update :
    (id : String) (f : ExperimentRow → ExperimentRow) (db : Db)
    → ((r : ExperimentRow) → (f r).experiment_id ≡ r.experiment_id)
    → ((r : ExperimentRow) → (f r).status ≡ r.status)
    → status_of id (update_experiment id f db) ≡ status_of id db
status_of-update id f db he hs = elim (Option-cases (select_one (has_id id) db.experiments)) [
  | inl q ↦ ground (
    arith,
    q,
    select_one-update_where (has_id id) (has_id id) f db.experiments (λ r. ground (arith, he r)),
  )
  | inr (r, q) ↦ ground (
    arith,
    q,
    hs r,
    select_one-update_where (has_id id) (has_id id) f db.experiments (λ r. ground (arith, he r)),
  )
]

pub select_one-holds :
    (p : ExperimentRow → Bool) (rs : List ExperimentRow) (r : ExperimentRow)
    → select_one p rs ≡ some r
    → p r ≡ true
unfolding select_one
select_one-holds p [] r h = cc
select_one-holds p (x ∷ xs) r h = elim (Bool-cases (p x)) [
  | inl q ↦ let e : x ≡ r = ground arith in rw (← e) q
  | inr q ↦ select_one-holds p xs r (ground arith)
]

pub status_of-mark :
    (id : String) (s : ℕ) (f : ExperimentRow → ExperimentRow) (db : Db)
    → ((r : ExperimentRow) → (f r).experiment_id ≡ r.experiment_id)
    → ((r : ExperimentRow) → (f r).status ≡ s)
    → status_of id (update_experiment id f db) ≡ marked s (status_of id db)
status_of-mark id s f db he hs =
    let moved =
      select_one-update_where (has_id id) (has_id id) f db.experiments
        (λ r. ground (arith, he r)) in
    elim (Option-cases (select_one (has_id id) db.experiments)) [
      | inl q ↦ ground (arith, q, moved)
      | inr (r, q) ↦ ground (arith, q, moved, hs r, select_one-holds (has_id id) db.experiments r q)
    ]

pub status_of-set_status :
    (id : String) (s : ℕ) (db : Db) → status_of id (set_status id s db) ≡ marked s (status_of id db)
status_of-set_status id s db =
    status_of-mark id s (λ r. record r { status = s }) db (λ r. refl) (λ r. refl)

-- The status of another experiment stays, and so does any status under an update that keeps it.
pub status_of-update_other :
    (id other : String) (f : ExperimentRow → ExperimentRow) (db : Db)
    → (other == id) ≡ false
    → ((r : ExperimentRow) → (f r).experiment_id ≡ r.experiment_id)
    → status_of other (update_experiment id f db) ≡ status_of other db
status_of-update_other id other f db n he =
    let moved =
      select_one-update_where (has_id other) (has_id id) f db.experiments
        (λ r. ground (arith, he r)) in
    elim (Option-cases (select_one (has_id other) db.experiments)) [
      | inl q ↦ ground (arith, q, moved)
      | inr (r, q) ↦
          let k =
            (eq_iff r.experiment_id other).0 (select_one-holds (has_id other) db.experiments r q) in
          let away : (r.experiment_id == id) ≡ false = rw k n in ground (arith, q, moved, away)
    ]

pub status_of-update_any :
    (id other : String) (f : ExperimentRow → ExperimentRow) (db : Db)
    → ((r : ExperimentRow) → (f r).experiment_id ≡ r.experiment_id)
    → ((r : ExperimentRow) → (f r).status ≡ r.status)
    → status_of other (update_experiment id f db) ≡ status_of other db
status_of-update_any id other f db he hs = elim (Bool-cases (other == id)) [
  | inl q ↦ rw ((eq_iff other id).0 q) (status_of-update id f db he hs)
  | inr q ↦ status_of-update_other id other f db q he
]

module _ (id other : String) where
  other-apply_each :
      (ps : List (Option String)) (db : Db)
      → status_of other (apply_each id ps db) ≡ status_of other db
  unfolding apply_each
  other-apply_each [] db = refl
  other-apply_each (none ∷ ps) db = other-apply_each ps db
  other-apply_each (some e ∷ ps) db =
      other-apply_each ps (set_error id e db)
      ∙ status_of-update_any id other (λ r. record r { error = some e }) db (λ r. refl) (λ r. refl)

  pub other-apply_postprocessors :
      (ps : List (Option String)) (db : Db)
      → status_of other (apply_postprocessors ps id db) ≡ status_of other db
  unfolding apply_postprocessors
  other-apply_postprocessors ps db = elim (Bool-cases (has_experiment id db)) [
    | inl q ↦ rw q (other-apply_each ps db)
    | inr q ↦ rw q refl
  ]

  pub other-collect :
      (answer : Stored) (e : Experiment) (db : Db)
      → status_of other (collect_executors_results answer id e db) ≡ status_of other db
  unfolding collect_executors_results
  other-collect stored e db = status_of-update_any id other _ db (λ r. refl) (λ r. refl)
  other-collect too_large e db = status_of-update_any id other _ db (λ r. refl) (λ r. refl)
  other-collect (broken t) e db = status_of-update_any id other _ db (λ r. refl) (λ r. refl)

  pub other-check_each :
      (now t : ℕ) (minutes : List (String × ℕ)) (rs : List ExecutorRow) (b : Bool) (db : Db)
      (b' : Bool) (db' : Db)
      → check_each now t id minutes rs b db ≡ some (b', db')
      → status_of other db' ≡ status_of other db
  unfolding check_each
  other-check_each now t minutes [] b db b' db' h = ground arith
  other-check_each now t minutes (r ∷ rs) b db b' db' h =
      elim (Option-cases (lookup r.executor_id minutes)) [
        | inl q ↦ ground (arith, q, h)
        | inr (m, q) ↦ elim (Bool-cases (is_timed_out now t m r.keepalive)) [
          | inl g ↦
              other-check_each now t minutes rs b (time_out id r.executor_id db) b' db'
                (ground (arith, q, g, h))
          | inr g ↦ other-check_each now t minutes rs true db b' db' (ground (arith, q, g, h))
        ]
      ]

  pub other-set_status :
      (s : ℕ) (db : Db)
      → (other == id) ≡ false
      → status_of other (set_status id s db) ≡ status_of other db
  other-set_status s db n =
      status_of-update_other id other (λ r. record r { status = s }) db n (λ r. refl)
