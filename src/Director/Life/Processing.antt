-- ===== src/Director/Life/Processing.antt =====
-- What a turn of the processor does to the statuses.
use netunicorn.Common.{
  ℕ, String, Bool, false, Option, none, some, List, [], ◌∷◌, ◌==◌, ◌≡◌, refl, ◌∙◌, arith, any, keep,
  eq_refl, eq_iff, Bool-cases, Option-cases, inl, inr,
}
use netunicorn.Base.{unknown, running, finished, value, Experiment}
use netunicorn.Director.Db.{Db, ExperimentRow, select_one}
use netunicorn.Director.Mediator.Experiments.{has_id}
use netunicorn.Director.Processor.{
  Stored, update_experiment_status, is_unfinished, timeouts, has_error,
}
use netunicorn.Director.Processor.Statuses.{status_of}
use netunicorn.Director.Processor.Status.{
  is_alive, status_of-update_experiment_status, other-update_experiment_status,
}
use netunicorn.Director.Processor.Turns.{Replies, process_each, is_running, update_experiments}
use netunicorn.Director.Life.{Moves, processing, here, next, lost, collected, IdsAreUnique}
use netunicorn.Director.Life.Updates.{same_moves, Moves-trans}

process_moves :
    (ps : List (Option String)) (first second : Stored) (now : ℕ) (x : String) (e : Experiment)
    (t : ℕ) (db db' : Db) (id : String)
    → status_of x db ≡ some (value running)
    → update_experiment_status ps first second now x e t db ≡ some db'
    → Moves processing (status_of id db) (status_of id db')
process_moves ps first second now x e t db db' id k h = elim (Bool-cases (id == x)) [
  | inr q ↦ same_moves (other-update_experiment_status x id ps first second now e t db db' q h)
  | inl q ↦
      let s = status_of-update_experiment_status ps first second now x e t db db' h in
      let at_x = (eq_iff id x).0 q in
      elim (Bool-cases (has_error x db)) [
        | inl a ↦
            let n : status_of x db' ≡ some (value unknown) = ground (arith, s, k, a) in
            rw (at_x, k, n) (next lost here)
        | inr a ↦
            elim (Bool-cases (
              any (is_alive now t (timeouts e.deployment_map []))
                (keep (is_unfinished x) db.executors))) [
                  | inl b ↦
                      let n : status_of x db' ≡ some (value running) = ground (arith, s, k, a, b) in
                      rw (at_x, k, n) here
                  | inr b ↦
                      let n : status_of x db' ≡ some (value finished) =
                        ground (arith, s, k, a, b) in
                      rw (at_x, k, n) (next collected here)
                ]
      ]
]

abbrev AreRunning : Db → List ExperimentRow → Type 0
AreRunning db [] = Unit {0}
AreRunning db (r ∷ rs) = (status_of r.experiment_id db ≡ some (value running)) × AreRunning db rs

-- A change that only one identifier can notice.
AreRunning-other :
    (id : String) (db db' : Db) (rs : List ExperimentRow)
    → ((other : String) → (other == id) ≡ false → status_of other db' ≡ status_of other db)
    → select_one (has_id id) rs ≡ none
    → AreRunning db rs
    → AreRunning db' rs
unfolding select_one
AreRunning-other id db db' [] same h k = tt
AreRunning-other id db db' (r ∷ rs) same h k = elim (Bool-cases (r.experiment_id == id)) [
  | inl q ↦ ground (arith, q, h)
  | inr q ↦
      (same r.experiment_id q ∙ k.0, AreRunning-other id db db' rs same (ground (arith, q, h)) k.1)
]

process_each_moves :
    (replies : Replies) (now : ℕ) (rs : List ExperimentRow) (db db' : Db) (id : String)
    → IdsAreUnique rs
    → AreRunning db rs
    → process_each replies now rs db ≡ some db'
    → Moves processing (status_of id db) (status_of id db')
unfolding process_each
process_each_moves replies now [] db db' id u k h =
    let e : db ≡ db' = ground (arith, h) in rw (← e) here
process_each_moves replies now (r ∷ rs) db db' id u k h = elim (Option-cases r.data_) [
  | inl q ↦ ground (arith, q, h)
  | inr (e, q) ↦ elim (Option-cases r.start_time) [
    | inl p ↦ ground (arith, q, p, h)
    | inr (t, p) ↦
        let x = r.experiment_id in
        let ps = replies.postprocessors x in
        let one = update_experiment_status ps (replies.first x) (replies.second x) now x e t db in
        elim (Option-cases one) [
          | inl o ↦ ground (arith, q, p, o, h)
          | inr (db1, o) ↦
              let first =
                process_moves ps (replies.first x) (replies.second x) now x e t db db1 id k.0 o in
              let same : (other : String)
                  → (other == x) ≡ false
                  → status_of other db1 ≡ status_of other db =
                λ other n.
                  other-update_experiment_status x other ps (replies.first x) (replies.second x) now
                    e t db db1 n o in
              let k' = AreRunning-other x db db1 rs same u.0 k.1 in
              Moves-trans first
                (process_each_moves replies now rs db1 db' id u.1 k' (ground (arith, q, p, o, h)))
        ]
  ]
]

select_one-keep :
    (p q : ExperimentRow → Bool) (rs : List ExperimentRow)
    → select_one p rs ≡ none
    → select_one p (keep q rs) ≡ none
unfolding select_one
select_one-keep p q [] h = refl
select_one-keep p q (r ∷ rs) h = ground (arith, h, select_one-keep p q rs (ground (arith, h)))

IdsAreUnique-keep :
    (q : ExperimentRow → Bool) (rs : List ExperimentRow)
    → IdsAreUnique rs
    → IdsAreUnique (keep q rs)
IdsAreUnique-keep q [] u = tt
IdsAreUnique-keep q (r ∷ rs) u = elim (Bool-cases (q r)) [
  | inl e ↦ rw e (select_one-keep (has_id r.experiment_id) q rs u.0, IdsAreUnique-keep q rs u.1)
  | inr e ↦ rw e (IdsAreUnique-keep q rs u.1)
]

select_one-later :
    (r : ExperimentRow) (rs : List ExperimentRow)
    → select_one (has_id r.experiment_id) rs ≡ none
    → (id : String) (x : ExperimentRow) → select_one (has_id id) rs ≡ some x
    → select_one (has_id id) (r ∷ rs) ≡ some x
unfolding select_one
select_one-later r rs n id x h = elim (Bool-cases (r.experiment_id == id)) [
  | inl q ↦
      let e = (eq_iff r.experiment_id id).0 q in
      let absent : select_one (has_id id) rs ≡ none = rw e at n in ground (arith, absent, h)
  | inr q ↦ ground (arith, q, h)
]

-- The rows that the processor fetches are those of RUNNING experiments, also by their identifier.
keep-AreRunning :
    (db : Db) (rs : List ExperimentRow)
    → ((id : String) (r : ExperimentRow)
        → select_one (has_id id) rs ≡ some r
        → select_one (has_id id) db.experiments ≡ some r)
    → IdsAreUnique rs
    → AreRunning db (keep is_running rs)
unfolding select_one
keep-AreRunning db [] found u = tt
keep-AreRunning db (r ∷ rs) found u =
    let rest = keep-AreRunning db rs (λ i x h. found i x (select_one-later r rs u.0 i x h)) u.1 in
    elim (Bool-cases (is_running r)) [
      | inl q ↦
          let f = found r.experiment_id r (ground (arith, eq_refl r.experiment_id)) in
          rw q (ground (arith, f, q), rest)
      | inr q ↦ rw q rest
    ]

-- Every turn of the processor that returns moves the statuses along the diagram.
pub update_experiments_moves :
    (replies : Replies) (now : ℕ) (db db' : Db) (id : String)
    → IdsAreUnique db.experiments
    → update_experiments replies now db ≡ some db'
    → Moves processing (status_of id db) (status_of id db')
unfolding update_experiments
update_experiments_moves replies now db db' id u h =
    process_each_moves replies now (keep is_running db.experiments) db db' id
      (IdsAreUnique-keep is_running db.experiments u)
      (keep-AreRunning db db.experiments (λ i r e. e) u) h
