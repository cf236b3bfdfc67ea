-- ===== src/Director/Processor/Status.antt =====
-- The status of an experiment after a turn of the processor.
use netunicorn.Common.{
  ℕ, Bool, true, false, not, ◌||◌, String, Option, none, some, List, [], ◌∷◌, ◌≡◌, ◌==◌, refl, ◌∙◌,
  ap, arith, any, keep, lookup, if◌then◌else◌, Option-cases, Bool-cases, inl, inr,
}
use netunicorn.Base.{value, unknown, finished, Experiment}
use netunicorn.Director.Db.{Db, ExecutorRow}
use netunicorn.Director.Processor.Statuses.{
  status_of, marked, status_of-set_status, other-apply_postprocessors, other-collect,
  other-check_each, other-set_status,
}
use netunicorn.Director.Processor.{
  apply_postprocessors, Stored, stored, too_large, broken, collect_executors_results, timeouts,
  is_timed_out, time_out, check_each, is_unfinished, has_error, set_status,
  update_experiment_status,
}

-- The executor's timeout is not over.
abbrev pub is_alive : ℕ → ℕ → List (String × ℕ) → ExecutorRow → Bool
is_alive now start_time minutes r = elim (lookup r.executor_id minutes) [
  | none ↦ false
  | some m ↦ not (is_timed_out now start_time m r.keepalive)
]

executors-collect :
    (answer : Stored) (id : String) (e : Experiment) (db : Db)
    → (collect_executors_results answer id e db).executors ≡ db.executors
unfolding collect_executors_results
executors-collect stored id e db = refl
executors-collect too_large id e db = refl
executors-collect (broken t) id e db = refl

check_each_lem :
    (now t : ℕ) (id : String) (minutes : List (String × ℕ)) (rs : List ExecutorRow) (b : Bool)
    (db : Db) (b' : Bool) (db' : Db)
    → check_each now t id minutes rs b db ≡ some (b', db')
    → (b' ≡ (b || any (is_alive now t minutes) rs)) × (status_of id db' ≡ status_of id db)
unfolding check_each
check_each_lem now t id minutes [] b db b' db' h = (ground arith, ground arith)
check_each_lem now t id minutes (r ∷ rs) b db b' db' h =
    elim (Option-cases (lookup r.executor_id minutes)) [
      | inl q ↦ ground (arith, q, h)
      | inr (m, q) ↦ elim (Bool-cases (is_timed_out now t m r.keepalive)) [
        | inl g ↦
            let ih =
              check_each_lem now t id minutes rs b (time_out id r.executor_id db) b' db'
                (ground (arith, q, g, h)) in
            (ground (arith, q, g, ih.0), ih.1)
        | inr g ↦
            let ih = check_each_lem now t id minutes rs true db b' db' (ground (arith, q, g, h)) in
            (ground (arith, q, g, ih.0), ih.1)
      ]
    ]

-- If a turn on an experiment returns, the experiment is UNKNOWN if an error was recorded before,
-- keeps its status while an unfinished executor's timeout is not over, and is FINISHED otherwise;
-- errors of the postprocessors and of the storing of results do not change this.
pub status_of-update_experiment_status :
    (ps : List (Option String)) (first second : Stored) (now : ℕ) (id : String) (e : Experiment)
    (t : ℕ) (db db' : Db)
    → update_experiment_status ps first second now id e t db ≡ some db'
    → status_of id db' ≡ (
        if has_error id db
        then marked (value unknown) (status_of id db)
        else if any
            (is_alive now t (timeouts e.deployment_map []))
            (keep (is_unfinished id) db.executors)
        then status_of id db
        else marked (value finished) (status_of id db))
unfolding update_experiment_status
status_of-update_experiment_status ps first second now id e t db db' h =
    elim (Bool-cases (has_error id db)) [
      | inl q ↦
          let db1 = set_status id (value unknown) db in
          let same : apply_postprocessors ps id db1 ≡ db' = ground (arith, q, h) in
          rw (q, ← same)
            (other-apply_postprocessors id id ps db1 ∙ status_of-set_status id (value unknown) db)
      | inr q ↦
          let db1 = collect_executors_results first id e db in
          let minutes = timeouts e.deployment_map [] in
          let rs = keep (is_unfinished id) db1.executors in
          elim (Option-cases (check_each now t id minutes rs false db1)) [
            | inl c ↦ ground (arith, q, c, h)
            | inr ((alive, db2), c) ↦
                let (found, kept) = check_each_lem now t id minutes rs false db1 alive db2 c in
                let before = kept ∙ other-collect id id first e db in
                let at_db = executors-collect first id e db in
                let found' = rw at_db at found in
                elim (Bool-cases alive) [
                  | inl a ↦
                      let same : db2 ≡ db' = ground (arith, q, c, a, h) in
                      rw (q, ← found', a, ← same) before
                  | inr a ↦
                      let db3 = set_status id (value finished) db2 in
                      let db4 = collect_executors_results second id e db3 in
                      let same : apply_postprocessors ps id db4 ≡ db' =
                        ground (arith, q, c, a, h) in
                      rw (q, ← found', a, ← same)
                        (other-apply_postprocessors id id ps db4
                          ∙ other-collect id id second e db3
                          ∙ status_of-set_status id (value finished) db2
                          ∙ ap (marked (value finished)) before)
                ]
          ]
    ]

-- A turn of the processor on one experiment keeps the status of all others.
pub other-update_experiment_status :
    (id other : String) (ps : List (Option String)) (first second : Stored) (now : ℕ)
    (e : Experiment) (t : ℕ) (db db' : Db)
    → (other == id) ≡ false
    → update_experiment_status ps first second now id e t db ≡ some db'
    → status_of other db' ≡ status_of other db
unfolding update_experiment_status
other-update_experiment_status id other ps first second now e t db db' n h =
    elim (Bool-cases (has_error id db)) [
      | inl q ↦
          let db1 = set_status id (value unknown) db in
          let same : apply_postprocessors ps id db1 ≡ db' = ground (arith, q, h) in
          rw (← same) (
            other-apply_postprocessors id other ps db1
            ∙ other-set_status id other (value unknown) db n)
      | inr q ↦
          let db1 = collect_executors_results first id e db in
          let minutes = timeouts e.deployment_map [] in
          let rs = keep (is_unfinished id) db1.executors in
          elim (Option-cases (check_each now t id minutes rs false db1)) [
            | inl c ↦ ground (arith, q, c, h)
            | inr ((alive, db2), c) ↦
                let before =
                  other-check_each id other now t minutes rs false db1 alive db2 c
                  ∙ other-collect id other first e db in
                elim (Bool-cases alive) [
                  | inl a ↦ let same : db2 ≡ db' = ground (arith, q, c, a, h) in rw (← same) before
                  | inr a ↦
                      let db3 = set_status id (value finished) db2 in
                      let db4 = collect_executors_results second id e db3 in
                      let same : apply_postprocessors ps id db4 ≡ db' =
                        ground (arith, q, c, a, h) in
                      rw (← same) (
                        other-apply_postprocessors id other ps db4
                        ∙ other-collect id other second e db3
                        ∙ other-set_status id other (value finished) db2 n
                        ∙ before)
                ]
          ]
    ]
