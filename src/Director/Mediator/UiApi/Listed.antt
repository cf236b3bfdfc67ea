-- ===== src/Director/Mediator/UiApi/Listed.antt =====
-- What the lists of the user interface show to whom.
use netunicorn.Common.{
  ℕ, String, Bool, true, false, ◌&&◌, ◌||◌, some, List, [], ◌∷◌, ◌==◌, ◌≡◌, refl, ◌∙◌, arith, any,
  keep, any-keep, any-any, or_else, if◌then◌else◌, Option-cases, inl, inr,
}
use netunicorn.Base.{from_value}
use netunicorn.Director.Db.{Db, ExperimentRow, LockRow}
use netunicorn.Director.Mediator.UiApi.{
  is_shown, get_locked_nodes, ExperimentLine, experiment_line, experiment_lines, place, order,
  select_experiments, is_recent, get_last_experiments, is_active, get_running_experiments,
  CompilationLine, is_of, join_compilations, get_active_compilations,
}

any-place :
    (p : ExperimentRow → Bool) (r : ExperimentRow) (rs : List ExperimentRow)
    → any p (place r rs) ≡ (p r || any p rs)
unfolding place
any-place p r [] = refl
any-place p r (s ∷ rs) = ground (arith, any-place p r rs)

any-order : (p : ExperimentRow → Bool) (rs : List ExperimentRow) → any p (order rs) ≡ any p rs
unfolding order
any-order p [] = refl
any-order p (r ∷ rs) = ground (arith, any-place p r (order rs), any-order p rs)

any-experiment_lines :
    (p : String → String → Bool) (rs : List ExperimentRow) (lines : List ExperimentLine)
    → experiment_lines rs ≡ some lines
    → any (λ l. p l.username l.experiment_id) lines ≡ any (λ r. p r.username r.experiment_id) rs
unfolding experiment_lines experiment_line
any-experiment_lines p [] lines h = ground (arith, h)
any-experiment_lines p (r ∷ rs) lines h = elim (Option-cases (from_value r.status)) [
  | inl q ↦ ground (arith, q, h)
  | inr (status, q) ↦ elim (Option-cases (experiment_lines rs)) [
    | inl k ↦ ground (arith, q, k, h)
    | inr (rest, k) ↦ ground (arith, q, k, h, any-experiment_lines p rs rest k)
  ]
]

-- An experiment is listed exactly if the condition of the query holds for it, and it is the user's
-- own or the user has sudo.
any-select_experiments :
    (p : String → String → Bool) (q : ExperimentRow → Bool) (sudo : Bool) (username : String)
    (db : Db) (lines : List ExperimentLine)
    → select_experiments q sudo username db ≡ some lines
    → any (λ l. p l.username l.experiment_id) lines
      ≡ any
          (λ r. (q r && is_shown sudo username r.username) && p r.username r.experiment_id)
          db.experiments
unfolding select_experiments
any-select_experiments p q sudo username db lines h =
    let r' : ExperimentRow → Bool = if sudo then q else λ r. q r && r.username == username in
    any-experiment_lines p (order (keep r' db.experiments)) lines h
    ∙ any-order (λ r. p r.username r.experiment_id) (keep r' db.experiments)
    ∙ any-keep (λ (r : ExperimentRow). p r.username r.experiment_id) r' db.experiments
    ∙ any-any (λ r. r' r && p r.username r.experiment_id)
        (λ r. (q r && is_shown sudo username r.username) && p r.username r.experiment_id)
        db.experiments (λ r. ground arith)

any-shown :
    {A : Type 0} (p own : A → Bool) (sudo : Bool) (xs : List A)
    → any p (if sudo then xs else keep own xs) ≡ any (λ x. (sudo || own x) && p x) xs
any-shown p own true xs = refl
any-shown p own false xs = any-keep p own xs

-- Without sudo a user sees exactly the own rows in the four lists, and with sudo all: the locked
-- nodes, the experiments of the last days, those that are PREPARING or RUNNING, both where the
-- statuses can be read, and the compilations that nobody has handled.
pub any-listed :
    (p : String → String → Bool) (now days : ℕ) (sudo : Bool) (username : String) (db : Db)
    (last active : List ExperimentLine)
    → get_last_experiments now days sudo username db ≡ some last
    → get_running_experiments sudo username db ≡ some active
    → (any (λ (l : LockRow). p l.username l.node_name) (get_locked_nodes sudo username db)
        ≡ any
            (λ (l : LockRow). is_shown sudo username l.username && p l.username l.node_name)
            db.locks)
      × (any (λ l. p l.username l.experiment_id) last
          ≡ any
              (λ r.
                (is_recent now days r && is_shown sudo username r.username)
                && p r.username r.experiment_id)
              db.experiments)
      × (any (λ l. p l.username l.experiment_id) active
          ≡ any
              (λ r.
                (is_active r && is_shown sudo username r.username) && p r.username r.experiment_id)
              db.experiments)
      × (any
            (λ l. p (or_else l.username "") l.compilation_id)
            (get_active_compilations sudo username db)
          ≡ any
              (λ l. (sudo || is_of username l) && p (or_else l.username "") l.compilation_id)
              (join_compilations db.experiments db.compilations))
unfolding get_locked_nodes get_last_experiments get_running_experiments get_active_compilations
any-listed p now days sudo username db last active h k = (
  any-shown (λ (l : LockRow). p l.username l.node_name) (λ (l : LockRow). l.username == username)
      sudo db.locks,
  any-select_experiments p (is_recent now days) sudo username db last h,
  any-select_experiments p is_active sudo username db active k,
  any-shown (λ (l : CompilationLine). p (or_else l.username "") l.compilation_id) (is_of username)
      sudo (join_compilations db.experiments db.compilations),
)
