-- ===== src/Director/Mediator/Experiments/Lifecycle.antt =====
-- What the operations on an experiment do to its status, as the user sees it.
use Prim.Native.String.{len}
use text.Mathlib.TextPositions.{len-append}
use netunicorn.Common.{
  ℕ, String, Bool, false, Option, none, some, List, [], ◌∷◌, ◌≡◌, refl, ap, arith, ◌==◌, eq_iff,
  eq_refl, if◌then◌else◌, concat, Bool-cases, Option-cases, inl, inr,
}
use netunicorn.Base.{ExperimentStatus, unknown, running, from_value}
use netunicorn.Director.Outcome.{Outcome, success, failure}
use netunicorn.Director.Db.{Db, ExperimentRow, select_one, update_where, select_one-update_where}
use netunicorn.Director.Mediator.Experiments.{
  is_named, has_id, get_experiment_id_and_status, is_busy, update_experiment, delete_experiment,
  is_ready_status, start_experiment,
}

deleted_ne : (u : String) → (concat "deleted_" u == u) ≡ false
deleted_ne u = elim (Bool-cases (concat "deleted_" u == u)) [
  | inl q ↦
      absurd (omega (arith, len-append "deleted_" u, ap len ((eq_iff (concat "deleted_" u) u).0 q)))
  | inr q ↦ q
]

-- UNIQUE (username, experiment_name)
abbrev pub NamesAreUnique : List ExperimentRow → Type 0
NamesAreUnique [] = Unit {0}
NamesAreUnique (r ∷ rs) =
    (select_one (is_named r.username r.experiment_name) rs ≡ none) × NamesAreUnique rs

module _ (u n : String) (f : ExperimentRow → ExperimentRow)
    (away : (r : ExperimentRow) → ((f r).username == u) ≡ false) where
  select_named-none :
      (p : ExperimentRow → Bool) (rs : List ExperimentRow)
      → select_one (is_named u n) rs ≡ none
      → select_one (is_named u n) (update_where p f rs) ≡ none
  unfolding select_one update_where
  select_named-none p [] h = refl
  select_named-none p (r ∷ rs) h = ground (arith, away r, select_named-none p rs)

  select_named-update :
      (rs : List ExperimentRow) (r : ExperimentRow)
      → NamesAreUnique rs
      → select_one (is_named u n) rs ≡ some r
      → select_one (is_named u n) (update_where (has_id r.experiment_id) f rs) ≡ none
  unfolding select_one update_where
  select_named-update [] r k h = cc
  select_named-update (x ∷ xs) r k h = elim (Bool-cases (is_named u n x)) [
    | inl q ↦
        let same : x ≡ r = ground arith in
        let eu : x.username ≡ u = (eq_iff x.username u).0 (ground arith) in
        let en : x.experiment_name ≡ n = (eq_iff x.experiment_name n).0 (ground arith) in
        ground (
          arith,
          away x,
          eq_refl x.experiment_id,
          select_named-none (has_id r.experiment_id) xs (rw (eu, en) at k.0),
        )
    | inr q ↦ ground (arith, away x, select_named-update xs r k.1)
  ]

-- If no user has two experiments of one name, then after a call of `delete_experiment` its user
-- finds the experiment only if it was busy before, and then with its status as it was.
pub get-delete_experiment :
    (uuid name username : String) (db : Db)
    → NamesAreUnique db.experiments
    → get_experiment_id_and_status name username (delete_experiment uuid name username db).1
      ≡ (elim (get_experiment_id_and_status name username db)
          as (λ r. Outcome (String × ExperimentStatus)) [
            | failure e ↦ failure e
            | success (id, status) ↦
                if is_busy status then success (id, status) else failure "not found"
          ])
unfolding delete_experiment get_experiment_id_and_status
get-delete_experiment uuid name username db k =
    elim (Option-cases (select_one (is_named username name) db.experiments)) [
      | inl q ↦ ground (arith, q)
      | inr (r, q) ↦ ground (
        arith,
        q,
        select_named-update username name
            (λ (x : ExperimentRow). record x {
              username = concat "deleted_" username;
              status = 4;
              experiment_name = concat name (concat "_" uuid);
            })
            (λ x. deleted_ne username) db.experiments r k q,
      )
    ]

-- An update of the row with an identifier, seen through the user's and the experiment's name.
get-update_experiment :
    (name username id : String) (f : ExperimentRow → ExperimentRow) (db : Db)
    → ((r : ExperimentRow) → (f r).username ≡ r.username)
    → ((r : ExperimentRow) → (f r).experiment_name ≡ r.experiment_name)
    → select_one (is_named username name) (update_experiment id f db).experiments
      ≡ (elim (select_one (is_named username name) db.experiments) as (λ x. Option ExperimentRow) [
        | none ↦ none
        | some r ↦ some (if has_id id r then f r else r)
      ])
get-update_experiment name username id f db hu hn =
    select_one-update_where (is_named username name) (has_id id) f db.experiments
      (λ r. ground (arith, hu r, hn r))

-- `start_experiment` lets only a READY experiment run: it is RUNNING if the infrastructure accepts
-- the call and UNKNOWN if it does not, and an experiment of any other status keeps its status.
pub get-start_experiment :
    (now : ℕ) (post : Option String) (name username : String) (db : Db)
    → get_experiment_id_and_status name username (start_experiment now post name username db).1
      ≡ (elim (get_experiment_id_and_status name username db)
          as (λ r. Outcome (String × ExperimentStatus)) [
            | failure e ↦ failure e
            | success (id, status) ↦ success (
              id,
              if is_ready_status status
                  then (elim post as (λ x. ExperimentStatus) [ none ↦ running | some e ↦ unknown ])
                  else status,
            )
          ])
unfolding start_experiment get_experiment_id_and_status from_value
get-start_experiment now none name username db =
    elim (Option-cases (select_one (is_named username name) db.experiments)) [
      | inl q ↦ ground (arith, q)
      | inr (r, q) ↦ ground (
        arith,
        q,
        get-update_experiment name username r.experiment_id
            (λ (x : ExperimentRow). record x { status = 3; start_time = some now }) db (λ x. refl)
            (λ x. refl),
        eq_refl r.experiment_id,
      )
    ]
get-start_experiment now (some e) name username db =
    elim (Option-cases (select_one (is_named username name) db.experiments)) [
      | inl q ↦ ground (arith, q)
      | inr (r, q) ↦ ground (
        arith,
        q,
        get-update_experiment name username r.experiment_id
            (λ (x : ExperimentRow). record x { status = 3; start_time = some now }) db (λ x. refl)
            (λ x. refl),
        get-update_experiment name username r.experiment_id
            (λ (x : ExperimentRow). record x { status = 0; error = some e })
            (update_experiment r.experiment_id
              (λ (x : ExperimentRow). record x { status = 3; start_time = some now }) db)
            (λ x. refl) (λ x. refl),
        eq_refl r.experiment_id,
      )
    ]
