-- ===== src/Director/Mediator/Experiments/Listing.antt =====
-- `get_experiments` in engine.py of the mediator: the experiments of a user.
use netunicorn.Common.{
  String, false, ◌&&◌, Option, none, some, List, [], ◌∷◌, ◌==◌, ◌≡◌, refl, sym, ap, ◌∙◌, arith,
  keep, any, is_some, lookup, insert, if◌then◌else◌, eq_iff, Bool-cases, inl, inr,
}
use netunicorn.Director.Outcome.{Outcome, success, failure, Outcome-cases}
use netunicorn.Director.Db.{Db, ExperimentRow, select_one}
use netunicorn.Director.Mediator.Experiments.{
  is_named, ExperimentExecutionInformation, get_experiment_id_and_status, get_experiment_status,
}

-- The loop over the names: a name whose status cannot be read is left out.
unfoldable pub collect_statuses :
    String
    → Db
    → List ExperimentRow
    → List (String × ExperimentExecutionInformation)
    → List (String × ExperimentExecutionInformation)
collect_statuses username db [] results = results
collect_statuses username db (r ∷ rs) results =
    elim (get_experiment_status r.experiment_name username db) [
      | failure e ↦ collect_statuses username db rs results
      | success information ↦
          collect_statuses username db rs (insert r.experiment_name information results)
    ]

unfoldable pub get_experiments : String → Db → List (String × ExperimentExecutionInformation)
unfolding collect_statuses
get_experiments username db =
    collect_statuses username db (keep (λ r. r.username == username) db.experiments) []

pub lookup-insert {ℓ} :
    {V : Type ℓ} (name key : String) (v : V) (entries : List (String × V))
    → lookup name (insert key v entries) ≡ (if key == name then some v else lookup name entries)
unfolding lookup insert
lookup-insert name key v [] = refl
lookup-insert name key v (entry ∷ entries) = ground (
  arith,
  lookup-insert name key v entries,
  eq_iff entry.0 key,
  eq_iff entry.0 name,
  eq_iff key name,
)

abbrev pub answer {ℓ} : {A : Type ℓ} → Outcome A → Option A
answer (failure e) = none
answer (success a) = some a

lookup-collect_statuses :
    (username name : String) (db : Db) (rs : List ExperimentRow)
    (results : List (String × ExperimentExecutionInformation))
    → lookup name (collect_statuses username db rs results) ≡ (
        if any (λ r. r.experiment_name == name) rs
          && is_some (answer (get_experiment_status name username db))
        then answer (get_experiment_status name username db)
        else lookup name results)
unfolding collect_statuses
lookup-collect_statuses username name db [] results = refl
lookup-collect_statuses username name db (r ∷ rs) results =
    elim (Outcome-cases (get_experiment_status r.experiment_name username db)) [
      | inr (e, q) ↦ elim (Bool-cases (r.experiment_name == name)) [
        | inl k ↦
            let n = (eq_iff r.experiment_name name).0 k in
            let f : get_experiment_status name username db ≡ failure e =
              ap (λ x. get_experiment_status x username db) (sym n) ∙ q in
            ground (arith, q, f, k, lookup-collect_statuses username name db rs results)
        | inr k ↦ ground (arith, q, k, lookup-collect_statuses username name db rs results)
      ]
      | inl (information, q) ↦
          let i = lookup-insert name r.experiment_name information results in
          let rest =
            lookup-collect_statuses username name db rs
              (insert r.experiment_name information results) in
          elim (Bool-cases (r.experiment_name == name)) [
            | inl k ↦
                let n = (eq_iff r.experiment_name name).0 k in
                let f : get_experiment_status name username db ≡ success information =
                  ap (λ x. get_experiment_status x username db) (sym n) ∙ q in
                ground (arith, q, f, k, i, rest)
            | inr k ↦ ground (arith, q, k, i, rest)
          ]
    ]

no_experiment :
    (username name : String) (rs : List ExperimentRow)
    → any (λ r. r.experiment_name == name) (keep (λ r. r.username == username) rs) ≡ false
    → select_one (is_named username name) rs ≡ none
unfolding select_one
no_experiment username name [] h = refl
no_experiment username name (r ∷ rs) h =
    ground (arith, h, no_experiment username name rs (ground (arith, h)))

-- Under each name, the list of a user's experiments has exactly what the request for this one
-- experiment answers, and nothing where that request fails.
pub lookup-get_experiments :
    (username name : String) (db : Db)
    → lookup name (get_experiments username db) ≡ answer (get_experiment_status name username db)
unfolding get_experiments get_experiment_status get_experiment_id_and_status lookup
lookup-get_experiments username name db =
    let rows = keep (λ r. r.username == username) db.experiments in
    let e = lookup-collect_statuses username name db rows [] in
    elim (Bool-cases (any (λ r. r.experiment_name == name) rows)) [
      | inl k ↦ elim (Outcome-cases (get_experiment_status name username db)) [
        | inl (information, q) ↦ ground (arith, e, k, q)
        | inr (t, q) ↦ ground (arith, e, k, q)
      ]
      | inr k ↦ ground (arith, e, k, no_experiment username name db.experiments k)
    ]
