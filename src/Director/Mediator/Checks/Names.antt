-- ===== src/Director/Mediator/Checks/Names.antt =====
-- The names of the executors of an experiment.
use netunicorn.Common.{
  String, Bool, true, false, not, ◌&&◌, ◌||◌, List, [], ◌∷◌, ◌==◌, ◌≡◌, refl, arith, any, all,
  has_text, eq_iff, if◌then◌else◌,
}
use netunicorn.Base.{Deployment, Experiment}
use netunicorn.Director.Outcome.{success, failure}
use netunicorn.Director.Mediator.Checks.{precheck_from, experiment_precheck}

-- No two deployments have the same name, but for the empty one.
abbrev pub has_unique_names : List Deployment → Bool
has_unique_names [] = true
has_unique_names (d ∷ ds) =
    (d.executor_id == "" || not (any (λ x. x.executor_id == d.executor_id) ds))
    && has_unique_names ds

abbrev is_new : List String → Deployment → Bool
is_new names d = d.executor_id == "" || not (has_text d.executor_id names)

all-is_new :
    (name : String) (names : List String) (ds : List Deployment)
    → (name == "") ≡ false
    → all (is_new (name ∷ names)) ds
      ≡ (all (is_new names) ds && not (any (λ x. x.executor_id == name) ds))
all-is_new name names [] h = refl
all-is_new name names (d ∷ ds) h = ground (
  arith,
  all-is_new name names ds,
  eq_iff name "",
  eq_iff d.executor_id "",
  eq_iff d.executor_id name,
  eq_iff name d.executor_id,
)

precheck_from_lem :
    (names : List String) (ds : List Deployment)
    → precheck_from names ds ≡ (
        if has_unique_names ds && all (is_new names) ds
        then success tt
        else failure "non-unique non-empty executor id")
unfolding precheck_from
precheck_from_lem names [] = refl
precheck_from_lem names (d ∷ ds) = ground (
  arith,
  precheck_from_lem names ds,
  precheck_from_lem (d.executor_id ∷ names) ds,
  all-is_new d.executor_id names ds,
)

all_new : (ds : List Deployment) → all (is_new []) ds ≡ true
all_new [] = refl
all_new (d ∷ ds) = ground (arith, all_new ds)

-- The precheck lets an experiment pass exactly if no two of its deployments have the same
-- non-empty executor id, and fails with its message otherwise.
pub experiment_precheck_lem :
    (experiment : Experiment)
    → experiment_precheck experiment ≡ (
        if has_unique_names experiment.deployment_map
        then success tt
        else failure "non-unique non-empty executor id")
unfolding experiment_precheck
experiment_precheck_lem experiment =
    ground
      (arith, precheck_from_lem [] experiment.deployment_map, all_new experiment.deployment_map)
