-- ===== src/Director/Mediator/Checks.antt =====
-- The checks that a new experiment must pass, in engine.py of the mediator.
pub mod Names
use netunicorn.Common.{
  String, Bool, not, Option, none, some, true, false, ◌&&◌, ◌||◌, List, [], ◌∷◌, ◌==◌, all, any,
  has_text, if◌then◌else◌,
}
use netunicorn.Base.{
  EnvironmentKind, docker_image, shell_execution, other_environment, Deployment, Experiment,
}
use netunicorn.Director.Outcome.{Outcome, success, failure, ◌>>=◌}

-- `type(a) == type(b)` for environment definitions.
abbrev pub same_kind : EnvironmentKind → EnvironmentKind → Bool
same_kind docker_image docker_image = true
same_kind shell_execution shell_execution = true
same_kind (other_environment a) (other_environment b) = a == b
same_kind _ _ = false

abbrev pub has_arguments : Deployment → Bool
has_arguments d = elim d.environment_definition.runtime_context.additional_arguments [
  | [] ↦ false
  | a ∷ as_ ↦ true
]

abbrev pub is_known_kind : EnvironmentKind → Bool
is_known_kind (other_environment a) = false
is_known_kind _ = true

-- `sudo_user` is the answer of `verify_sudo`.
unfoldable pub check_sudo_access : Bool → Experiment → Outcome (Unit {0})
check_sudo_access sudo_user experiment =
    if sudo_user
    then success tt
    else if any (λ d. is_known_kind d.environment_definition.kind && has_arguments d)
        experiment.deployment_map
    then failure "not allowed to use additional arguments"
    else success tt

-- The loop over the executor names: a name that was seen before ends it.
pub precheck_from : List String → List Deployment → Outcome (Unit {0})
precheck_from names [] = success tt
precheck_from names (d ∷ ds) =
    let rest = precheck_from (d.executor_id ∷ names) ds in
    let skipped = precheck_from names ds in
    if d.executor_id == ""
    then skipped
    else if has_text d.executor_id names
    then failure "non-unique non-empty executor id"
    else rest

unfoldable pub experiment_precheck : Experiment → Outcome (Unit {0})
unfolding precheck_from
experiment_precheck experiment = precheck_from [] experiment.deployment_map

unfoldable pub check_environments : Experiment → Outcome (Unit {0})
check_environments experiment =
    if all (λ d. any (same_kind d.environment_definition.kind) d.node.available_environments)
      experiment.deployment_map
    then success tt
    else failure "environment is not available"

-- `check_ports_types`; `is_int` tells the values that `int` takes.
abbrev pub has_ports : (String → Bool) → Deployment → Bool
has_ports is_int d =
    all (λ entry. is_int entry.0 && is_int entry.1)
      d.environment_definition.runtime_context.ports_mapping

-- `check_env_values`; `has_space` is `" " in …`.
abbrev pub has_plain_values : (String → Bool) → Deployment → Bool
has_plain_values has_space d =
    all (λ entry. not (has_space entry.0) && not (has_space entry.1))
      d.environment_definition.runtime_context.environment_variables

-- A network without a name counts as none, and has no space.
abbrev pub has_plain_network : (String → Bool) → Deployment → Bool
has_plain_network has_space d = elim d.environment_definition.runtime_context.network [
  | none ↦ true
  | some network ↦ network == "" || not (has_space network)
]

abbrev pub check_deployment : (String → Bool) → (String → Bool) → Deployment → Outcome (Unit {0})
check_deployment is_int has_space d = elim d.environment_definition.kind [
  | docker_image ↦
      if not (has_ports is_int d)
      then failure "Ports mapping in runtime context must be a dict of int to int"
      else if not (has_plain_values has_space d)
      then failure "Environment variables in runtime context must not contain spaces"
      else if not (has_plain_network has_space d)
      then failure "Network name in runtime context must not contain spaces"
      else success tt
  | shell_execution ↦
      if has_plain_values has_space d
      then success tt
      else failure "Environment variables in runtime context must not contain spaces"
  | other_environment k ↦ success tt
]

abbrev check_deployments : (String → Bool) → (String → Bool) → List Deployment → Outcome (Unit {0})
check_deployments is_int has_space [] = success tt
check_deployments is_int has_space (d ∷ ds) =
    check_deployment is_int has_space d >>= λ u. check_deployments is_int has_space ds

unfoldable pub check_runtime_context :
    (String → Bool) → (String → Bool) → Experiment → Outcome (Unit {0})
check_runtime_context is_int has_space experiment =
    check_deployments is_int has_space experiment.deployment_map
