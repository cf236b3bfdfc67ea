-- ===== src/Json/Conforming.antt =====
-- The JSON forms have the types that types.py gives them.
use netunicorn.Common.{
  String, Bool, true, Option, none, some, List, [], ◌∷◌, ◌≡◌, refl, arith, all, Option-cases, inl,
  inr,
}
use netunicorn.Base.{
  NodeProperty, no_value, Properties, Node, Contexts, Deployment, Experiment, RuntimeContext,
  BuildContext, EnvironmentKind, docker_image, shell_execution, other_environment,
  EnvironmentDefinition, DeploymentExecutionResult,
}
use netunicorn.Base as base
use netunicorn.Director.Mediator.Experiments.{
  ExecutionResult, nothing, error_text, exception, results, ExperimentExecutionInformation,
}
use netunicorn.Json.{Json, text, Encoding, optional, elements, entries, dict}
use netunicorn.Json.Environments.{
  port_json, is_number, runtime_context_json, build_context_json, environment_json,
}
use netunicorn.Json.Entities.{
  property_json, node_json, deployment_json, contexts_json, experiment_json, non_empty, result_json,
  execution_result_json, information_json,
}
use netunicorn.Json.Shapes.{
  Shape, a_text, a_number, a_list, a_dict, a_null, union, all_elements, all_members, conforms,
  optional_shape, node_property, node_representation, build_context_representation,
  runtime_context_representation, environment_definition_representation, environment_shape,
  deployment_representation, experiment_representation, deployment_execution_result_representation,
  experiment_execution_information_representation,
}

module _ {A : Type 0} (s : Shape) (f : A → Json) (p : A → Bool)
    (ok : (x : A) → p x ≡ true → conforms s (f x) ≡ true) where
  conforms-elements :
      (xs : List A) → all p xs ≡ true → all_elements (conforms s) (elements f xs) ≡ true
  conforms-elements [] h = refl
  conforms-elements (x ∷ xs) h = ground (arith, h, ok x, conforms-elements xs)

  conforms-entries :
      (xs : List (String × A))
      → all (λ entry. p entry.1) xs ≡ true
      → all_members (conforms s) (entries f xs) ≡ true
  conforms-entries [] h = refl
  conforms-entries (x ∷ xs) h = ground (arith, h, ok x.1, conforms-entries xs)

all-always : {A : Type 0} (xs : List A) → all (λ x. true) xs ≡ true
all-always [] = refl
all-always (x ∷ xs) = all-always xs

conforms-texts : (ts : List String) → all_elements (conforms a_text) (elements text ts) ≡ true
unfolding conforms
conforms-texts ts = conforms-elements a_text text (λ t. true) (λ t h. refl) ts (all-always ts)

conforms-dict :
    (es : List (String × String)) → all_members (conforms a_text) (entries text es) ≡ true
unfolding conforms
conforms-dict es = conforms-entries a_text text (λ t. true) (λ t h. refl) es (all-always es)

conforms-optional_text :
    (o : Option String) → conforms (optional_shape a_text) (optional text o) ≡ true
unfolding conforms
conforms-optional_text none = refl
conforms-optional_text (some t) = refl

conforms-property : (x : NodeProperty) → conforms node_property (property_json x) ≡ true
unfolding conforms
conforms-property no_value = refl
conforms-property (base.text t) = refl
conforms-property (base.number n) = refl
conforms-property (base.decimal t) = refl
conforms-property (base.texts ts) = conforms-texts ts
conforms-property (base.text_set ts) = conforms-texts ts

conforms-node : (x : Node) → conforms node_representation (node_json x) ≡ true
unfolding conforms node_json
conforms-node x =
    let ps = λ (ps : Properties).
      conforms-entries node_property property_json (λ p. true) (λ p h. conforms-property p) ps
        (all-always ps) in
    rw (ps x.properties, ps x.additional_properties) refl

conforms-build_context :
    (b : BuildContext) → conforms build_context_representation (build_context_json b) ≡ true
unfolding conforms build_context_json
conforms-build_context b = rw (conforms-optional_text b.cloudpickle_version) refl

-- The numbers of the ports are numbers.
abbrev pub has_number_values : Encoding → RuntimeContext → Bool
has_number_values c r = all (λ entry. is_number c entry.1) r.ports_mapping

conforms-port :
    (c : Encoding) (t : String) → is_number c t ≡ true → conforms a_number (port_json c t) ≡ true
unfolding conforms
conforms-port c t h = elim (Option-cases (c.int_of t)) [
  | inl q ↦ ground (arith, q, h)
  | inr (n, q) ↦ ground (arith, q)
]

conforms-runtime_context :
    (c : Encoding) (r : RuntimeContext)
    → has_number_values c r ≡ true
    → conforms runtime_context_representation (runtime_context_json c r) ≡ true
unfolding conforms runtime_context_json
conforms-runtime_context c r h =
    rw
      (
        conforms-entries a_number (port_json c) (is_number c) (conforms-port c) r.ports_mapping h,
        conforms-dict r.environment_variables,
        conforms-optional_text r.network,
        conforms-texts r.additional_arguments,
      )
      refl

abbrev pub has_number_ports : Encoding → EnvironmentDefinition → Bool
has_number_ports c e = has_number_values c e.runtime_context

-- The form of an environment definition is that of its class, and so it is that of the base class.
conforms-environment :
    (c : Encoding) (e : EnvironmentDefinition)
    → has_number_ports c e ≡ true
    → (conforms (environment_shape e.kind) (environment_json c e) ≡ true)
      × (conforms environment_definition_representation (environment_json c e) ≡ true)
unfolding conforms environment_json
conforms-environment c e h =
    let t = conforms-texts e.commands in
    let r = conforms-runtime_context c e.runtime_context h in
    let b = conforms-build_context e.build_context in
    let i = conforms-optional_text e.image in
    elim e.kind
      as (λ k.
        (conforms (environment_shape k) (environment_json c (record e { kind = k })) ≡ true)
        × (conforms environment_definition_representation
              (environment_json c (record e { kind = k }))
            ≡ true)) [
              | docker_image ↦ rw (t, r, b, i) (refl, refl)
              | shell_execution ↦ rw (t, r) (refl, refl)
              | other_environment k ↦ rw (t, r) (refl, refl)
            ]

abbrev pub has_ports : Encoding → Deployment → Bool
has_ports c d = has_number_ports c d.environment_definition

conforms-deployment :
    (c : Encoding) (d : Deployment)
    → has_ports c d ≡ true
    → conforms deployment_representation (deployment_json c d) ≡ true
unfolding conforms deployment_json
conforms-deployment c d h =
    rw
      (
        conforms-node d.node,
        conforms-optional_text d.error,
        (conforms-environment c d.environment_definition h).1,
      )
      refl

conforms-contexts :
    (o : Option Contexts)
    → conforms (optional_shape (a_dict (a_dict a_text))) (optional contexts_json o) ≡ true
unfolding conforms
conforms-contexts none = refl
conforms-contexts (some contexts) =
    conforms-entries (a_dict a_text) dict (λ x. true) (λ x h. conforms-dict x) contexts
      (all-always contexts)

conforms-experiment :
    (c : Encoding) (e : Experiment)
    → all (has_ports c) e.deployment_map ≡ true
    → conforms experiment_representation (experiment_json c e) ≡ true
unfolding conforms experiment_json
conforms-experiment c e h =
    rw
      (
        conforms-elements deployment_representation (deployment_json c) (has_ports c)
            (conforms-deployment c) e.deployment_map h,
        conforms-contexts e.deployment_context,
      )
      refl

conforms-coded :
    (c : Encoding) (o : Option String)
    → conforms (optional_shape a_text) (optional (λ t. text (c.b64encode t)) o) ≡ true
unfolding conforms
conforms-coded c none = refl
conforms-coded c (some t) = refl

conforms-result :
    (c : Encoding) (r : DeploymentExecutionResult)
    → conforms deployment_execution_result_representation (result_json c r) ≡ true
unfolding conforms result_json
conforms-result c r =
    rw (conforms-node r.node, conforms-coded c (non_empty r.result), conforms-optional_text r.error)
      refl

abbrev result_shape : Shape
result_shape = union a_null (union a_text (a_list deployment_execution_result_representation))

conforms-execution_result :
    (c : Encoding) (r : ExecutionResult) → conforms result_shape (execution_result_json c r) ≡ true
unfolding conforms
conforms-execution_result c nothing = refl
conforms-execution_result c (error_text e) = refl
conforms-execution_result c (exception e) = refl
conforms-execution_result c (results rs) =
    conforms-elements deployment_execution_result_representation (result_json c) (λ r. true)
      (λ r h. conforms-result c r) rs (all-always rs)

-- Every port of the experiment, if there is one, is mapped to a number.
abbrev pub has_ports_in : Encoding → Option Experiment → Bool
has_ports_in c none = true
has_ports_in c (some e) = all (has_ports c) e.deployment_map

conforms-optional_experiment :
    (c : Encoding) (o : Option Experiment)
    → has_ports_in c o ≡ true
    → conforms (optional_shape experiment_representation) (optional (experiment_json c) o) ≡ true
unfolding conforms experiment_json
conforms-optional_experiment c none h = refl
conforms-optional_experiment c (some e) h = conforms-experiment c e h

-- What a user is told of an experiment has the type ExperimentExecutionInformationRepresentation,
-- with the types of all that stands in it, if each port of the experiment is mapped to a number.
pub conforms-information :
    (c : Encoding) (i : ExperimentExecutionInformation)
    → has_ports_in c i.experiment ≡ true
    → conforms experiment_execution_information_representation (information_json c i) ≡ true
unfolding conforms information_json
conforms-information c i h =
    rw
      (
        conforms-optional_experiment c i.experiment h,
        conforms-execution_result c i.execution_result,
      )
      refl
