-- ===== src/Json/Entities.antt =====
-- The forms of nodes, deployments, experiments and their results: `__json__` and `from_json` in
-- nodes.py, deployment.py and experiment.py.
use netunicorn.Common.{
  String, Bool, true, Option, none, some, [], ◌∷◌, ◌==◌, has_text, if◌then◌else◌,
}
use netunicorn.Base.{
  NodeProperty, no_value, Properties, Node, new_node, Deployment, Contexts, Experiment,
  ExperimentStatus, value, from_value, DeploymentExecutionResult,
}
use netunicorn.Base as base
use netunicorn.Director.Mediator.Experiments.{
  ExecutionResult, nothing, error_text, exception, results, ExperimentExecutionInformation,
}
use netunicorn.Json.{
  Json, null, boolean, number, decimal, text, array, object, no_elements, element, Members, member,
  no_members, Encoding, ◌>>=◌, get, members_of, text_of, boolean_of, number_of, optional,
  optional_of, elements, elements_of, list_of, entries, texts, dict, dict_of,
}
use netunicorn.Json.Environments.{get_or_null, kind_name, environment_json, environment_from}

abbrev pub property_json : NodeProperty → Json
property_json no_value = null
property_json (base.text t) = text t
property_json (base.number n) = number n
property_json (base.decimal t) = decimal t
property_json (base.texts ts) = texts ts
property_json (base.text_set ts) = texts ts

abbrev pub property_from : Json → Option NodeProperty
property_from null = some no_value
property_from (text t) = some (base.text t)
property_from (number n) = some (base.number n)
property_from (decimal t) = some (base.decimal t)
property_from (array js) = elements_of text_of js >>= λ ts. some (base.texts ts)
property_from j = none

unfoldable pub node_json : Node → Json
node_json x = object (
    member "name" (text x.name) (
      member "properties" (object (entries property_json x.properties)) (
        member "additional_properties" (object (entries property_json x.additional_properties))
          (member "architecture" (text x.architecture) no_members))))

-- The values of Architecture of architecture.py.
abbrev pub is_architecture : String → Bool
is_architecture t =
    has_text t ("linux/amd64" ∷ "linux/arm64" ∷ "win/amd64" ∷ "win/arm64" ∷ "unknown" ∷ [])

-- The environments are inferred again; an unknown architecture is a ValueError.
unfoldable pub node_from : Json → Option Node
unfolding new_node
node_from j = members_of j >>= λ data_. get "name" data_ >>= text_of >>= λ name.
    get "properties" data_ >>= dict_of property_from >>= λ properties.
    get "architecture" data_ >>= text_of >>= λ architecture.
    get "additional_properties" data_ >>= dict_of property_from >>= λ additional_properties.
    if is_architecture architecture
    then some (record (new_node name properties architecture) {
      additional_properties = additional_properties;
    })
    else none

unfoldable pub deployment_json : Encoding → Deployment → Json
unfolding node_json environment_json
deployment_json c d = object (
    member "node" (node_json d.node) (
      member "prepared" (boolean d.prepared) (
        member "executor_id" (text d.executor_id) (
          member "error" (optional text d.error) (
            member "execution_graph" (text (c.b64encode d.execution_graph)) (
              member "keep_alive_timeout_minutes" (number d.keep_alive_timeout_minutes) (
                member "cleanup" (boolean d.cleanup) (
                  member "environment_definition" (environment_json c d.environment_definition) (
                    member "environment_definition_type"
                      (text (kind_name d.environment_definition.kind)) no_members)))))))))

-- `… if data[key] else None`: an empty text is none.
abbrev pub non_empty : Option String → Option String
non_empty none = none
non_empty (some t) = if t == "" then none else some t

-- Deployments of older versions have a "pipeline" and no execution graph.
abbrev pub execution_graph_from : Encoding → Members → Option String
execution_graph_from c data_ = elim (get "execution_graph" data_) [
  | some j ↦ text_of j >>= c.b64decode
  | none ↦ elim (get "pipeline" data_) [ none ↦ none | some j ↦ some "" ]
]

abbrev pub cleanup_from : Members → Option Bool
cleanup_from data_ = elim (get "cleanup" data_) [ none ↦ some true | some j ↦ boolean_of j ]

unfoldable pub deployment_from : Encoding → Json → Option Deployment
unfolding node_from environment_from
deployment_from c j = members_of j >>= λ data_. get "node" data_ >>= node_from >>= λ node.
    get "prepared" data_ >>= boolean_of >>= λ prepared.
    get "executor_id" data_ >>= text_of >>= λ executor_id.
    get "error" data_ >>= optional_of text_of >>= λ error.
    get "keep_alive_timeout_minutes" data_ >>= number_of >>= λ keep_alive_timeout_minutes.
    cleanup_from data_ >>= λ cleanup.
    get "environment_definition_type" data_ >>= text_of >>= λ kind.
    get "environment_definition" data_ >>= environment_from c kind >>= λ environment_definition.
    execution_graph_from c data_ >>= λ execution_graph. some (record {
      node = node;
      prepared = prepared;
      executor_id = executor_id;
      error = non_empty error;
      execution_graph = execution_graph;
      environment_definition = environment_definition;
      keep_alive_timeout_minutes = keep_alive_timeout_minutes;
      cleanup = cleanup;
    })

abbrev pub contexts_json : Contexts → Json
contexts_json contexts = object (entries dict contexts)

abbrev pub contexts_from : Json → Option Contexts
contexts_from j = dict_of (dict_of text_of) j

unfoldable pub experiment_json : Encoding → Experiment → Json
unfolding deployment_json
experiment_json c e = object (
    member "deployment_map" (array (elements (deployment_json c) e.deployment_map))
      (member "deployment_context" (optional contexts_json e.deployment_context) no_members))

unfoldable pub experiment_from : Encoding → Json → Option Experiment
unfolding deployment_from
experiment_from c j = members_of j >>= λ data_.
    get "deployment_map" data_ >>= list_of (deployment_from c) >>= λ deployment_map.
    optional_of contexts_from (get_or_null "deployment_context" data_) >>= λ deployment_context.
    some (record { deployment_map = deployment_map; deployment_context = deployment_context })

-- Empty bytes of a result are written as null.
unfoldable pub result_json : Encoding → DeploymentExecutionResult → Json
unfolding node_json
result_json c r = object (
    member "node" (node_json r.node) (
      member "execution_graph" (text (c.b64encode r.serialized_execution_graph)) (
        member "result" (optional (λ t. text (c.b64encode t)) (non_empty r.result))
          (member "error" (optional text r.error) no_members))))

-- `b64decode(data["result"]) if data["result"] else None`
abbrev pub decoded : Encoding → Option String → Option (Option String)
decoded c o = elim (non_empty o) [
  | none ↦ some none
  | some t ↦ c.b64decode t >>= λ b. some (some b)
]

unfoldable pub result_from : Encoding → Json → Option DeploymentExecutionResult
unfolding node_from
result_from c j = members_of j >>= λ data_. execution_graph_from c data_ >>= λ execution_graph.
    get "node" data_ >>= node_from >>= λ node.
    get "result" data_ >>= optional_of text_of >>= decoded c >>= λ result.
    get "error" data_ >>= optional_of text_of >>= λ error. some (record {
      node = node;
      serialized_execution_graph = execution_graph;
      result = result;
      error = error;
    })

abbrev pub execution_result_json : Encoding → ExecutionResult → Json
execution_result_json c nothing = null
execution_result_json c (error_text e) = text e
execution_result_json c (exception e) = text e
execution_result_json c (results rs) = array (elements (result_json c) rs)

-- How UnicornEncoder writes an ExperimentExecutionInformation, which is a dataclass: its fields,
-- with the error as the text that `get_experiment_status` has put there.
unfoldable pub information_json : Encoding → ExperimentExecutionInformation → Json
unfolding experiment_json
information_json c i = object (
    member "status" (number (value i.status)) (
      member "experiment" (optional (experiment_json c) i.experiment)
        (member "execution_result" (execution_result_json c i.execution_result) no_members)))

-- A text is the message of an Exception. An empty text and an empty list are no result.
abbrev pub execution_result_from : Encoding → Json → Option ExecutionResult
execution_result_from c null = some nothing
execution_result_from c (text e) = if e == "" then some nothing else some (exception e)
execution_result_from c (array no_elements) = some nothing
execution_result_from c (array (element j js)) =
    elements_of (result_from c) (element j js) >>= λ rs. some (results rs)
execution_result_from c j = none

unfoldable pub information_from : Encoding → Json → Option ExperimentExecutionInformation
unfolding experiment_from from_value
information_from c j = members_of j >>= λ data_.
    get "status" data_ >>= number_of >>= from_value >>= λ status.
    get "experiment" data_ >>= optional_of (experiment_from c) >>= λ experiment.
    get "execution_result" data_ >>= execution_result_from c >>= λ execution_result.
    some (record { status = status; experiment = experiment; execution_result = execution_result })
