-- ===== src/Building.antt =====
-- How a client builds an experiment: `Deployment.__init__` of
-- netunicorn-base/src/netunicorn/base/deployment.py, and `append`, `map` and `__add__` of
-- Experiment in experiment.py beside it, without the contexts of deployments.
pub mod Accepted
use netunicorn.Common.{
  String, Bool, true, false, ◌&&◌, Option, none, some, List, [], ◌∷◌, ◌++◌, any, or_else, update,
  if◌then◌else◌,
}
use netunicorn.Base.{EnvironmentDefinition, Node, Deployment, Contexts, Experiment}
use netunicorn.Director.Mediator.Checks.{same_kind}

-- What is read of an execution graph: its environment, whether `is_execution_graph_valid` lets it
-- pass, and, for a node, the requirements of its dispatched tasks and its serialization.
pub record Submission : Type 0 where
  pub environment_definition : EnvironmentDefinition
  pub is_valid : Bool
  pub requirements : Node → List String
  pub serialized : Node → String

-- `_validate_deployment`
abbrev pub is_deployable : Node → Submission → Bool
is_deployable node graph =
    any (same_kind graph.environment_definition.kind) node.available_environments && graph.is_valid

abbrev pub deployment_of : Node → Submission → Deployment
deployment_of node graph = record {
  node = node;
  prepared = false;
  executor_id = "";
  error = none;
  execution_graph = graph.serialized node;
  environment_definition = record graph.environment_definition {
    commands = graph.environment_definition.commands ++ graph.requirements node;
  };
  keep_alive_timeout_minutes = 10;
  cleanup = true;
}

-- `Deployment(node, pipeline)`; `none` is a ValueError.
unfoldable pub new_deployment : Node → Submission → Option Deployment
new_deployment node graph =
    if is_deployable node graph then some (deployment_of node graph) else none

unfoldable pub append_deployment : Experiment → Node → Submission → Option Experiment
unfolding new_deployment
append_deployment experiment node graph = elim (new_deployment node graph) [
  | none ↦ none
  | some d ↦ some (record experiment { deployment_map = experiment.deployment_map ++ d ∷ [] })
]

-- `map`, over a sequence of nodes; an exception leaves the nodes before it in the experiment, which
-- is not looked at.
unfoldable pub map_nodes : Experiment → Submission → List Node → Option Experiment
unfolding append_deployment
map_nodes experiment graph [] = some experiment
map_nodes experiment graph (x ∷ xs) = elim (append_deployment experiment x graph) [
  | none ↦ none
  | some experiment' ↦ map_nodes experiment' graph xs
]

-- A context that is given updates the one that is there; `prepare_experiment` of the client does the
-- same.
unfoldable pub update_context : Option Contexts → Option Contexts → Option Contexts
unfolding update
update_context context none = context
update_context context (some given) = some (update (or_else context []) given)

-- An empty context counts as none.
abbrev pub given_context : Option Contexts → Option Contexts
given_context (some (entry ∷ entries)) = some (entry ∷ entries)
given_context _ = none

-- `__add__`
unfoldable pub add : Experiment → Experiment → Experiment
unfolding update_context
add experiment other = record {
  deployment_map = experiment.deployment_map ++ other.deployment_map;
  deployment_context =
      update_context experiment.deployment_context (given_context other.deployment_context);
}
