-- ===== src/Base.antt =====
-- The entities of netunicorn-base/src/netunicorn/base that the director's services share.
use netunicorn.Common.{
  ◌||◌, ℕ, zero, suc, String, Bool, Option, none, some, List, [], ◌∷◌, ◌++◌, ◌==◌, lookup, letters,
  nat_eq, if◌then◌else◌,
}

-- ExperimentStatus of experiment.py and its values.
pub data ExperimentStatus : Type 0 where
  unknown preparing ready running finished : ExperimentStatus

abbrev pub value : ExperimentStatus → ℕ
value unknown = 0
value preparing = 1
value ready = 2
value running = 3
value finished = 4

-- `ExperimentStatus(value)`; `none` is a ValueError.
unfoldable pub from_value : ℕ → Option ExperimentStatus
from_value zero = some unknown
from_value (suc zero) = some preparing
from_value (suc (suc zero)) = some ready
from_value (suc (suc (suc zero))) = some running
from_value (suc (suc (suc (suc zero)))) = some finished
from_value _ = none

-- RuntimeContext of environment_definitions.py. The two numbers of a port mapping stand as texts,
-- since a request may hold others.
pub record RuntimeContext : Type 0 where
  pub ports_mapping : List (String × String)
  pub environment_variables : List (String × String)
  pub network : Option String
  pub additional_arguments : List String

-- BuildContext of environment_definitions.py.
pub record BuildContext : Type 0 where
  pub python_version : String
  pub cloudpickle_version : Option String

-- The type of an environment definition: the two that are known, or another subclass.
pub data EnvironmentKind : Type 0 where
  docker_image shell_execution : EnvironmentKind
  other_environment : String → EnvironmentKind

-- An environment definition; `image` and `build_context` are those of a DockerImage.
pub record EnvironmentDefinition : Type 0 where
  pub kind : EnvironmentKind
  pub commands : List String
  pub image : Option String
  pub build_context : BuildContext
  pub runtime_context : RuntimeContext

-- NodeProperty of types.py. A set of texts stands in the order in which Python iterates over it, and
-- `texts` is the list that a set becomes in JSON. A decimal is a float or a negative integer, by its
-- numeral.
pub data NodeProperty : Type 0 where
  no_value : NodeProperty
  text : String → NodeProperty
  number : ℕ → NodeProperty
  decimal : String → NodeProperty
  texts text_set : List String → NodeProperty

abbrev pub Properties : Type 0
Properties = List (String × NodeProperty)

-- Node of nodes.py, with the value of its architecture.
pub record Node : Type 0 where
  pub name : String
  pub properties : Properties
  pub additional_properties : Properties
  pub architecture : String
  pub available_environments : List EnvironmentKind

-- `_available_environment_definitions`
abbrev pub known_environment : String → List EnvironmentKind
known_environment name =
    if name == "ShellExecution"
    then shell_execution ∷ []
    else if name == "DockerImage"
    then docker_image ∷ []
    else []

abbrev pub known_environments : List String → List EnvironmentKind
known_environments [] = []
known_environments (name ∷ names) = known_environment name ++ known_environments names

-- `_infer_environments`: no letter of a text is the name of an environment, and None and a number
-- cannot be iterated over.
unfoldable pub infer_environments : Properties → List EnvironmentKind
unfolding lookup
infer_environments properties = elim (lookup "netunicorn-environments" properties) [
  | none ↦ shell_execution ∷ docker_image ∷ []
  | some property ↦ elim property [
    | texts names ↦ known_environments names
    | text_set names ↦ known_environments names
    | no_value ↦ []
    | text t ↦ []
    | number n ↦ []
    | decimal t ↦ []
  ]
]

-- `Node(name, properties, architecture)`
unfoldable pub new_node : String → Properties → String → Node
unfolding infer_environments
new_node name properties architecture = record {
  name = name;
  properties = properties;
  additional_properties = [];
  architecture = architecture;
  available_environments = infer_environments properties;
}

-- `str(node["connector"])`. The infrastructure sets the property to a text; any other value stands
-- as None.
unfoldable pub connector : Node → String
unfolding lookup
connector x = elim (lookup "connector" x.properties) [
  | none ↦ "None"
  | some property ↦ elim property [
    | text t ↦ t
    | no_value ↦ "None"
    | number n ↦ "None"
    | texts ts ↦ "None"
    | text_set ts ↦ "None"
    | decimal t ↦ "None"
  ]
]

-- The property "netunicorn-access-tags" as a set of texts: `none` if it cannot be iterated over, and
-- empty if it is missing or falsy. A text is the set of its letters.
unfoldable pub access_tags : Node → Option (List String)
unfolding lookup letters
access_tags x = elim (lookup "netunicorn-access-tags" x.properties) [
  | none ↦ some []
  | some property ↦ elim property [
    | texts ts ↦ some ts
    | text_set ts ↦ some ts
    | text t ↦ some (letters t)
    | no_value ↦ some []
    | number n ↦ if nat_eq n 0 then some [] else none
    | decimal t ↦ if t == "0.0" || t == "-0.0" then some [] else none
  ]
]

-- Deployment of deployment.py. The serialized graph is a text of bytes.
pub record Deployment : Type 0 where
  pub node : Node
  pub prepared : Bool
  pub executor_id : String
  pub error : Option String
  pub execution_graph : String
  pub environment_definition : EnvironmentDefinition
  pub keep_alive_timeout_minutes : ℕ
  pub cleanup : Bool

-- A context: for each connector a dictionary of texts.
abbrev pub Contexts : Type 0
Contexts = List (String × List (String × String))

-- Experiment of experiment.py.
pub record Experiment : Type 0 where
  pub deployment_map : List Deployment
  pub deployment_context : Option Contexts

-- `Experiment(deployment_context)`
abbrev pub empty_experiment : Option Contexts → Experiment
empty_experiment context = record { deployment_map = []; deployment_context = context }

-- DeploymentExecutionResult of experiment.py.
pub record DeploymentExecutionResult : Type 0 where
  pub node : Node
  pub serialized_execution_graph : String
  pub result : Option String
  pub error : Option String
