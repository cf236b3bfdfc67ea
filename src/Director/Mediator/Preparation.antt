-- ===== src/Director/Mediator/Preparation.antt =====
-- The task that prepares an experiment, `prepare_experiment_task` in engine.py of the mediator. It
-- stands in two parts, before and after the wait for the compilations, which other services do.
-- Deployments come from a request, so that no two share an environment definition.
pub mod Task
pub mod Dictionary
pub mod Waiting
pub mod Settled
pub mod Refused
pub mod Registered
use netunicorn.Common.{
  ℕ, suc, String, Bool, true, false, ◌&&◌, ◌||◌, Option, none, some, List, [], ◌∷◌, ◌==◌, map, all,
  any, keep, has_text, insert, concat, is_some, or_else, if◌then◌else◌,
}
use netunicorn.Base.{
  connector, docker_image, shell_execution, other_environment, preparing, finished, value,
  EnvironmentDefinition, Deployment, Experiment,
}
use netunicorn.Director.Outcome.{Outcome, success, failure}
use netunicorn.Director.Db.{
  Db, ExperimentRow, ExecutorRow, is_executor, CompilationRow, select_one, update_where, upsert,
}
use netunicorn.Director.Mediator.Experiments.{has_id, is_named, update_experiment}
use netunicorn.Director.Mediator.Nodes.{is_locked}

-- What an image is built from: the Python version, the version of cloudpickle and the commands.
abbrev pub Recipe : Type 0
Recipe = String × Option String × List String

-- What DockerImage.__hash__ hashes.
pub data ImageKey : Type 0 where
  by_image : String → ImageKey
  by_recipe : Recipe → ImageKey

-- The execution graph, the image and the architecture.
abbrev pub Key : Type 0
Key = String × ImageKey × String

abbrev pub recipe : EnvironmentDefinition → Recipe
recipe e = (e.build_context.python_version, e.build_context.cloudpickle_version, e.commands)

-- The key of an image with a name: an empty name counts as none.
unfoldable pub key_of_image : String → Recipe → ImageKey
key_of_image image r = if image == "" then by_recipe r else by_image image

abbrev pub image_key : Option String → Recipe → ImageKey
image_key none r = by_recipe r
image_key (some image) r = key_of_image image r

abbrev pub key : Deployment → Key
key d = (
  d.execution_graph,
  image_key d.environment_definition.image (recipe d.environment_definition),
  d.node.architecture,
)

-- `hash` of such a tuple, the hash codes with their equality as the keys of a dictionary, the registry, the UUIDs in the order in which they are drawn, and the
-- task's own experiment and user.
pub record Context : Type 1 where
  pub Code : Type 0
  pub same : Code → Code → Bool
  pub hash : Key → Code
  pub registry : String
  pub uuid : ℕ → String
  pub experiment_id : String
  pub username : String

-- The dictionary from hash codes to compilations.
abbrev pub Envs : Context → Type 0
Envs c = List (c.Code × String)

unfoldable pub find : (c : Context) → c.Code → Envs c → Option String
find c k [] = none
find c k (entry ∷ envs) = if c.same k entry.0 then some entry.1 else find c k envs

unfoldable pub put : (c : Context) → c.Code → String → Envs c → Envs c
put c k uid [] = (k, uid) ∷ []
put c k uid (entry ∷ envs) = if c.same k entry.0 then (k, uid) ∷ envs else entry ∷ put c k uid envs

-- The state of the loop over the deployments; `drawn` counts the UUIDs.
pub record Preparing (c : Context) : Type 0 where
  pub db : Db
  pub envs : Envs c
  pub drawn : ℕ

-- A deployment behind its turn, and whether it waits for compilation.
abbrev pub Prepared : Type 0
Prepared = Deployment × Bool

abbrev pub image_of : Context → String → String
image_of c uid = concat c.registry (concat "/" (concat uid ":latest"))

abbrev pub set_image : String → Deployment → Deployment
set_image image d = record d {
  environment_definition = record d.environment_definition { image = some image };
}

abbrev pub set_variable : String → String → Deployment → Deployment
set_variable name text d = record d {
  environment_definition = record d.environment_definition {
    runtime_context = record d.environment_definition.runtime_context {
      environment_variables =
          insert name text d.environment_definition.runtime_context.environment_variables;
    };
  };
}

abbrev pub refuse : String → Deployment → Deployment
refuse e d = record d { prepared = false; error = some e }

-- `INSERT INTO executors … ON CONFLICT DO NOTHING`
unfoldable pub add_executor : Context → Option String → Deployment → Db → Db
add_executor c graph d db = record db {
  executors =
      upsert (is_executor c.experiment_id d.executor_id)
        (record {
          experiment_id = c.experiment_id;
          executor_id = d.executor_id;
          node_name = d.node.name;
          connector = connector d.node;
          execution_graph = graph;
          result = none;
          keepalive = none;
          error = none;
          finished = false;
          state = none;
        })
        (λ r. r) db.executors;
}

unfoldable pub ready_made : (c : Context) → Deployment → Preparing c → Prepared × Preparing c
unfolding add_executor
ready_made c d s = (
  (record d { prepared = true }, false),
  record s { db = add_executor c (some d.execution_graph) d s.db },
)

abbrev pub is_compilation : String → String → CompilationRow → Bool
is_compilation id uid r = r.experiment_id == id && r.compilation_id == uid

-- `INSERT INTO compilations … ON CONFLICT … DO UPDATE`, with a deployment that has its image.
unfoldable pub add_compilation : Context → String → Deployment → Db → Db
add_compilation c uid d db =
    let row : CompilationRow = record {
      experiment_id = c.experiment_id;
      compilation_id = uid;
      status = none;
      result = none;
      architecture = d.node.architecture;
      execution_graph = some d.execution_graph;
      environment_definition = d.environment_definition;
    } in
    record db {
      compilations = upsert (is_compilation c.experiment_id uid) row (λ r. row) db.compilations;
    }

-- A compilation that is not in the dictionary.
unfoldable pub new_compilation : (c : Context) → Deployment → Preparing c → Prepared × Preparing c
unfolding add_compilation put
new_compilation c d s =
    let uid = c.uuid s.drawn in
    let d' = set_image (image_of c uid) d in
    (
      (d', true),
      record s {
        db = add_compilation c uid d' s.db;
        envs = put c (c.hash (key d')) uid (put c (c.hash (key d)) uid s.envs);
        drawn = suc s.drawn;
      },
    )

unfoldable pub prepare_docker : (c : Context) → Deployment → Preparing c → Prepared × Preparing c
unfolding find ready_made new_compilation
prepare_docker c d s = elim d.environment_definition.image [
  | some image ↦
      if is_some (find c (c.hash (key d)) s.envs) then ((d, true), s) else ready_made c d s
  | none ↦ elim (find c (c.hash (key d)) s.envs) [
    | some uid ↦ ((set_image (image_of c uid) d, true), s)
    | none ↦ new_compilation c d s
  ]
]

-- `prepare_deployment`
unfoldable pub prepare_deployment :
    (c : Context) → Deployment → Preparing c → Prepared × Preparing c
unfolding is_locked ready_made prepare_docker
prepare_deployment c d s =
    let executor_id = c.uuid s.drawn in
    let d' =
      set_variable "NETUNICORN_EXECUTOR_ID" executor_id (record d { executor_id = executor_id }) in
    let s' = record s { drawn = suc s.drawn } in
    if is_locked c.username s.db d.node
    then ((refuse "Node is already locked" d', false), s')
    else elim d.environment_definition.kind [
      | shell_execution ↦ ready_made c d' s'
      | other_environment k ↦ ((refuse "Unknown environment definition type" d', false), s')
      | docker_image ↦ prepare_docker c d' s'
    ]

-- The loop over the deployments.
unfoldable pub prepare_all :
    (c : Context) → List Deployment → Preparing c → List Prepared × Preparing c
unfolding prepare_deployment
prepare_all c [] s = ([], s)
prepare_all c (d ∷ ds) s =
    let one = prepare_deployment c (set_variable "NETUNICORN_EXPERIMENT_ID" c.experiment_id d) s in
    let rest = prepare_all c ds one.1 in (one.0 ∷ rest.0, rest.1)
