-- ===== src/Examples/Forms.antt =====
-- JSON forms of concrete entities.
use netunicorn.Common.{none, some, [], ◌∷◌, ◌==◌, ◌≡◌, refl, nat_eq, if◌then◌else◌}
use netunicorn.Base.{running, Deployment, Experiment, infer_environments}
use netunicorn.Director.Mediator.Experiments.{ExperimentExecutionInformation, results}
use netunicorn.Json.{Encoding}
use netunicorn.Json.Entities.{experiment_json, experiment_from}
use netunicorn.Json.RoundTrips.{experiment-back}
use netunicorn.Director.Infrastructure.Connectors.{get_nodes}
use netunicorn.Json.Pools.{pool_json, pool_from}
use netunicorn.Json.Pools.Back.{IsFresh}
use netunicorn.Json.Pools.Sent.{get_nodes-back}
use netunicorn.Pools.{Nodes, countable, uncountable, end, node, pool, new_uncountable}
use netunicorn.Examples.Services.{on_pi}

-- One port, and bytes that are texts.
abbrev encoding : Encoding
encoding = record {
  numeral = λ n. if nat_eq n 80 then "80" else "0";
  int_of = λ t. if t == "80" then some 80 else none;
  b64encode = λ t. t;
  b64decode = λ t. some t;
}

abbrev with_port : Deployment
with_port = record on_pi {
  error = some "no space left";
  environment_definition = record on_pi.environment_definition {
    runtime_context = record on_pi.environment_definition.runtime_context {
      ports_mapping = ("80", "80") ∷ [];
      network = some "host";
    };
  };
}

abbrev experiment : Experiment
experiment = record {
  deployment_map = with_port ∷ on_pi ∷ [];
  deployment_context = some (("ssh", ("key", "k") ∷ []) ∷ []);
}

experiment-back_example :
    experiment_from encoding (experiment_json encoding experiment) ≡ some experiment
unfolding infer_environments
experiment-back_example =
    experiment-back encoding (λ t. refl) experiment
      (
        ((refl, refl, refl, refl), (refl, tt), refl),
        (((refl, refl, refl, refl), (refl, tt), refl), tt),
      )

abbrev told : ExperimentExecutionInformation
told = record {
  status = running;
  experiment = some experiment;
  execution_result = results (
      record {
        node = on_pi.node;
        serialized_execution_graph = "graph";
        result = some "ok";
        error = none;
      }
      ∷ []);
}

-- An error that is an empty text is lost.
lost_test :
    experiment_from encoding (
      experiment_json encoding
        (record experiment { deployment_map = record on_pi { error = some "" } ∷ [] }))
    ≡ some (record experiment { deployment_map = record on_pi { error = none } ∷ [] })
unfolding experiment_from experiment_json
lost_test = refl

-- A node, and beside it an uncountable pool of it with a limit.
abbrev offered : Nodes
offered = countable (
    node on_pi.node (
      pool
        (uncountable
          (record { template = on_pi.node ∷ []; ring = on_pi.node ∷ []; soft_limit = some 3 }) 1)
        end))

get_nodes-back_example :
    pool_from (pool_json (countable (get_nodes (λ name. some offered) ("ssh" ∷ [])).0))
    ≡ some (countable (get_nodes (λ name. some offered) ("ssh" ∷ [])).0)
unfolding infer_environments IsFresh new_uncountable
get_nodes-back_example =
    get_nodes-back (λ name. some offered) ("ssh" ∷ [])
      (λ name. ((refl, refl, refl, refl), ((((refl, refl, refl, refl), tt), (refl, refl)), tt)))
