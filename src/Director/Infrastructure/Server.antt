-- ===== src/Director/Infrastructure/Server.antt =====
-- netunicorn-director/netunicorn-infrastructure/src/netunicorn/director/infrastructure/server.py:
-- the handlers of the infrastructure service.
pub mod Contexts
use netunicorn.Common.{ℕ, String, Bool, Option, none, some, List}
use netunicorn.Base.{Contexts as ConnectorContexts, Deployment}
use netunicorn.Pools.{Nodes, Items}
use netunicorn.Director.Db.{Db}
use netunicorn.Director.Http.{
  Handled, returned, http_exception, other_exception, ◌>>=◌, Headers, netunicorn_auth_context,
  JsonText, parse_context, connector_context,
}
use netunicorn.Director.Infrastructure.{
  Started, not_found, unavailable, started, deploy, execute, stop_executors,
}
use netunicorn.Director.Infrastructure.Connectors.{Line, health, get_nodes}

-- The call `get_nodes` of the connectors: by the name of the connector, for a user and a context.
abbrev pub NodesCall : Type 0
NodesCall = String → String → Option (List (String × String)) → Option Nodes

-- The status code that the kernel gives with an answer.
abbrev pub code_of : {A : Type 0} → Started A → ℕ
code_of not_found = 404
code_of unavailable = 500
code_of (started task) = 200

unfoldable pub health_handler :
    Option String → (String → Option (Bool × String)) → List String → (ℕ × List Line) × List String
health_handler = health

-- The nodes, and the connectors that are left.
unfoldable pub get_nodes_handler :
    JsonText → NodesCall → List String → Headers → String → Handled (Items × List String)
get_nodes_handler json call connectors headers username =
    parse_context json (netunicorn_auth_context headers) >>= λ contexts.
    returned (get_nodes (λ name. call name username (connector_context name contexts)) connectors)

-- The status code, the background task with its contexts, and the tables.
unfoldable pub deployment_handler :
    JsonText
    → List String
    → Headers
    → String
    → Db
    → Handled (ℕ × Started (List (String × List Deployment)) × Option ConnectorContexts)
deployment_handler json connectors headers experiment_id db =
    parse_context json (netunicorn_auth_context headers) >>= λ contexts.
    let result = deploy connectors experiment_id db in returned (code_of result, result, contexts)

unfoldable pub execution_handler :
    JsonText
    → List String
    → Headers
    → String
    → Db
    → Handled (ℕ × Started (List (String × List Deployment)) × Option ConnectorContexts × Db)
execution_handler json connectors headers experiment_id db =
    parse_context json (netunicorn_auth_context headers) >>= λ contexts.
    let result = execute connectors experiment_id db in
    returned (code_of result.0, result.0, contexts, result.1)

-- `stop_execution` of the kernel is not implemented.
unfoldable pub stop_execution_handler : JsonText → Headers → Handled (ℕ × String)
stop_execution_handler json headers =
    parse_context json (netunicorn_auth_context headers) >>= λ contexts.
    returned (500, "Not implemented")

unfoldable pub stop_executors_handler :
    JsonText
    → List String
    → Headers
    → List String
    → Db
    → Handled (ℕ × Started (List (String × List String)) × Option ConnectorContexts)
stop_executors_handler json connectors headers executors db =
    parse_context json (netunicorn_auth_context headers) >>= λ contexts.
    let result = stop_executors connectors executors db in
    returned (code_of result, result, contexts)
