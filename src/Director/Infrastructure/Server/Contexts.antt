-- ===== src/Director/Infrastructure/Server/Contexts.antt =====
-- The authentication context between the mediator and the connectors.
use netunicorn.Common.{String, Option, none, List, ◌≡◌, refl, lookup}
use netunicorn.Base.{Contexts}
use netunicorn.Pools.{Items}
use netunicorn.Director.Outcome.{Outcome, success, failure}
use netunicorn.Director.Http.{
  Handled, returned, http_exception, other_exception, JsonText, context_header, parse_context,
}
use netunicorn.Director.Infrastructure.Connectors.{get_nodes}
use netunicorn.Director.Infrastructure.Server.{NodesCall, get_nodes_handler}

-- How the mediator reads the response, with the header that it sends.
abbrev pub nodes_of : Handled (Items × List String) → Outcome Items
nodes_of (returned (items, connectors)) = success items
nodes_of (http_exception code e) = failure e
nodes_of other_exception = failure "Internal Server Error"

abbrev pub ask_nodes : JsonText → NodesCall → List String → String → Option Contexts → Outcome Items
ask_nodes json call connectors username contexts =
    nodes_of (get_nodes_handler json call connectors (context_header json contexts) username)

-- Whatever context the mediator sends, the connectors are asked without one.
pub ask_nodes_lem :
    (json : JsonText) (call : NodesCall) (connectors : List String) (username : String)
    (contexts : Option Contexts)
    → ask_nodes json call connectors username contexts
      ≡ success (get_nodes (λ name. call name username none) connectors).0
unfolding get_nodes_handler parse_context lookup
ask_nodes_lem json call connectors username contexts = refl
