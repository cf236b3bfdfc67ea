-- ===== src/Client/Submitted.antt =====
-- What becomes of an experiment that a client prepares, and of the client's authentication context.
use netunicorn.Common.{String, Option, none, some, List, ◌≡◌, ◌↔◌, refl, ◌∙◌, lookup}
use netunicorn.Base.{Contexts, Experiment}
use netunicorn.Building.{update_context}
use netunicorn.Building.Accepted.{Built, Built-checks}
use netunicorn.Director.Outcome.{success}
use netunicorn.Director.Db.{Db}
use netunicorn.Director.Http.{returned, netunicorn_auth_context, parse_context}
use netunicorn.Director.Mediator.Checks.{
  check_sudo_access, experiment_precheck, check_environments, check_runtime_context,
}
use netunicorn.Director.Infrastructure.Connectors as seen
use netunicorn.Director.Infrastructure.Server.{NodesCall}
use netunicorn.Director.Infrastructure.Server.Contexts.{ask_nodes, ask_nodes_lem}
use netunicorn.Director.Mediator.Nodes.{filter_locked, filter_access_tags}
use netunicorn.Director.Mediator.Nodes as mediator
use netunicorn.Director.Mediator.Tokens.{verify_access_token}
use netunicorn.Director.Server.{
  Services, prepare_experiment_task, verify_token, verify_sudo, accesstags, result_to_response,
}
use netunicorn.Director.Server.Handlers.{nodes_handler}
use netunicorn.Director.Server.Requests.{post_prepare, respond, serve}
use netunicorn.Director.Server.Requests as requests
use netunicorn.Director.Server.Guarded.{serve-prepare}
use netunicorn.Client.{
  RemoteClient, context_headers, read, is_ok, text_of, nodes_of, send, get_nodes,
  prepare_experiment,
}
use netunicorn.Client.Sessions.{call-valid}

-- The context of a client, whatever it is, is not what the handlers read.
context-lost :
    (s : Services) (c : RemoteClient)
    → parse_context s.json (netunicorn_auth_context (context_headers s c)) ≡ returned none
unfolding parse_context lookup
context-lost s c = refl

-- With a session token that is valid, an experiment that is built by `append`, `map` and `+` is
-- taken for preparation, in the name of the token's user, exactly if the user may use its additional
-- arguments and its runtime contexts are well-formed; the task has the deployment context that the
-- call gives, and no authentication context, whatever the client's is.
pub prepare-Built :
    (s : Services) (path_name : String → String) (c : RemoteClient)
    (token username experiment_id : String) (e : Experiment) (context : Option Contexts) (db : Db)
    → Built e
    → c.session_token ≡ some token
    → verify_access_token s.now token db ≡ success username
    → ((prepare_experiment s path_name e experiment_id context c db).effect
          ≡ prepare_experiment_task
              (path_name experiment_id)
              (record e { deployment_context = update_context e.deployment_context context })
              username
              none
        ↔ (check_sudo_access (verify_sudo s username db) e ≡ success tt)
          × (check_runtime_context s.is_int s.has_space e ≡ success tt))
unfolding prepare_experiment send check_sudo_access check_runtime_context experiment_precheck
    check_environments
prepare-Built s path_name c token username experiment_id e context db b t h =
    let e' = record e { deployment_context = update_context e.deployment_context context } in
    let name = path_name experiment_id in
    let checked = Built-checks e b in
    let called =
      call-valid s (context_headers s) (post_prepare name (success e'))
        (read is_ok text_of "Failed to prepare an experiment.") c token username db t h in
    let (q, r, u) =
      serve-prepare s (context_headers s c) token username name none e' db h (context-lost s c) in
    rw (prepare_experiment, called)
      (λ x. let (p1, p2, p3, p4) = q.0 x in (p2, p3), λ (x, y). q.1 (checked.1, x, y, checked.0))

-- With a session token that is valid, a client gets the nodes that the user sees of those that the
-- connectors offer without an authentication context: the context of the client, whatever it is,
-- does not reach them, also where the mediator sends it on.
pub get_nodes-contexts :
    (s : Services) (call_nodes : NodesCall) (connectors : List String) (c : RemoteClient)
    (token username : String) (db : Db)
    → ((contexts : Option Contexts)
        → s.nodes username contexts ≡ ask_nodes s.json call_nodes connectors username contexts)
    → c.session_token ≡ some token
    → verify_access_token s.now token db ≡ success username
    → (get_nodes s c db).result
      ≡ success (
          filter_access_tags (accesstags s username db) (
            filter_locked username db
              (seen.get_nodes (λ name. call_nodes name username none) connectors).0))
unfolding get_nodes send serve nodes_handler verify_token mediator.get_nodes result_to_response
get_nodes-contexts s call_nodes connectors c token username db asked t h =
    let v : verify_token s token db ≡ returned username = rw (verify_token, h) refl in
    let called =
      call-valid s (context_headers s) requests.get_nodes
        (read is_ok nodes_of "Failed to get node pool.") c token username db t h in
    let answered = asked none ∙ ask_nodes_lem s.json call_nodes connectors username none in
    rw (get_nodes, called, v, context-lost s c, answered) refl
