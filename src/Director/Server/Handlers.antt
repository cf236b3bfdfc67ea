-- ===== src/Director/Server/Handlers.antt =====
-- The handlers of the mediator's routes.
use netunicorn.Common.{ℕ, String, Option, none, some, List, [], ◌∷◌, if◌then◌else◌}
use netunicorn.Base.{Contexts, Experiment}
use netunicorn.Director.Outcome.{Outcome, success, failure}
use netunicorn.Director.Db.{Db}
use netunicorn.Director.Gateway.{FlagValues}
use netunicorn.Director.Http.{
  Handled, returned, http_exception, other_exception, ◌>>=◌, Headers, netunicorn_auth_context,
  parse_context,
}
use netunicorn.Director.Server.{
  Services, null, text, nodes_content, information, informations, flag, lock_lines,
  compilation_lines, lines, prepare_experiment_task, stop_request, Reply, answer,
  result_to_response, verify_token, verify_sudo, accesstags,
}
use netunicorn.Director.Mediator.Experiments.{
  get_experiment_status, start_experiment, delete_experiment,
}
use netunicorn.Director.Mediator.Experiments.Listing.{get_experiments}
use netunicorn.Director.Mediator.Executors.{
  Cancelled, rejected, key_error, sent, cancel_experiment, cancel_executors,
}
use netunicorn.Director.Mediator.Checks.{
  check_sudo_access, experiment_precheck, check_environments, check_runtime_context,
}
use netunicorn.Director.Mediator.Flags.{get_experiment_flag, set_experiment_flag}
use netunicorn.Director.Mediator.Nodes.{get_nodes}
use netunicorn.Director.Mediator.UiApi.{
  ExperimentLine, get_locked_nodes, get_last_experiments, get_running_experiments,
  get_active_compilations,
}

unfoldable pub verify_token_handler : Services → String → Db → Handled Reply
verify_token_handler s token db =
    verify_token s token db >>= λ username. answer (record { status_code = 200; content = null }) db

unfoldable pub health_check : Services → String → Db → Handled Reply
health_check s token db = verify_token s token db >>= λ username.
    if s.services_answer
    then answer (record { status_code = 200; content = text "OK" }) db
    else other_exception

unfoldable pub nodes_handler : Services → Headers → String → Db → Handled Reply
nodes_handler s headers token db = verify_token s token db >>= λ username.
    parse_context s.json (netunicorn_auth_context headers) >>= λ contexts.
    answer
      (result_to_response nodes_content
        (get_nodes (s.nodes username contexts) (accesstags s username db) username db))
      db

unfoldable pub get_experiments_handler : Services → String → Db → Handled Reply
get_experiments_handler s token db = verify_token s token db >>= λ username.
    answer (record { status_code = 200; content = informations (get_experiments username db) }) db

-- The loop over the results of the checks.
unfoldable pub first_failure : List (Outcome (Unit {0})) → Option String
first_failure [] = none
first_failure (success u ∷ rs) = first_failure rs
first_failure (failure e ∷ rs) = some e

unfoldable pub prechecks : Services → Experiment → String → Db → List (Outcome (Unit {0}))
prechecks s experiment username db =
    experiment_precheck experiment
    ∷ check_sudo_access (verify_sudo s username db) experiment
    ∷ check_runtime_context s.is_int s.has_space experiment
    ∷ check_environments experiment
    ∷ []

-- `data` is the experiment of the body, or the text of the exception that its parsing raises.
unfoldable pub prepare_experiment_handler :
    Services → Headers → String → Outcome Experiment → String → Db → Handled Reply
prepare_experiment_handler s headers experiment_name data_ token db =
    verify_token s token db >>= λ username.
    parse_context s.json (netunicorn_auth_context headers) >>= λ contexts. elim data_ [
      | failure e ↦ http_exception 400 e
      | success experiment ↦ elim (first_failure (prechecks s experiment username db)) [
        | some e ↦ answer (record { status_code = 400; content = text e }) db
        | none ↦ returned (record {
          response = record { status_code = 200; content = text experiment_name };
          db = db;
          effect = prepare_experiment_task experiment_name experiment username contexts;
        })
      ]
    ]

unfoldable pub start_experiment_handler :
    Services → Headers → String → Option Contexts → String → Db → Handled Reply
start_experiment_handler s headers experiment_name execution_context token db =
    verify_token s token db >>= λ username.
    parse_context s.json (netunicorn_auth_context headers) >>= λ contexts.
    let result =
      start_experiment s.now (s.post_execution execution_context contexts) experiment_name username
        db in
    answer (result_to_response text result.0) result.1

unfoldable pub experiment_status_handler : Services → String → String → Db → Handled Reply
experiment_status_handler s experiment_name token db = verify_token s token db >>= λ username.
    answer (result_to_response information (get_experiment_status experiment_name username db)) db

unfoldable pub delete_experiment_handler : Services → String → String → Db → Handled Reply
delete_experiment_handler s experiment_name token db = verify_token s token db >>= λ username.
    let result = delete_experiment s.uuid experiment_name username db in
    answer (result_to_response (λ u. null) result.0) result.1

-- The response to a cancellation; a KeyError is answered like any other exception.
unfoldable pub cancelled : Cancelled → Db → Handled Reply
cancelled (rejected e) db = answer (record { status_code = 400; content = text e }) db
cancelled key_error db = other_exception
cancelled (sent executors outcome) db = returned (record {
  response = result_to_response text outcome;
  db = db;
  effect = stop_request executors;
})

unfoldable pub cancel_experiment_handler :
    Services → Headers → String → Option Contexts → String → Db → Handled Reply
cancel_experiment_handler s headers experiment_name cancellation_context token db =
    verify_token s token db >>= λ username.
    parse_context s.json (netunicorn_auth_context headers) >>= λ contexts.
    cancelled
      (cancel_experiment (s.delete_executors cancellation_context contexts) experiment_name username
        db)
      db

unfoldable pub cancel_executors_handler :
    Services → Headers → List String → Option Contexts → String → Db → Handled Reply
cancel_executors_handler s headers executors cancellation_context token db =
    verify_token s token db >>= λ username.
    parse_context s.json (netunicorn_auth_context headers) >>= λ contexts.
    cancelled
      (cancel_executors (s.delete_executors cancellation_context contexts) executors username db) db

unfoldable pub get_experiment_flag_handler :
    Services → String → String → String → Db → Handled Reply
get_experiment_flag_handler s experiment_id flag_name token db =
    verify_token s token db >>= λ username.
    answer (result_to_response flag (get_experiment_flag username experiment_id flag_name db)) db

unfoldable pub set_experiment_flag_handler :
    Services → String → String → FlagValues → String → Db → Handled Reply
set_experiment_flag_handler s experiment_id flag_name values token db =
    verify_token s token db >>= λ username.
    let result = set_experiment_flag username experiment_id flag_name values db in
    answer (result_to_response (λ u. null) result.0) result.1

unfoldable pub locked_nodes_handler : Services → String → Db → Handled Reply
locked_nodes_handler s token db = verify_token s token db >>= λ username.
    answer
      (record {
        status_code = 200;
        content = lock_lines (get_locked_nodes (verify_sudo s username db) username db);
      })
      db

unfoldable pub active_compilations_handler : Services → String → Db → Handled Reply
active_compilations_handler s token db = verify_token s token db >>= λ username.
    answer
      (record {
        status_code = 200;
        content =
            compilation_lines (get_active_compilations (verify_sudo s username db) username db);
      })
      db

-- The ValueError of an unknown status is answered like any other exception.
abbrev pub listed : Option (List ExperimentLine) → Db → Handled Reply
listed none db = other_exception
listed (some found) db = answer (record { status_code = 200; content = lines found }) db

unfoldable pub running_experiments_handler : Services → String → Db → Handled Reply
running_experiments_handler s token db = verify_token s token db >>= λ username.
    listed (get_running_experiments (verify_sudo s username db) username db) db

unfoldable pub last_experiments_handler : Services → ℕ → String → Db → Handled Reply
last_experiments_handler s days token db = verify_token s token db >>= λ username.
    listed (get_last_experiments s.now days (verify_sudo s username db) username db) db
