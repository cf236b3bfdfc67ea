-- ===== src/Examples/Clients.antt =====
-- The client and the mediator's server on concrete requests.
use netunicorn.Common.{String, Bool, true, false, none, some, [], ◌∷◌, ◌==◌, ◌≡◌, ◌↔◌, refl, lookup}
use netunicorn.Base.{ready, value, Experiment}
use netunicorn.Pools.{countable, end, node}
use netunicorn.Director.Outcome.{success}
use netunicorn.Director.Db.{Db, ExperimentRow, select_one}
use netunicorn.Director.Gateway.{FlagValues, get_flag_value}
use netunicorn.Director.Gateway.Flags.{stored_flag}
use netunicorn.Director.Authentication.{auth}
use netunicorn.Director.Http.{JsonText, parse_context}
use netunicorn.Director.Infrastructure.Connectors as seen
use netunicorn.Director.Infrastructure.Server.{NodesCall}
use netunicorn.Director.Infrastructure.Server.Contexts.{ask_nodes}
use netunicorn.Director.Mediator.Experiments.{get_experiment_id_and_status}
use netunicorn.Director.Mediator.Nodes.{filter_locked, filter_access_tags}
use netunicorn.Director.Mediator.Tokens.{verify_access_token, generate_access_token}
use netunicorn.Director.Mediator.UiApi.{ExperimentLine}
use netunicorn.Director.Server.{Services, prepare_experiment_task, accesstags}
use netunicorn.Director.Server.Requests.{delete_experiment, post_prepare, get_verify_token, serve}
use netunicorn.Director.Server.Guarded.{refusal, Passes, serve-unauthorized, serve-prepare}
use netunicorn.Director.Server.Rows.{IsUntouched}
use netunicorn.Director.Server.Isolated.{serve-IsUntouched}
use netunicorn.Client.{
  RemoteClient, authenticated, send, no_headers, get_nodes, get_flag_values, set_flag_values,
}
use netunicorn.Client.Sessions.{authenticated_lem}
use netunicorn.Client.Flags.{set-get_flag_values}
use netunicorn.Client.Submitted.{get_nodes-contexts}
use netunicorn.Examples.Services.{on_pi, tables}

abbrev json : JsonText
json = record { loads = λ t. none; dumps = λ contexts. "{}" }

-- The connector offers its node to all who come without a context.
abbrev offers : NodesCall
offers name username context = elim context [
  | none ↦ some (countable (node on_pi.node end))
  | some c ↦ none
]

abbrev s : Services
s = record {
  now = 100;
  fresh_token = "t3";
  uuid = "u9";
  checkpw = λ t h. t == "secret";
  authentication_answers = true;
  services_answer = true;
  nodes = ask_nodes json offers ("ssh" ∷ []);
  post_execution = λ a b. none;
  delete_executors = λ a b. none;
  is_int = λ t. true;
  has_space = λ t. t == "a b";
  json = json;
}

-- Ann and Bob have tokens, that of Bob is over.
abbrev users : Db
users = record tables {
  tokens =
      record { username = "ann"; token = "t1"; expiration = 200 }
      ∷ record { username = "bob"; token = "t2"; expiration = 90 }
      ∷ [];
  authentication =
      record { username = "ann"; hash = "h"; sudo = false; accesstags = some [] }
      ∷ record { username = "bob"; hash = "h"; sudo = false; accesstags = some [] }
      ∷ [];
  locks = record { node_name = "pi"; connector = "ssh"; username = "ann" } ∷ [];
}

serve-unauthorized_example :
    serve s [] "t2" (delete_experiment "speed") users ≡ refusal "Access token not found" users
unfolding verify_access_token select_one
serve-unauthorized_example =
    serve-unauthorized s [] "t2" "Access token not found" (delete_experiment "speed") users refl

abbrev submitted : Experiment
submitted = record { deployment_map = on_pi ∷ []; deployment_context = none }

serve-prepare_example :
    ((serve s [] "t1" (post_prepare "delay" (success submitted)) users).effect
        ≡ prepare_experiment_task "delay" submitted "ann" none
      ↔ Passes s "ann" submitted users)
    × ((serve s [] "t1" (post_prepare "delay" (success submitted)) users).response.status_code ≡ 200
        ↔ Passes s "ann" submitted users)
    × ((serve s [] "t1" (post_prepare "delay" (success submitted)) users).db ≡ users)
unfolding verify_access_token select_one parse_context lookup
serve-prepare_example = serve-prepare s [] "t1" "ann" "delay" none submitted users refl refl

abbrev of_bob : ExperimentRow
of_bob = record {
  username = "bob";
  experiment_name = "speed";
  experiment_id = "e7";
  data_ = none;
  status = value ready;
  error = none;
  execution_results = none;
  creation_time = 20;
  start_time = some 30;
  cleaned_up = false;
}

abbrev with_bob : Db
with_bob = record users { experiments = of_bob ∷ users.experiments }

serve-IsUntouched_example :
    IsUntouched 0 of_bob "done" with_bob (serve s [] "t1" (delete_experiment "speed") with_bob).db
unfolding verify_access_token select_one
serve-IsUntouched_example =
    serve-IsUntouched s [] "t1" "ann" (delete_experiment "speed") with_bob 0 of_bob "done" refl refl
      refl refl

abbrev client : RemoteClient
client = record {
  endpoint = "http://localhost";
  login = "ann";
  password = "secret";
  authentication_context = ("ssh", ("key", "k") ∷ []) ∷ [];
  session_token = some "t1";
}

abbrev greeting : FlagValues
greeting = record { text_value = some "hello"; int_value = none }

set-get_flag_values_example :
    ((set_flag_values s (λ n. n) "speed" "word" greeting client users).result ≡ success tt)
    × ((get_flag_values s
          (λ n. n)
          "speed"
          "word"
          (set_flag_values s (λ n. n) "speed" "word" greeting client users).client
          (set_flag_values s (λ n. n) "speed" "word" greeting client users).db).result
        ≡ success (stored_flag greeting))
    × (get_flag_value "e1" "word"
          (set_flag_values s (λ n. n) "speed" "word" greeting client users).db
        ≡ record { status_code = 200; body = some (stored_flag greeting) })
unfolding verify_access_token select_one get_experiment_id_and_status
set-get_flag_values_example =
    set-get_flag_values s (λ n. n) client "t1" "ann" "speed" "word" "e1" ready greeting users refl
      refl refl refl refl refl

get_nodes-contexts_example :
    (get_nodes s client users).result
    ≡ success (
        filter_access_tags (accesstags s "ann" users) (
          filter_locked "ann" users
            (seen.get_nodes (λ name. offers name "ann" none) ("ssh" ∷ [])).0))
unfolding verify_access_token select_one
get_nodes-contexts_example =
    get_nodes-contexts s offers ("ssh" ∷ []) client "t1" "ann" users (λ contexts. refl) refl refl

-- A client without a session, for Bob.
abbrev new : RemoteClient
new = record client { login = "bob"; session_token = none }

authenticated_lem_example :
    (c' : RemoteClient) × (token : String) × (db' : Db) × (authenticated s
        (send s no_headers get_verify_token (λ response. success response.status_code))
        new
        users
      ≡ send s no_headers get_verify_token (λ response. success response.status_code) c' token db')
    × (verify_access_token s.now token db' ≡ success "bob")
unfolding generate_access_token select_one auth
authenticated_lem_example =
    authenticated_lem s
      (send s no_headers get_verify_token (λ response. success response.status_code)) new users refl
      refl refl

abbrev line : ExperimentLine
line = record {
  username = "bob";
  experiment_name = "speed";
  experiment_id = "e7";
  status = ready;
  error = none;
  creation_time = 20;
  start_time = some 30;
  nodes = "";
}

-- What Bob is shown of Ann's rows.
abbrev of_ann : String → String → Bool
of_ann owner name = owner == "ann"
