-- ===== src/Client.antt =====
-- netunicorn-client/src/netunicorn/client/remote.py: the client of the mediator. A request goes to
-- the model of the mediator's server and its tables. Warnings are left out, and the
-- experiment that `prepare_experiment` updates is not looked at behind the call.
pub mod Sessions
pub mod Flags
pub mod Submitted
use netunicorn.Common.{
  ℕ, String, Bool, true, false, ◌&&◌, Option, none, some, List, [], ◌∷◌, or_else, ltb, nat_eq,
  if◌then◌else◌,
}
use netunicorn.Base.{Contexts, Experiment}
use netunicorn.Building.{update_context}
use netunicorn.Pools.{Items}
use netunicorn.Director.Outcome.{Outcome, success, failure}
use netunicorn.Director.Db.{Db}
use netunicorn.Director.Gateway.{FlagValues, both_missing}
use netunicorn.Director.Http.{Headers, context_header}
use netunicorn.Director.Mediator.Experiments.{ExperimentExecutionInformation}
use netunicorn.Director.Server.{
  Services, Content, null, text, access_token, nodes_content, information, informations, flag,
  Response, Effect, nothing, Reply,
}
use netunicorn.Director.Server.Requests.{
  Request, get_verify_token, get_health, post_prepare, post_start, get_experiment, post_cancel,
  post_cancel_executors, get_flag, post_flag, serve, serve_login,
}
use netunicorn.Director.Server.Requests as requests

pub record RemoteClient : Type 0 where
  pub endpoint : String
  pub login : String
  pub password : String
  pub authentication_context : Contexts
  pub session_token : Option String

-- `without_slash` takes the slash at the end of the endpoint off.
unfoldable pub new_client :
    (String → String) → String → String → String → Option Contexts → RemoteClient
new_client without_slash endpoint login password authentication_context = record {
  endpoint = without_slash endpoint;
  login = login;
  password = password;
  authentication_context = or_else authentication_context [];
  session_token = none;
}

-- What a call leaves: its result, where a failure is a RemoteClientException, the client, the tables
-- of the director, and what the request set going.
pub record Called (A : Type 0) : Type 0 where
  pub result : Outcome A
  pub client : RemoteClient
  pub db : Db
  pub effect : Effect

unfoldable pub verify_token : Services → RemoteClient → Db → Bool
verify_token s c db = elim c.session_token [
  | none ↦ false
  | some token ↦ nat_eq (serve s [] token get_verify_token db).response.status_code 200
]

-- `result.json()["access_token"]`
abbrev pub token_of : Content → Option String
token_of (access_token token) = some token
token_of content = none

-- `_perform_authentication`
unfoldable pub perform_authentication : Services → RemoteClient → Db → Outcome RemoteClient × Db
perform_authentication s c db =
    let reply = serve_login s c.login c.password db in
    (
      (if nat_eq reply.response.status_code 200
          then elim (token_of reply.response.content) [
            | none ↦ failure "access_token"
            | some token ↦ success (record c { session_token = some token })
          ]
          else failure "Failed to authenticate."),
      reply.db,
    )

-- What the wrapper `authenticated` does before the function: the session token is checked, and
-- else a new one is asked for.
unfoldable pub session : Services → RemoteClient → Db → Outcome RemoteClient × Db
session s c db = if verify_token s c db then (success c, db) else perform_authentication s c db

-- The function behind it, which has the session token.
unfoldable pub proceed :
    {A : Type 0}
    → (RemoteClient → String → Db → Called A)
    → RemoteClient
    → Outcome RemoteClient × Db
    → Called A
proceed function c (failure e, db) = record {
  result = failure e;
  client = c;
  db = db;
  effect = nothing;
}
proceed function c (success c', db) = function c' (or_else c'.session_token "") db

unfoldable pub authenticated :
    {A : Type 0} → Services → (RemoteClient → String → Db → Called A) → RemoteClient → Db → Called A
unfolding proceed session
authenticated s function c db = proceed function c (session s c db)

-- How the methods read a response: `decode` reads the content of a status code that is good.
abbrev pub read : {A : Type 0} → (ℕ → Bool) → (Content → Outcome A) → String → Response → Outcome A
read is_good decode message response =
    if is_good response.status_code then decode response.content else failure message

abbrev pub is_ok : ℕ → Bool
is_ok code = nat_eq code 200

abbrev pub is_no_error : ℕ → Bool
is_no_error code = ltb code 400

-- A request of a method with a session token.
unfoldable pub send :
    {A : Type 0}
    → Services
    → (RemoteClient → Headers)
    → Request
    → (Response → Outcome A)
    → RemoteClient
    → String
    → Db
    → Called A
send s headers request f c token db =
    let reply = serve s (headers c) token request db in
    record { result = f reply.response; client = c; db = reply.db; effect = reply.effect }

-- A method that sends one request.
unfoldable pub call :
    {A : Type 0}
    → Services
    → (RemoteClient → Headers)
    → Request
    → (Response → Outcome A)
    → RemoteClient
    → Db
    → Called A
unfolding authenticated send
call s headers request f = authenticated s (send s headers request f)

abbrev pub no_headers : RemoteClient → Headers
no_headers c = []

abbrev pub context_headers : Services → RemoteClient → Headers
context_headers s c = context_header s.json (some c.authentication_context)

-- The contents of responses, as the methods read them; another content is the exception of the
-- parser.
abbrev pub text_of : Content → Outcome String
text_of (text t) = success t
text_of content = failure "content"

abbrev pub nodes_of : Content → Outcome Items
nodes_of (nodes_content items) = success items
nodes_of content = failure "content"

abbrev pub information_of : Content → Outcome ExperimentExecutionInformation
information_of (information i) = success i
information_of content = failure "content"

abbrev pub informations_of : Content → Outcome (List (String × ExperimentExecutionInformation))
informations_of (informations is) = success is
informations_of content = failure "content"

abbrev pub flag_of : Content → Outcome FlagValues
flag_of (flag v) = success v
flag_of content = failure "content"

unfoldable pub healthcheck : Services → RemoteClient → Db → Called Bool
unfolding call
healthcheck s =
    call s no_headers get_health
      (read is_ok (λ content. success true) "The backend is not in healthy state.")

unfoldable pub get_nodes : Services → RemoteClient → Db → Called Items
unfolding call
get_nodes s =
    call s (context_headers s) requests.get_nodes (read is_ok nodes_of "Failed to get node pool.")

unfoldable pub get_experiments :
    Services → RemoteClient → Db → Called (List (String × ExperimentExecutionInformation))
unfolding call
get_experiments s =
    call s (context_headers s) requests.get_experiments
      (read is_ok informations_of "Failed to get experiments status.")

unfoldable pub cancel_executors :
    Services → List String → Option Contexts → RemoteClient → Db → Called String
unfolding call
cancel_executors s executors cancellation_context =
    call s (context_headers s) (post_cancel_executors executors cancellation_context)
      (read is_ok text_of "Failed to cancel provided executors.")

-- The methods that name an experiment or a flag: `path_name` is what FastAPI reads from a path with
-- `quote_plus(name)`, a plus sign where the name has a space.
module _ (s : Services) (path_name : String → String) where
  unfoldable pub delete_experiment : String → RemoteClient → Db → Called (Unit {0})
  unfolding call
  delete_experiment experiment_name =
      call s (context_headers s) (requests.delete_experiment (path_name experiment_name))
        (read is_ok (λ content. success tt) "Failed to delete the experiment.")

  unfoldable pub prepare_experiment :
      Experiment → String → Option Contexts → RemoteClient → Db → Called String
  unfolding call update_context
  prepare_experiment experiment experiment_id deployment_context =
      call s (context_headers s)
        (post_prepare (path_name experiment_id) (
          success (record experiment {
            deployment_context = update_context experiment.deployment_context deployment_context;
          })))
        (read is_ok text_of "Failed to prepare an experiment.")

  unfoldable pub start_execution : String → Option Contexts → RemoteClient → Db → Called String
  unfolding call
  start_execution experiment_id execution_context =
      call s (context_headers s) (post_start (path_name experiment_id) execution_context)
        (read is_ok text_of "Failed to start experiment execution.")

  unfoldable pub get_experiment_status :
      String → RemoteClient → Db → Called ExperimentExecutionInformation
  unfolding call
  get_experiment_status experiment_id =
      call s (context_headers s) (get_experiment (path_name experiment_id))
        (read is_ok information_of "Failed to get experiment status.")

  unfoldable pub cancel_experiment : String → Option Contexts → RemoteClient → Db → Called String
  unfolding call
  cancel_experiment experiment_id cancellation_context =
      call s (context_headers s) (post_cancel (path_name experiment_id) cancellation_context)
        (read is_ok text_of "Failed to cancel experiment execution.")

  unfoldable pub get_flag_values : String → String → RemoteClient → Db → Called FlagValues
  unfolding call
  get_flag_values experiment_id flag_name =
      call s no_headers (get_flag (path_name experiment_id) (path_name flag_name))
        (read is_no_error flag_of "Failed to get flag value.")

  -- The test of the values stands inside the wrapper.
  unfoldable pub set_flag_values :
      String → String → FlagValues → RemoteClient → Db → Called (Unit {0})
  unfolding call
  set_flag_values experiment_id flag_name flag_values c db =
      if both_missing flag_values
      then authenticated s
          (λ c' token db'. record {
            result = failure "One of int_value or text_value must be provided.";
            client = c';
            db = db';
            effect = nothing;
          })
          c db
      else call s no_headers (post_flag (path_name experiment_id) (path_name flag_name) flag_values)
          (read is_no_error (λ content. success tt) "Failed to set flag value.") c db
