-- ===== src/Director/Server.antt =====
-- netunicorn-director/netunicorn-mediator/src/netunicorn/director/mediator/__main__.py: the routes
-- of the mediator, in Handlers. A handler gets the access token that FastAPI reads from the request. The other
-- services are behind `Services`; the authentication reads the tables of the same database.
pub mod Handlers
pub mod Requests
pub mod Guarded
pub mod Rows
pub mod Isolated
use netunicorn.Common.{
  ℕ, String, Bool, true, false, ◌&&◌, Option, none, some, List, [], ◌∷◌, or_else, if◌then◌else◌,
}
use netunicorn.Base.{Contexts, Experiment}
use netunicorn.Pools.{Items}
use netunicorn.Director.Outcome.{Outcome, success, failure}
use netunicorn.Director.Db.{Db, LockRow}
use netunicorn.Director.Gateway.{FlagValues}
use netunicorn.Director.Http.{Handled, returned, http_exception, JsonText}
use netunicorn.Director.Authentication as authentication
use netunicorn.Director.Mediator.Experiments.{ExperimentExecutionInformation}
use netunicorn.Director.Mediator.Tokens.{generate_access_token, verify_access_token}
use netunicorn.Director.Mediator.UiApi.{ExperimentLine, CompilationLine}

-- What is outside: the clock of the database, `token_urlsafe`, `uuid4`, `checkpw` of bcrypt, whether
-- the authentication answers and the services are healthy, the answers of the infrastructure to the
-- execution context and to the authentication context, `int`, the search for a space, and json.
pub record Services : Type 0 where
  pub now : ℕ
  pub fresh_token : String
  pub uuid : String
  pub checkpw : String → String → Bool
  pub authentication_answers : Bool
  pub services_answer : Bool
  pub nodes : String → Option Contexts → Outcome Items
  pub post_execution : Option Contexts → Option Contexts → Option String
  pub delete_executors : Option Contexts → Option Contexts → Option String
  pub is_int : String → Bool
  pub has_space : String → Bool
  pub json : JsonText

-- What stands in the body of a response.
pub data Content : Type 0 where
  null : Content
  text : String → Content
  detail : String → Content
  access_token : String → Content
  nodes_content : Items → Content
  information : ExperimentExecutionInformation → Content
  informations : List (String × ExperimentExecutionInformation) → Content
  flag : FlagValues → Content
  lock_lines : List LockRow → Content
  compilation_lines : List CompilationLine → Content
  lines : List ExperimentLine → Content

pub record Response : Type 0 where
  pub status_code : ℕ
  pub content : Content

-- What a request sets going besides the tables: the task that prepares an experiment, or the
-- request to the infrastructure to stop executors.
pub data Effect : Type 0 where
  nothing : Effect
  prepare_experiment_task :
      (experiment_name : String) → Experiment → (username : String) → Option Contexts → Effect
  stop_request : List String → Effect

pub record Reply : Type 0 where
  pub response : Response
  pub db : Db
  pub effect : Effect

abbrev pub answer : Response → Db → Handled Reply
answer response db = returned (record { response = response; db = db; effect = nothing })

-- `f` gives the content of a value.
unfoldable pub result_to_response {ℓ} : {A : Type ℓ} → (A → Content) → Outcome A → Response
result_to_response f (success a) = record { status_code = 200; content = f a }
result_to_response f (failure e) = record { status_code = 400; content = text e }

unfoldable pub verify_token : Services → String → Db → Handled String
verify_token s token db = elim (verify_access_token s.now token db) [
  | failure e ↦ http_exception 401 e
  | success username ↦ returned username
]

-- `credentials_check` and `verify_sudo` of engine.py.
abbrev pub credentials_check : Services → String → String → Db → Bool
credentials_check s username password db =
    s.authentication_answers && authentication.auth s.checkpw username password db

abbrev pub verify_sudo : Services → String → Db → Bool
verify_sudo s username db = s.authentication_answers && authentication.verify_sudo username db

abbrev pub accesstags : Services → String → Db → Option (List String)
accesstags s username db =
    if s.authentication_answers
    then some (or_else (authentication.get_tags username db) [])
    else none

unfoldable pub login : Services → String → String → Db → Handled Reply
login s username password db =
    if credentials_check s username password db
    then (let granted = generate_access_token s.now s.fresh_token username 86400 db in
        answer (record { status_code = 200; content = access_token granted.0 }) granted.1)
    else http_exception 401 "Incorrect username or token"
