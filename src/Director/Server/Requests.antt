-- ===== src/Director/Server/Requests.antt =====
-- The requests that the mediator answers, by the routes of their decorators, and the answer to an
-- exception.
use netunicorn.Common.{ℕ, String, Option, List}
use netunicorn.Base.{Contexts, Experiment}
use netunicorn.Director.Outcome.{Outcome}
use netunicorn.Director.Db.{Db}
use netunicorn.Director.Gateway.{FlagValues}
use netunicorn.Director.Http.{Handled, returned, http_exception, other_exception, Headers}
use netunicorn.Director.Server.{Services, text, detail, nothing, Reply, login}
use netunicorn.Director.Server.Handlers as handlers

-- A request with an access token: what stands in its path, its query and its body.
pub data Request : Type 0 where
  get_verify_token get_health get_nodes get_experiments get_locks get_compilations : Request
  get_running_experiments : Request
  get_last_experiments : (days : ℕ) → Request
  post_prepare : (experiment_name : String) → Outcome Experiment → Request
  post_start : (experiment_name : String) → Option Contexts → Request
  get_experiment : (experiment_name : String) → Request
  delete_experiment : (experiment_name : String) → Request
  post_cancel : (experiment_name : String) → Option Contexts → Request
  post_cancel_executors : (executors : List String) → Option Contexts → Request
  get_flag : (experiment_id flag_name : String) → Request
  post_flag : (experiment_id flag_name : String) → FlagValues → Request

unfoldable pub handle : Services → Headers → String → Request → Db → Handled Reply
handle s headers token get_verify_token db = handlers.verify_token_handler s token db
handle s headers token get_health db = handlers.health_check s token db
handle s headers token get_nodes db = handlers.nodes_handler s headers token db
handle s headers token get_experiments db = handlers.get_experiments_handler s token db
handle s headers token get_locks db = handlers.locked_nodes_handler s token db
handle s headers token get_compilations db = handlers.active_compilations_handler s token db
handle s headers token get_running_experiments db = handlers.running_experiments_handler s token db
handle s headers token (get_last_experiments days) db =
    handlers.last_experiments_handler s days token db
handle s headers token (post_prepare name data_) db =
    handlers.prepare_experiment_handler s headers name data_ token db
handle s headers token (post_start name contexts) db =
    handlers.start_experiment_handler s headers name contexts token db
handle s headers token (get_experiment name) db = handlers.experiment_status_handler s name token db
handle s headers token (delete_experiment name) db =
    handlers.delete_experiment_handler s name token db
handle s headers token (post_cancel name contexts) db =
    handlers.cancel_experiment_handler s headers name contexts token db
handle s headers token (post_cancel_executors executors contexts) db =
    handlers.cancel_executors_handler s headers executors contexts token db
handle s headers token (get_flag id name) db =
    handlers.get_experiment_flag_handler s id name token db
handle s headers token (post_flag id name values) db =
    handlers.set_experiment_flag_handler s id name values token db

-- FastAPI's answer to an HTTPException, and `unicorn_exception_handler`. No handler raises behind a
-- change of the tables.
unfoldable pub respond : Handled Reply → Db → Reply
respond (returned reply) db = reply
respond (http_exception code e) db = record {
  response = record { status_code = code; content = detail e };
  db = db;
  effect = nothing;
}
respond other_exception db = record {
  response = record { status_code = 500; content = text "exception" };
  db = db;
  effect = nothing;
}

unfoldable pub serve : Services → Headers → String → Request → Db → Reply
unfolding handle respond
serve s headers token request db = respond (handle s headers token request db) db

unfoldable pub serve_login : Services → String → String → Db → Reply
serve_login s username password db = respond (login s username password db) db
