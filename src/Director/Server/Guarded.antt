-- ===== src/Director/Server/Guarded.antt =====
-- What a request needs: a valid access token, and for a preparation that the experiment passes the
-- checks.
use netunicorn.Common.{String, Option, none, [], ◌∷◌, ◌≡◌, ◌↔◌, refl, arith, Option-cases, inl, inr}
use netunicorn.Base.{Contexts, Experiment}
use netunicorn.Director.Outcome.{Outcome, success, failure}
use netunicorn.Director.Db.{Db}
use netunicorn.Director.Http.{
  returned, http_exception, Headers, netunicorn_auth_context, parse_context,
}
use netunicorn.Director.Mediator.Checks.{
  check_sudo_access, experiment_precheck, check_environments, check_runtime_context,
}
use netunicorn.Director.Mediator.Tokens.{verify_access_token}
use netunicorn.Director.Server.{
  Services, null, detail, nothing, prepare_experiment_task, Reply, verify_token, verify_sudo,
}
use netunicorn.Director.Server.Handlers.{
  first_failure, prechecks, verify_token_handler, health_check, nodes_handler,
  get_experiments_handler, prepare_experiment_handler, start_experiment_handler,
  experiment_status_handler, delete_experiment_handler, cancel_experiment_handler,
  cancel_executors_handler, get_experiment_flag_handler, set_experiment_flag_handler,
  locked_nodes_handler, active_compilations_handler, running_experiments_handler,
  last_experiments_handler,
}
use netunicorn.Director.Server.Requests.{
  Request, get_verify_token, get_health, get_nodes, get_experiments, get_locks, get_compilations,
  get_running_experiments, get_last_experiments, post_prepare, post_start, get_experiment,
  delete_experiment, post_cancel, post_cancel_executors, get_flag, post_flag, serve,
}

abbrev pub refusal : String → Db → Reply
refusal e db = record {
  response = record { status_code = 401; content = detail e };
  db = db;
  effect = nothing;
}

verify_token-failure :
    (s : Services) (token e : String) (db : Db)
    → verify_access_token s.now token db ≡ failure e
    → verify_token s token db ≡ http_exception 401 e
unfolding verify_token
verify_token-failure s token e db h = rw (verify_token, h) refl

-- Without a valid access token each request is answered by 401, changes no table, and starts
-- neither a preparation nor a cancellation.
pub serve-unauthorized :
    (s : Services) (headers : Headers) (token e : String) (request : Request) (db : Db)
    → verify_access_token s.now token db ≡ failure e
    → serve s headers token request db ≡ refusal e db
unfolding serve verify_token_handler health_check nodes_handler get_experiments_handler
    prepare_experiment_handler start_experiment_handler experiment_status_handler
    delete_experiment_handler cancel_experiment_handler cancel_executors_handler
    get_experiment_flag_handler set_experiment_flag_handler locked_nodes_handler
    active_compilations_handler running_experiments_handler last_experiments_handler
serve-unauthorized s headers token e get_verify_token db h =
    rw (verify_token-failure s token e db h) refl
serve-unauthorized s headers token e get_health db h = rw (verify_token-failure s token e db h) refl
serve-unauthorized s headers token e get_nodes db h = rw (verify_token-failure s token e db h) refl
serve-unauthorized s headers token e get_experiments db h =
    rw (verify_token-failure s token e db h) refl
serve-unauthorized s headers token e get_locks db h = rw (verify_token-failure s token e db h) refl
serve-unauthorized s headers token e get_compilations db h =
    rw (verify_token-failure s token e db h) refl
serve-unauthorized s headers token e get_running_experiments db h =
    rw (verify_token-failure s token e db h) refl
serve-unauthorized s headers token e (get_last_experiments days) db h =
    rw (verify_token-failure s token e db h) refl
serve-unauthorized s headers token e (post_prepare name data_) db h =
    rw (verify_token-failure s token e db h) refl
serve-unauthorized s headers token e (post_start name contexts) db h =
    rw (verify_token-failure s token e db h) refl
serve-unauthorized s headers token e (get_experiment name) db h =
    rw (verify_token-failure s token e db h) refl
serve-unauthorized s headers token e (delete_experiment name) db h =
    rw (verify_token-failure s token e db h) refl
serve-unauthorized s headers token e (post_cancel name contexts) db h =
    rw (verify_token-failure s token e db h) refl
serve-unauthorized s headers token e (post_cancel_executors executors contexts) db h =
    rw (verify_token-failure s token e db h) refl
serve-unauthorized s headers token e (get_flag id name) db h =
    rw (verify_token-failure s token e db h) refl
serve-unauthorized s headers token e (post_flag id name values) db h =
    rw (verify_token-failure s token e db h) refl

-- What a user is told of a valid access token.
pub serve-authorized :
    (s : Services) (headers : Headers) (token username : String) (db : Db)
    → verify_access_token s.now token db ≡ success username
    → serve s headers token get_verify_token db ≡ record {
      response = record { status_code = 200; content = null };
      db = db;
      effect = nothing;
    }
unfolding serve verify_token_handler verify_token
serve-authorized s headers token username db h =
    let v : verify_token s token db ≡ returned username = rw (verify_token, h) refl in rw v refl

first_failure-none :
    (a b c d : Outcome (Unit {0}))
    → first_failure (a ∷ b ∷ c ∷ d ∷ []) ≡ none
      ↔ (a ≡ success tt) × (b ≡ success tt) × (c ≡ success tt) × (d ≡ success tt)
unfolding first_failure
first_failure-none a b c d = (λ h. ground arith, λ k. ground arith)

-- The four checks let the experiment pass.
abbrev pub Passes : Services → String → Experiment → Db → Type 0
Passes s username e db =
    (experiment_precheck e ≡ success tt)
    × (check_sudo_access (verify_sudo s username db) e ≡ success tt)
    × (check_runtime_context s.is_int s.has_space e ≡ success tt)
    × (check_environments e ≡ success tt)

-- With a valid access token and a context that can be read, the request to prepare an experiment
-- starts its preparation, for the user of the token, exactly if the experiment passes the four
-- checks, and this is also when it is answered by 200; it changes no table itself.
pub serve-prepare :
    (s : Services) (headers : Headers) (token username name : String) (contexts : Option Contexts)
    (e : Experiment) (db : Db)
    → verify_access_token s.now token db ≡ success username
    → parse_context s.json (netunicorn_auth_context headers) ≡ returned contexts
    → (let reply = serve s headers token (post_prepare name (success e)) db in
        (reply.effect ≡ prepare_experiment_task name e username contexts ↔ Passes s username e db)
        × (reply.response.status_code ≡ 200 ↔ Passes s username e db)
        × (reply.db ≡ db))
unfolding serve prepare_experiment_handler prechecks verify_token
serve-prepare s headers token username name contexts e db h c =
    let v : verify_token s token db ≡ returned username = rw (verify_token, h) refl in
    let q =
      first_failure-none (experiment_precheck e) (check_sudo_access (verify_sudo s username db) e)
        (check_runtime_context s.is_int s.has_space e) (check_environments e) in
    rw (v, c)
      (elim (Option-cases (first_failure (prechecks s e username db))) [
        | inl p ↦ rw p ((λ x. q.0 p, λ x. refl), (λ x. q.0 p, λ x. refl), refl)
        | inr (t, p) ↦ rw p (
          (λ x. ground arith, λ x. ground (arith, p, q.1 x)),
          (λ x. ground arith, λ x. ground (arith, p, q.1 x)),
          refl,
        )
      ])
