-- ===== src/Director/Server/Isolated.antt =====
-- What a request of one user leaves of the tables.
use netunicorn.Common.{
  ℕ, String, true, false, Option, none, some, List, ◌==◌, ◌≡◌, refl, get_elem?, Option-cases,
  Bool-cases, inl, inr,
}
use netunicorn.Base.{Experiment}
use netunicorn.Director.Outcome.{Outcome, success, failure}
use netunicorn.Director.Db.{Db, ExperimentRow}
use netunicorn.Director.Http.{
  Handled, returned, ◌>>=◌, Handled-cases, Headers, netunicorn_auth_context, parse_context,
}
use netunicorn.Director.Mediator.Executors.{Cancelled, rejected, key_error, sent}
use netunicorn.Director.Mediator.UiApi.{ExperimentLine}
use netunicorn.Director.Mediator.Tokens.{verify_access_token}
use netunicorn.Director.Server.{Services, Reply, verify_token}
use netunicorn.Director.Server.Handlers.{
  first_failure, prechecks, cancelled, listed, verify_token_handler, health_check, nodes_handler,
  get_experiments_handler, prepare_experiment_handler, start_experiment_handler,
  experiment_status_handler, delete_experiment_handler, cancel_experiment_handler,
  cancel_executors_handler, get_experiment_flag_handler, set_experiment_flag_handler,
  locked_nodes_handler, active_compilations_handler, running_experiments_handler,
  last_experiments_handler,
}
use netunicorn.Director.Server.Requests.{
  Request, get_verify_token, get_health, get_nodes, get_experiments, get_locks, get_compilations,
  get_running_experiments, get_last_experiments, post_prepare, post_start, get_experiment,
  delete_experiment as delete_request, post_cancel, post_cancel_executors, get_flag, post_flag,
  respond, serve,
}
use netunicorn.Director.Server.Rows.{
  owners_agree, IsUntouched, delete-IsUntouched, start-IsUntouched, set_flag-IsUntouched,
}

-- A request behind a context: the context is read, or an exception leaves the tables as they are.
module _ (i : ℕ) (r : ExperimentRow) (key : String) (db : Db)
    (g : get_elem? db.experiments i ≡ some r) where
  context-IsUntouched :
      {A : Type 0} (h : Handled A) (f : A → Handled Reply)
      → ((x : A) → IsUntouched i r key db (respond (f x) db).db)
      → IsUntouched i r key db (respond (h >>= f) db).db
  unfolding respond
  context-IsUntouched h f k = elim (Handled-cases h) [
    | inl (x, q) ↦ rw q (k x)
    | inr (inl (code, e, q)) ↦ rw q (g, refl)
    | inr (inr q) ↦ rw q (g, refl)
  ]

  cancelled-IsUntouched : (c : Cancelled) → IsUntouched i r key db (respond (cancelled c db) db).db
  unfolding respond cancelled
  cancelled-IsUntouched (rejected e) = (g, refl)
  cancelled-IsUntouched key_error = (g, refl)
  cancelled-IsUntouched (sent executors outcome) = (g, refl)

  listed-IsUntouched :
      (lines : Option (List ExperimentLine))
      → IsUntouched i r key db (respond (listed lines db) db).db
  unfolding respond
  listed-IsUntouched none = (g, refl)
  listed-IsUntouched (some lines) = (g, refl)

  prepare-IsUntouched :
      (s : Services) (headers : Headers) (name token username : String) (data_ : Outcome Experiment)
      → verify_token s token db ≡ returned username
      → IsUntouched i r key db
          (respond (prepare_experiment_handler s headers name data_ token db) db).db
  unfolding respond prepare_experiment_handler
  prepare-IsUntouched s headers name token username (failure e) v = rw v (
      context-IsUntouched (parse_context s.json (netunicorn_auth_context headers)) _
        (λ contexts. (g, refl)))
  prepare-IsUntouched s headers name token username (success experiment) v = rw v (
      context-IsUntouched (parse_context s.json (netunicorn_auth_context headers)) _ (λ contexts.
        elim (Option-cases (first_failure (prechecks s experiment username db))) [
          | inl q ↦ rw q (g, refl)
          | inr (e, q) ↦ rw q (g, refl)
        ]))

-- A request with the access token of a user leaves the rows of the experiments of all other users,
-- and the flags of these experiments, as they are, if rows with one identifier belong to one user.
pub serve-IsUntouched :
    (s : Services) (headers : Headers) (token username : String) (request : Request) (db : Db)
    (i : ℕ) (r : ExperimentRow) (key : String)
    → verify_access_token s.now token db ≡ success username
    → owners_agree db.experiments ≡ true
    → get_elem? db.experiments i ≡ some r
    → (r.username == username) ≡ false
    → IsUntouched i r key db (serve s headers token request db).db
unfolding serve verify_token_handler health_check nodes_handler get_experiments_handler
    start_experiment_handler experiment_status_handler delete_experiment_handler
    cancel_experiment_handler cancel_executors_handler get_experiment_flag_handler
    set_experiment_flag_handler locked_nodes_handler active_compilations_handler
    running_experiments_handler last_experiments_handler verify_token respond
serve-IsUntouched s headers token username request db i r key h a g o =
    let v : verify_token s token db ≡ returned username = rw (verify_token, h) refl in
    let contexts = parse_context s.json (netunicorn_auth_context headers) in
    elim request as (λ q. IsUntouched i r key db (serve s headers token q db).db) [
      | get_verify_token ↦ rw v (g, refl)
      | get_health ↦ elim (Bool-cases s.services_answer) [
        | inl b ↦ rw (v, b) (g, refl)
        | inr b ↦ rw (v, b) (g, refl)
      ]
      | get_nodes ↦ rw v (context-IsUntouched i r key db g contexts _ (λ x. (g, refl)))
      | get_experiments ↦ rw v (g, refl)
      | get_locks ↦ rw v (g, refl)
      | get_compilations ↦ rw v (g, refl)
      | get_running_experiments ↦ rw v (listed-IsUntouched i r key db g _)
      | get_last_experiments days ↦ rw v (listed-IsUntouched i r key db g _)
      | post_prepare name data_ ↦
          prepare-IsUntouched i r key db g s headers name token username data_ v
      | post_start name context ↦ rw v (
          context-IsUntouched i r key db g contexts _ (λ x.
            start-IsUntouched name username key db i r a g o s.now (s.post_execution context x)))
      | get_experiment name ↦ rw v (g, refl)
      | delete_request name ↦ rw v (delete-IsUntouched name username key db i r a g o s.uuid)
      | post_cancel name context ↦
          rw v (
            context-IsUntouched i r key db g contexts _ (λ x. cancelled-IsUntouched i r key db g _))
      | post_cancel_executors executors context ↦
          rw v (
            context-IsUntouched i r key db g contexts _ (λ x. cancelled-IsUntouched i r key db g _))
      | get_flag id name ↦ rw v (g, refl)
      | post_flag id name values ↦
          rw v (set_flag-IsUntouched id username key db i r a g o name values)
    ]
