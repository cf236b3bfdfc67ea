-- ===== src/Client/Flags.antt =====
-- Flags through the client, the mediator and the tables.
use mathlib.Core.Path.{subst}
use netunicorn.Common.{
  String, true, false, [], some, ◌≡◌, refl, arith, eq_refl, Option-cases, inl, inr,
}
use netunicorn.Base.{ExperimentStatus}
use netunicorn.Director.Outcome.{success}
use netunicorn.Director.Db.{Db, select_one}
use netunicorn.Director.Gateway.{
  FlagValues, is_flag, both_missing, fits_int, store_flag, get_flag_value, set_flag_value,
}
use netunicorn.Director.Gateway.Flags.{stored_flag, get-set_flag}
use netunicorn.Director.Http.{returned}
use netunicorn.Director.Mediator.Experiments.{get_experiment_id_and_status}
use netunicorn.Director.Mediator.Flags.{get_experiment_flag, set_experiment_flag}
use netunicorn.Director.Mediator.Tokens.{verify_access_token}
use netunicorn.Director.Server.{Services, null, flag, nothing, verify_token, result_to_response}
use netunicorn.Director.Server.Handlers.{get_experiment_flag_handler, set_experiment_flag_handler}
use netunicorn.Director.Server.Requests.{get_flag, post_flag, serve}
use netunicorn.Client.{RemoteClient, no_headers, send, get_flag_values, set_flag_values}
use netunicorn.Client.Sessions.{call-valid}

module _ (s : Services) (token username id : String) (status : ExperimentStatus) (db : Db)
    (name key : String) (v : FlagValues) (h : verify_access_token s.now token db ≡ success username)
    (e : get_experiment_id_and_status name username db ≡ success (id, status))
    (b : both_missing v ≡ false) where
  serve-post_flag : serve s [] token (post_flag name key v) db ≡ record {
    response = record { status_code = 200; content = null };
    db = store_flag id key v db;
    effect = nothing;
  }
  unfolding serve set_experiment_flag_handler verify_token set_experiment_flag result_to_response
  serve-post_flag =
      let t : verify_token s token db ≡ returned username = rw (verify_token, h) refl in
      let f : set_experiment_flag username name key v db ≡ (success tt, store_flag id key v db) =
        rw (set_experiment_flag, b, e) refl in
      rw (t, f) refl

  stored-flag :
      get_flag_value id key (store_flag id key v db)
      ≡ record { status_code = 200; body = some (stored_flag v) }
  unfolding set_flag_value
  stored-flag = ground (arith, get-set_flag id key id key v db, eq_refl id, eq_refl key, b)

  get-stored :
      get_experiment_flag username name key (store_flag id key v db) ≡ success (stored_flag v)
  unfolding get_experiment_flag get_flag_value store_flag get_experiment_id_and_status
  get-stored =
      let e' : get_experiment_id_and_status name username (store_flag id key v db)
          ≡ success (id, status) =
        e in
      elim (Option-cases (select_one (is_flag id key) (store_flag id key v db).flags)) [
        | inl q ↦ ground (arith, q, stored-flag)
        | inr (r, q) ↦ ground (arith, q, stored-flag, e')
      ]

  serve-get_flag : serve s [] token (get_flag name key) (store_flag id key v db) ≡ record {
    response = record { status_code = 200; content = flag (stored_flag v) };
    db = store_flag id key v db;
    effect = nothing;
  }
  unfolding serve get_experiment_flag_handler verify_token result_to_response verify_access_token
      store_flag
  serve-get_flag =
      let h' : verify_access_token s.now token (store_flag id key v db) ≡ success username = h in
      let t : verify_token s token (store_flag id key v db) ≡ returned username =
        rw (verify_token, h') refl in
      rw (t, get-stored) refl

-- With a session token that is valid, a flag with a value that a client sets for an experiment of
-- the user is what the client then reads, and what the executors read from the gateway, if the
-- number fits into the table and the path holds the name of the flag as it is.
pub set-get_flag_values :
    (s : Services) (path_name : String → String) (c : RemoteClient)
    (token username experiment_id flag_name id : String) (status : ExperimentStatus)
    (v : FlagValues) (db : Db)
    → c.session_token ≡ some token
    → verify_access_token s.now token db ≡ success username
    → get_experiment_id_and_status (path_name experiment_id) username db ≡ success (id, status)
    → both_missing v ≡ false
    → fits_int v ≡ true
    → path_name flag_name ≡ flag_name
    → (let after = set_flag_values s path_name experiment_id flag_name v c db in
        (after.result ≡ success tt)
        × ((get_flag_values s path_name experiment_id flag_name after.client after.db).result
            ≡ success (stored_flag v))
        × (get_flag_value id flag_name after.db
            ≡ record { status_code = 200; body = some (stored_flag v) }))
unfolding set_flag_values get_flag_values send store_flag verify_access_token
set-get_flag_values s path_name c token username experiment_id flag_name id status v db t h e b fits
      same =
    let name = path_name experiment_id in
    let key = path_name flag_name in
    let posted = serve-post_flag s token username id status db name key v h e b in
    let got = serve-get_flag s token username id status db name key v h e b in
    let stored = store_flag id key v db in
    let h' : verify_access_token s.now token stored ≡ success username = h in
    let set : set_flag_values s path_name experiment_id flag_name v c db
        ≡ record { result = success tt; client = c; db = stored; effect = nothing } =
      rw
        (
          set_flag_values,
          b,
          call-valid s no_headers (post_flag name key v) _ c token username db t h,
          posted,
        )
        refl in
    let get : get_flag_values s path_name experiment_id flag_name c stored
        ≡ record { result = success (stored_flag v); client = c; db = stored; effect = nothing } =
      rw
        (
          get_flag_values,
          call-valid s no_headers (get_flag name key) _ c token username stored t h',
          got,
        )
        refl in
    rw (set, get)
      (
        refl,
        refl,
        subst
            (λ k.
              get_flag_value id k stored
              ≡ record { status_code = 200; body = some (stored_flag v) })
            same (stored-flag s token username id status db name key v h e b),
      )
