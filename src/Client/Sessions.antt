-- ===== src/Client/Sessions.antt =====
-- The session of a client: what the wrapper `authenticated` makes sure of.
use netunicorn.Common.{
  ℕ, String, Bool, true, false, not, ◌||◌, Option, none, some, List, [], ◌∷◌, ◌==◌, ◌≡◌, refl,
  arith, all, eq_iff, or_else, Option-cases, inl, inr,
}
use netunicorn.Director.Outcome.{Outcome, success, failure, Outcome-cases}
use netunicorn.Director.Db.{Db, select_one}
use netunicorn.Director.Http.{Headers}
use netunicorn.Director.Mediator.Tokens.{
  verifies, belongs_to, generate_access_token, verify_access_token, verify-generate,
}
use netunicorn.Director.Server.{Services, Response, credentials_check, login}
use netunicorn.Director.Server.Requests.{Request, get_verify_token, respond, serve_login}
use netunicorn.Director.Server.Rows.{all-select_one}
use netunicorn.Director.Server.Guarded.{serve-unauthorized, serve-authorized}
use netunicorn.Client.{
  RemoteClient, Called, verify_token, perform_authentication, session, proceed, authenticated, send,
  call,
}

verify_token-none :
    (s : Services) (c : RemoteClient) (db : Db)
    → c.session_token ≡ none
    → verify_token s c db ≡ false
unfolding verify_token
verify_token-none s c db h = ground (arith, h)

-- The test of the session token.
verify_token_lem :
    (s : Services) (c : RemoteClient) (token : String) (db : Db)
    → c.session_token ≡ some token
    → verify_token s c db ≡ (elim (verify_access_token s.now token db) as (λ o. Bool) [
      | success username ↦ true
      | failure e ↦ false
    ])
unfolding verify_token
verify_token_lem s c token db h = elim (Outcome-cases (verify_access_token s.now token db)) [
  | inl (username, q) ↦ ground (arith, h, q, serve-authorized s [] token username db q)
  | inr (e, q) ↦ ground (arith, h, q, serve-unauthorized s [] token e get_verify_token db q)
]

-- A session token that is valid is kept.
pub session-valid :
    (s : Services) (c : RemoteClient) (token username : String) (db : Db)
    → c.session_token ≡ some token
    → verify_access_token s.now token db ≡ success username
    → session s c db ≡ (success c, db)
unfolding session
session-valid s c token username db h v = ground (arith, v, verify_token_lem s c token db h)

-- A method with a session token that is valid sends its request with this token.
pub call-valid :
    {A : Type 0} (s : Services) (headers : RemoteClient → Headers) (request : Request)
    (f : Response → Outcome A) (c : RemoteClient) (token username : String) (db : Db)
    → c.session_token ≡ some token
    → verify_access_token s.now token db ≡ success username
    → call s headers request f c db ≡ send s headers request f c token db
unfolding call authenticated proceed
call-valid s headers request f c token username db h v =
    let q = session-valid s c token username db h v in
    let t : or_else c.session_token "" ≡ token = ground (arith, h) in
    rw (call, authenticated, q, t) refl

abbrev pub option_list : Option String → List String
option_list none = []
option_list (some t) = t ∷ []

-- The user of a token that names nobody else.
verified-user :
    (now : ℕ) (token login username : String) (db : Db)
    → belongs_to token login db.tokens ≡ true
    → verify_access_token now token db ≡ success username
    → username ≡ login
unfolding verify_access_token
verified-user now token login username db b v =
    elim (Option-cases (select_one (verifies token now) db.tokens)) [
      | inl q ↦ ground (arith, v, q)
      | inr (r, q) ↦
          let k =
            all-select_one (λ r. not (r.token == token) || r.username == login) (verifies token now)
              db.tokens r b q in
          let e : r.username ≡ login = (eq_iff r.username login).0 (ground (arith, k)) in
          let u : r.username ≡ username = ground (arith, v, q) in rw (← u) e
    ]

-- If the authentication lets the user in, and neither the session token nor the one that is
-- generated is another user's, then a method runs with a token that is valid for the user.
pub authenticated_lem :
    {A : Type 0} (s : Services) (function : RemoteClient → String → Db → Called A)
    (c : RemoteClient) (db : Db)
    → credentials_check s c.login c.password db ≡ true
    → all (λ t. belongs_to t c.login db.tokens) (option_list c.session_token) ≡ true
    → belongs_to (generate_access_token s.now s.fresh_token c.login 86400 db).0 c.login db.tokens
      ≡ true
    → (c' : RemoteClient) × (token : String) × (db' : Db) × (authenticated s function c db
        ≡ function c' token db')
      × (verify_access_token s.now token db' ≡ success c.login)
unfolding authenticated proceed session perform_authentication serve_login respond login
authenticated_lem s function c db k b g =
    let granted = generate_access_token s.now s.fresh_token c.login 86400 db in
    let new : (verify_token s c db ≡ false)
        → (authenticated s function c db
            ≡ function (record c { session_token = some granted.0 }) granted.0 granted.1) =
      λ q. rw (authenticated, session, q, k) refl in
    let good =
      verify-generate s.now s.now 86400 s.fresh_token c.login granted.0 db granted.1 refl g
        (omega arith) in
    elim (Option-cases c.session_token) [
      | inl h ↦ (_, granted.0, granted.1, new (verify_token-none s c db h), good)
      | inr (t, h) ↦ elim (Outcome-cases (verify_access_token s.now t db)) [
        | inr (e, v) ↦
            (_, granted.0, granted.1, new (ground (arith, v, verify_token_lem s c t db h)), good)
        | inl (u, v) ↦
            let o = verified-user s.now t c.login u db (ground (arith, b, h)) v in
            let q = session-valid s c t u db h v in
            let r : or_else c.session_token "" ≡ t = ground (arith, h) in
            (c, t, db, rw (authenticated, q, r) refl, rw (← o) v)
      ]
    ]
