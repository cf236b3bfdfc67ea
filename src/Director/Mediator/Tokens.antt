-- ===== src/Director/Mediator/Tokens.antt =====
-- Access tokens in engine.py of the mediator. `token_urlsafe` of the standard library and the clock
-- are arguments.
use netunicorn.Common.{
  ℕ, ◌+◌, ◌<◌, String, Bool, true, not, ◌&&◌, ◌||◌, none, some, List, [], ◌∷◌, ◌≡◌, refl, arith,
  ◌==◌, all, eq_iff, eq_refl, ltb, Option-cases, Bool-cases, inl, inr,
}
use netunicorn.Director.Outcome.{Outcome, success, failure}
use netunicorn.Director.Db.{Db, TokenRow, select_one, update_where, upsert}

abbrev pub is_current : String → ℕ → TokenRow → Bool
is_current username now r = r.username == username && ltb now r.expiration

abbrev pub verifies : String → ℕ → TokenRow → Bool
verifies token now r = r.token == token && ltb now r.expiration

-- A current token is prolonged, and else a new one is stored for the user.
unfoldable pub generate_access_token : ℕ → String → String → ℕ → Db → String × Db
generate_access_token now fresh username expiration db =
    elim (select_one (is_current username now) db.tokens) [
      | some r ↦ (
        r.token,
        record db {
          tokens =
              update_where (λ (x : TokenRow). x.token == r.token)
                (λ x. record x { expiration = now + expiration }) db.tokens;
        },
      )
      | none ↦ (
        fresh,
        record db {
          tokens =
              upsert (λ (x : TokenRow). x.username == username)
                (record { username = username; token = fresh; expiration = now + expiration })
                (λ x. record x { token = fresh; expiration = now + expiration }) db.tokens;
        },
      )
    ]

unfoldable pub verify_access_token : ℕ → String → Db → Outcome String
verify_access_token now token db = elim (select_one (verifies token now) db.tokens) [
  | none ↦ failure "Access token not found"
  | some r ↦ success r.username
]

-- The token names at most the given user.
abbrev pub belongs_to : String → String → List TokenRow → Bool
belongs_to token username rs = all (λ r. not (r.token == token) || r.username == username) rs

verifies-update :
    (now later e : ℕ) (token username : String) (rs : List TokenRow)
    → belongs_to token username rs ≡ true
    → later < e
    → (r : TokenRow) → select_one (is_current username now) rs ≡ some r
    → r.token ≡ token
    → (x : TokenRow) × (select_one
          (verifies token later)
          (update_where (λ (y : TokenRow). y.token == token) (λ y. record y { expiration = e }) rs)
        ≡ some x)
      × (x.username ≡ username)
unfolding select_one update_where
verifies-update now later e token username [] b l r h t = cc
verifies-update now later e token username (y ∷ ys) b l r h t =
    elim (Bool-cases (y.token == token)) [
      | inl q ↦
          (record y { expiration = e }, ground arith, (eq_iff y.username username).0 (ground arith))
      | inr q ↦
          let (x, s, o) =
            verifies-update now later e token username ys (ground arith) l r
              (ground (arith, eq_iff y.token token)) t in
          (x, ground arith, o)
    ]

verifies-upsert :
    (later e : ℕ) (token username : String) (rs : List TokenRow)
    → belongs_to token username rs ≡ true
    → later < e
    → (x : TokenRow) × (select_one (verifies token later) (
          upsert
            (λ (y : TokenRow). y.username == username)
            (record { username = username; token = token; expiration = e })
            (λ y. record y { token = token; expiration = e })
            rs)
        ≡ some x)
      × (x.username ≡ username)
unfolding select_one upsert
verifies-upsert later e token username [] b l = (
  record { username = username; token = token; expiration = e },
  ground (arith, eq_refl token),
  refl,
)
verifies-upsert later e token username (y ∷ ys) b l = elim (Bool-cases (y.username == username)) [
  | inl q ↦ (
    record y { token = token; expiration = e },
    ground (arith, eq_refl token),
    (eq_iff y.username username).0 q,
  )
  | inr q ↦
      let (x, s, o) = verifies-upsert later e token username ys (ground arith) l in
      (x, ground arith, o)
]

-- An access token that is generated for a user verifies as that user's until it expires, if no
-- other user has the same token.
pub verify-generate :
    (now later expiration : ℕ) (fresh username token : String) (db db' : Db)
    → generate_access_token now fresh username expiration db ≡ (token, db')
    → belongs_to token username db.tokens ≡ true
    → later < now + expiration
    → verify_access_token later token db' ≡ success username
unfolding generate_access_token verify_access_token
verify-generate now later expiration fresh username token db db' h b l =
    elim (Option-cases (select_one (is_current username now) db.tokens)) [
      | inl q ↦
          let t : fresh ≡ token = ground (arith, q, h) in
          let b' = rw (← t) at b in
          let (x, s, o) = verifies-upsert later (now + expiration) fresh username db.tokens b' l in
          ground (arith, q, h, s, o)
      | inr (r, q) ↦
          let t : r.token ≡ token = ground (arith, q, h) in
          let b' = rw (← t) at b in
          let (x, s, o) =
            verifies-update now later (now + expiration) r.token username db.tokens b' l r q refl in
          ground (arith, q, h, s, o)
    ]
