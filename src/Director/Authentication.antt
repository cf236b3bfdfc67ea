-- ===== src/Director/Authentication.antt =====
-- netunicorn-director/netunicorn-authentication/src/netunicorn/director/authentication/__main__.py:
-- the service that knows the users. `checkpw` of bcrypt is a parameter.
use netunicorn.Common.{String, Bool, false, Option, none, some, List, ◌==◌}
use netunicorn.Director.Db.{Db, UserRow, select_one}

abbrev pub is_user : String → UserRow → Bool
is_user username r = r.username == username

-- `auth`: false is the answer 401.
unfoldable pub auth : (String → String → Bool) → String → String → Db → Bool
auth checkpw username token db = elim (select_one (is_user username) db.authentication) [
  | none ↦ false
  | some r ↦ checkpw token r.hash
]

-- `verify_sudo`: an unknown user is none.
unfoldable pub verify_sudo : String → Db → Bool
verify_sudo username db = elim (select_one (is_user username) db.authentication) [
  | none ↦ false
  | some r ↦ r.sudo
]

-- `get_tags`
unfoldable pub get_tags : String → Db → Option (List String)
get_tags username db = elim (select_one (is_user username) db.authentication) [
  | none ↦ none
  | some r ↦ r.accesstags
]
