-- ===== src/Director/Http.antt =====
-- What the HTTP front ends of the mediator and of the infrastructure share: exceptions, headers and
-- contexts. FastAPI hands a handler its parameters and answers an exception.
use netunicorn.Common.{
  ℕ, String, Option, none, some, List, [], ◌∷◌, ◌==◌, lookup, ◌≡◌, refl, ◌⊎◌, inl, inr,
  if◌then◌else◌,
}
use netunicorn.Base.{Contexts}

-- How a handler ends: it returns, or raises HTTPException with a status code and a detail, or
-- another exception.
pub data Handled {ℓ} (A : Type ℓ) : Type ℓ where
  returned : A → Handled A
  http_exception : ℕ → String → Handled A
  other_exception : Handled A

infixl 5 ◌>>=◌
abbrev pub ◌>>=◌ {ℓ κ} : {A : Type ℓ} {B : Type κ} → Handled A → (A → Handled B) → Handled B
returned a >>= f = f a
http_exception code text >>= f = http_exception code text
other_exception >>= f = other_exception

pub Handled-cases {ℓ} :
    {A : Type ℓ} (h : Handled A)
    → ((a : A) × (h ≡ returned a))
      ⊎ ((code : ℕ) × (e : String) × (h ≡ http_exception code e))
      ⊎ (h ≡ other_exception)
Handled-cases (returned a) = inl (a, refl)
Handled-cases (http_exception code e) = inr (inl (code, e, refl))
Handled-cases other_exception = inr (inr refl)

-- The headers of a request; their names are in lower case.
abbrev pub Headers : Type 0
Headers = List (String × String)

-- The header that FastAPI reads for the parameter `netunicorn_auth_context`.
abbrev pub auth_context_name : String
auth_context_name = "netunicorn-auth-context"

-- The header that the client and the mediator send.
abbrev pub authentication_context_name : String
authentication_context_name = "netunicorn-authentication-context"

abbrev pub netunicorn_auth_context : Headers → Option String
netunicorn_auth_context headers = lookup auth_context_name headers

-- The functions of the json module on contexts; null is `none`. `loads` gives no value where it
-- raises JSONDecodeError.
pub record JsonText : Type 0 where
  pub loads : String → Option (Option Contexts)
  pub dumps : Option Contexts → String

-- `parse_context`, which both front ends have.
unfoldable pub parse_context : JsonText → Option String → Handled (Option Contexts)
parse_context json none = returned none
parse_context json (some text) =
    if text == ""
    then returned none
    else if text == "null"
    then returned none
    else elim (json.loads text) [
      | none ↦ http_exception 400 "Couldn't parse the context"
      | some contexts ↦ returned contexts
    ]

-- The header with a context, as the client and the mediator write it.
abbrev pub context_header : JsonText → Option Contexts → Headers
context_header json contexts = (authentication_context_name, json.dumps contexts) ∷ []

-- The context of one connector, as the infrastructure takes it from the contexts.
abbrev pub connector_context : String → Option Contexts → Option (List (String × String))
connector_context name none = none
connector_context name (some contexts) = lookup name contexts
