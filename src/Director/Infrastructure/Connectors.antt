-- ===== src/Director/Infrastructure/Connectors.antt =====
-- The connectors of kernel.py: which are there, what they say of themselves, and the nodes that
-- they offer. The order of the set of their names is an argument.
pub mod Seen
use netunicorn.Common.{
  ℕ, String, Bool, true, false, not, ◌&&◌, Option, none, some, List, [], ◌∷◌, ◌==◌, map, keep, all,
  concat, insert, has_text, if◌then◌else◌,
}
use netunicorn.Pools.{Nodes, Items, countable, end, pool, set_property}

-- What `initialize_connector` reads of a configuration.
pub record ConnectorConfig : Type 0 where
  pub enabled : Option Bool
  pub module_ : Option String
  pub class_ : Option String

abbrev pub is_disabled : ConnectorConfig → Bool
is_disabled config = elim config.enabled [ none ↦ false | some b ↦ not b ]

-- How the instantiation ends: the class cannot be loaded, which ends the service, or the connector
-- raises, and is left out, or it is there.
pub data Instantiation : Type 0 where
  not_loaded raises initialized : Instantiation

abbrev pub instantiate : Instantiation → String → List String → Option (List String)
instantiate not_loaded name connectors = none
instantiate raises name connectors = some connectors
instantiate initialized name connectors =
    some (if has_text name connectors then connectors else name ∷ connectors)

-- `none` is an exception, as the ValueError of a missing module or class.
unfoldable pub initialize_connector :
    (String → Instantiation) → String → ConnectorConfig → List String → Option (List String)
initialize_connector outcome name config connectors =
    if is_disabled config then some connectors else elim config.module_ [
      | none ↦ none
      | some m ↦ elim config.class_ [
        | none ↦ none
        | some c ↦ instantiate (outcome name) name connectors
      ]
    ]

-- The loop of `initialize`.
unfoldable pub initialize :
    (String → Instantiation) → List (String × ConnectorConfig) → List String → Option (List String)
unfolding initialize_connector
initialize outcome [] connectors = some connectors
initialize outcome ((name, config) ∷ configs) connectors =
    elim (initialize_connector outcome name config connectors) [
      | none ↦ none
      | some connectors' ↦ initialize outcome configs connectors'
    ]

-- `connectors.pop`
abbrev pub pop : String → List String → List String
pop name connectors = keep (λ c. not (c == name)) connectors

-- A line of `health`: the name, the status and the description.
abbrev pub Line : Type 0
Line = String × Bool × String

-- The loop of `health`: a connector that raises is moved to unavailable.
unfoldable pub health_lines :
    (String → Option (Bool × String)) → List String → List String → List Line × List String
health_lines answers [] connectors = ([], connectors)
health_lines answers (name ∷ names) connectors = elim (answers name) [
  | some (ok, description) ↦
      let rest = health_lines answers names connectors in ((name, ok, description) ∷ rest.0, rest.1)
  | none ↦
      let rest = health_lines answers names (pop name connectors) in
      ((name, false, "Connector raised an exception") ∷ rest.0, rest.1)
]

-- `database` is `none`, or the text of an exception.
unfoldable pub health :
    Option String → (String → Option (Bool × String)) → List String → (ℕ × List Line) × List String
unfolding health_lines
health database answers connectors =
    let first : Line = elim database [
      | none ↦ ("database", true, "OK")
      | some e ↦ ("database", false, e)
    ] in
    let rest = health_lines answers connectors connectors in
    let lines = first ∷ rest.0 in ((if all (λ line. line.1) lines then 200 else 500, lines), rest.1)

-- The loop of `get_nodes`, for one user and one context.
unfoldable pub collect_pools :
    (String → Option Nodes) → List String → List String → Items × List String
collect_pools answers [] connectors = (end, connectors)
collect_pools answers (name ∷ names) connectors = elim (answers name) [
  | some nodes ↦
      let rest = collect_pools answers names connectors in
      (pool (set_property name nodes) rest.0, rest.1)
  | none ↦ collect_pools answers names (pop name connectors)
]

-- `get_nodes`; its status code is always 200.
unfoldable pub get_nodes : (String → Option Nodes) → List String → Items × List String
unfolding collect_pools
get_nodes answers connectors = collect_pools answers connectors connectors
