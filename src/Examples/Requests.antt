-- ===== src/Examples/Requests.antt =====
-- Tests of the smaller services: what they answer to concrete requests.
use netunicorn.Common.{
  is_some, String, Bool, true, false, none, some, List, [], ◌∷◌, ◌==◌, ◌≡◌, refl, if◌then◌else◌,
}
use netunicorn.Base.{Deployment}
use netunicorn.Director.Outcome.{failure}
use netunicorn.Director.Db.{Db, CompilationRow, select_one, update_where}
use netunicorn.Director.Authentication.{auth, verify_sudo, get_tags}
use netunicorn.Director.Compilation.{Host, completed, compile, is_pending, docker_compilation_cycle}
use netunicorn.Director.Infrastructure.Connectors.{
  ConnectorConfig, Instantiation, raises, initialized, initialize, health,
}
use netunicorn.Director.Mediator.Checks.{check_runtime_context, check_sudo_access}
use netunicorn.Examples.Services.{on_pi, tables}

-- Docker writes the Dockerfile's second command line, so that the test sees it.
abbrev fifth : List String → String
fifth (a ∷ b ∷ c ∷ d ∷ e ∷ rest) = e
fifth ls = ""

abbrev host : Host
host = record {
  short_version = λ v. if v == "3.10.4" then some "3.10" else none;
  without_sudo = λ x. if x == "sudo apt install -y curl" then "apt install -y curl" else x;
  executor_version = none;
  build = λ architecture image lines graph. completed 0 (some (fifth lines)) (some image);
}

abbrev request : CompilationRow
request = record {
  experiment_id = "e1";
  compilation_id = "u1";
  status = none;
  result = none;
  architecture = "linux/arm64";
  execution_graph = some "graph";
  environment_definition = record on_pi.environment_definition {
    commands = "sudo apt install -y curl" ∷ [];
  };
}

-- The prefix "sudo " of a command is taken off.
compile_test : compile host request ≡ some (true, "RUN apt install -y curl\n\ncurl")
unfolding compile
compile_test = refl

windows_test :
    compile host (record request { architecture = "win/amd64" })
    ≡ some (false, "Unknown architecture for docker container")
unfolding compile
windows_test = refl

-- A request that was handled is not taken up again.
handled_test :
    elim (docker_compilation_cycle host (record tables { compilations = request ∷ [] }))
      as (λ x. Bool) [
        | none ↦ true
        | some (found, db) ↦ is_some (select_one is_pending db.compilations)
      ]
    ≡ false
unfolding docker_compilation_cycle select_one update_where
handled_test = refl

abbrev with_user : Db
with_user = record tables {
  authentication =
      record { username = "ann"; hash = "h"; sudo = false; accesstags = some ("lab" ∷ []) } ∷ [];
}

auth_test :
    (auth (λ t h. t == "secret") "ann" "secret" with_user ≡ true)
    × (auth (λ t h. t == "secret") "bob" "secret" with_user ≡ false)
    × (verify_sudo "ann" with_user ≡ false)
    × (get_tags "ann" with_user ≡ some ("lab" ∷ []))
unfolding auth verify_sudo get_tags select_one
auth_test = (refl, refl, refl, refl)

-- A disabled connector and one that raises are left out; a missing module ends the service.
abbrev config : ConnectorConfig
config = record { enabled = none; module_ = some "m"; class_ = some "C" }

abbrev outcome : String → Instantiation
outcome name = if name == "aws" then raises else initialized

initialize_test :
    (initialize outcome
        (("ssh", config) ∷ ("aws", config) ∷ ("old", record config { enabled = some false }) ∷ [])
        []
      ≡ some ("ssh" ∷ []))
    × (initialize outcome (("bad", record config { module_ = none }) ∷ []) [] ≡ none)
unfolding initialize
initialize_test = (refl, refl)

health_test :
    (health none (λ name. if name == "aws" then none else some (true, "OK")) ("ssh" ∷ "aws" ∷ [])).1
    ≡ "ssh" ∷ []
unfolding health
health_test = refl

-- A value with a space, for which the test of spaces stands.
abbrev has_space : String → Bool
has_space s = s == "a b"

abbrev spaced : Deployment
spaced = record on_pi {
  environment_definition = record on_pi.environment_definition {
    runtime_context = record on_pi.environment_definition.runtime_context {
      network = some "a b";
      additional_arguments = "--privileged" ∷ [];
    };
  };
}

spaced_test :
    (check_runtime_context
        (λ s. true)
        has_space
        (record { deployment_map = spaced ∷ []; deployment_context = none })
      ≡ failure "Network name in runtime context must not contain spaces")
    × (check_sudo_access false (record { deployment_map = spaced ∷ []; deployment_context = none })
        ≡ failure "not allowed to use additional arguments")
unfolding check_runtime_context check_sudo_access
spaced_test = (refl, refl)
