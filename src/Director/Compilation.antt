-- ===== src/Director/Compilation.antt =====
-- netunicorn-director/netunicorn-compilation/src/netunicorn/director/compilation/__main__.py: the
-- service that builds the images of the experiments. The column of the execution graph is always
-- there, and the commands are a list.
pub mod Progress
use netunicorn.Common.{
  ℕ, zero, suc, String, Bool, true, false, not, ◌&&◌, ◌||◌, Option, none, some, List, [], ◌∷◌, ◌++◌,
  ◌==◌, map, concat, nat_eq, is_some, if◌then◌else◌,
}
use netunicorn.Director.Db.{Db, CompilationRow, select_one, update_where}
use netunicorn.Director.Mediator.Preparation.{is_compilation}

-- How `subprocess.run` ends, with what the process wrote as `bytes.decode` reads it; `none` is a
-- UnicodeDecodeError.
pub data Build : Type 0 where
  raised : String → Build
  completed : (returncode : ℕ) (stdout stderr : Option String) → Build

-- What the service asks of Python and of its host: the text up to the second dot of a version that
-- matches `\d\.\d+\.\d+`, a command without the prefix "sudo ", the variable
-- NETUNICORN_EXECUTOR_VERSION, and Docker, which is given an architecture, the name of an image, the
-- lines of the Dockerfile and the execution graph beside it.
pub record Host : Type 0 where
  pub short_version : String → Option String
  pub without_sudo : String → String
  pub executor_version : Option String
  pub build : String → String → List String → Option String → Build

-- `record_compilation_result`
unfoldable pub record_compilation_result : String → String → Bool → String → Db → Db
record_compilation_result experiment_id compilation_id success log db = record db {
  compilations =
      update_where (is_compilation experiment_id compilation_id)
        (λ r. record r { status = some success; result = some log }) db.compilations;
}

abbrev pub is_pending : CompilationRow → Bool
is_pending r = not (is_some r.status)

abbrev pub is_known_architecture : String → Bool
is_known_architecture a = a == "linux/arm64" || a == "linux/amd64"

abbrev copy_line : String → Option String → List String
copy_line id none = []
copy_line id (some graph) =
    concat "COPY " (concat id ".execution_graph netunicorn.execution_graph") ∷ []

abbrev package_name : Option String → String
package_name none = "netunicorn-executor"
package_name (some version) = concat "netunicorn-executor==" version

abbrev cloudpickle_line : Option String → List String
cloudpickle_line none = []
cloudpickle_line (some version) = concat "RUN pip install cloudpickle==" version ∷ []

-- `filelines`
unfoldable pub filelines : Host → String → CompilationRow → List String
filelines host python_version r =
    map (λ x. concat x "\n")
      (concat "FROM python:" (concat python_version "-slim")
        ∷ "ENV DEBIAN_FRONTEND=noninteractive"
        ∷ "RUN apt update"
        ∷ "RUN apt install -y iproute2 iputils-ping net-tools sudo procps"
        ∷ (map (λ x. concat "RUN " (host.without_sudo x)) r.environment_definition.commands
            ++ (copy_line r.compilation_id r.execution_graph
                ++ (concat "RUN pip install "
                      (concat (package_name host.executor_version) " netunicorn-library")
                    ∷ (cloudpickle_line r.environment_definition.build_context.cloudpickle_version
                        ++ ("CMD [\"python\", \"-m\", \"netunicorn.executor\"]" ∷ []))))))

-- The two texts that are joined.
abbrev pub joined_output : Option String → Option String → Option String
joined_output none stderr = none
joined_output (some o) none = none
joined_output (some o) (some e) = some (concat o (concat "\n" e))

-- Both the handler of the exception and the code behind it decode what was written.
abbrev pub build_result : Build → Option (Bool × String)
build_result (raised e) = some (false, e)
build_result (completed code stdout stderr) = elim (joined_output stdout stderr) [
  | none ↦ none
  | some log ↦
      some (if nat_eq code 0 then (true, log) else (false, concat "non-zero exit status\n" log))
]

-- The status and the log that a request gets; `none` is an exception that leaves the call.
unfoldable pub compile : Host → CompilationRow → Option (Bool × String)
unfolding filelines
compile host r = elim r.environment_definition.image [
  | none ↦ some (false, "Container image name is not provided")
  | some image ↦
      if not (is_known_architecture r.architecture)
      then some (false, "Unknown architecture for docker container")
      else elim (host.short_version r.environment_definition.build_context.python_version) [
        | none ↦ some (false, "Unknown Python version")
        | some python_version ↦
            build_result
              (host.build r.architecture image (filelines host python_version r) r.execution_graph)
      ]
]

-- One call; the answer says whether there was a request, and `none` is an exception, before which
-- nothing is recorded.
unfoldable pub docker_compilation_cycle : Host → Db → Option (Bool × Db)
unfolding compile record_compilation_result
docker_compilation_cycle host db = elim (select_one is_pending db.compilations) [
  | none ↦ some (false, db)
  | some r ↦ elim (compile host r) [
    | none ↦ none
    | some result ↦
        some (true, record_compilation_result r.experiment_id r.compilation_id result.0 result.1 db)
  ]
]

-- As many turns of the loop in `main`, while no other service writes. An exception ends the service,
-- which leaves the tables as they are.
unfoldable pub cycles : Host → ℕ → Db → Db
unfolding docker_compilation_cycle
cycles host zero db = db
cycles host (suc n) db = elim (docker_compilation_cycle host db) [
  | none ↦ db
  | some (found, db') ↦ cycles host n db'
]
