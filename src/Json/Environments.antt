-- ===== src/Json/Environments.antt =====
-- The forms of the classes in environment_definitions.py.
use netunicorn.Common.{
  String, Bool, true, false, ◌&&◌, Option, none, some, List, [], ◌∷◌, ◌==◌, ◌≡◌, refl, ◌∙◌, arith,
  all, eq_iff, if◌then◌else◌, Option-cases, inl, inr,
}
use netunicorn.Base.{
  RuntimeContext, BuildContext, EnvironmentKind, docker_image, shell_execution, other_environment,
  EnvironmentDefinition,
}
use netunicorn.Json.{
  Json, null, number, text, object, Members, member, no_members, Encoding, ◌>>=◌, get, members_of,
  text_of, optional, optional_of, entries, texts, texts_of, dict, dict_of, texts-back, dict-back,
}

-- A number of a port mapping: a number in JSON, where its text is one.
abbrev pub port_json : Encoding → String → Json
port_json c t = elim (c.int_of t) [ none ↦ text t | some n ↦ number n ]

abbrev pub port_from : Encoding → Json → Option String
port_from c (number n) = some (c.numeral n)
port_from c (text t) = some t
port_from c j = none

-- `{int(k): v for k, v in …}`
abbrev pub ports_from : Encoding → Members → Option (List (String × String))
ports_from c no_members = some []
ports_from c (member k j ms) = c.int_of k >>= λ n.
    port_from c j >>= λ v. ports_from c ms >>= λ rest. some ((c.numeral n, v) ∷ rest)

unfoldable pub runtime_context_json : Encoding → RuntimeContext → Json
runtime_context_json c r = object (
    member "ports_mapping" (object (entries (port_json c) r.ports_mapping)) (
      member "environment_variables" (dict r.environment_variables) (
        member "additional_arguments" (texts r.additional_arguments)
          (member "network" (optional text r.network) no_members))))

-- `data.get("network")`
abbrev pub get_or_null : String → Members → Json
get_or_null key ms = elim (get key ms) [ none ↦ null | some j ↦ j ]

unfoldable pub runtime_context_from : Encoding → Json → Option RuntimeContext
runtime_context_from c j = members_of j >>= λ data_.
    get "ports_mapping" data_ >>= members_of >>= ports_from c >>= λ ports_mapping.
    get "environment_variables" data_ >>= dict_of text_of >>= λ environment_variables.
    get "additional_arguments" data_ >>= texts_of >>= λ additional_arguments.
    optional_of text_of (get_or_null "network" data_) >>= λ network. some (record {
      ports_mapping = ports_mapping;
      environment_variables = environment_variables;
      network = network;
      additional_arguments = additional_arguments;
    })

unfoldable pub build_context_json : BuildContext → Json
build_context_json b = object (
    member "python_version" (text b.python_version)
      (member "cloudpickle_version" (optional text b.cloudpickle_version) no_members))

unfoldable pub build_context_from : Json → Option BuildContext
build_context_from j = members_of j >>= λ data_.
    get "python_version" data_ >>= text_of >>= λ python_version.
    get "cloudpickle_version" data_ >>= optional_of text_of >>= λ cloudpickle_version.
    some (record { python_version = python_version; cloudpickle_version = cloudpickle_version })

-- `__json__` of DockerImage, and of EnvironmentDefinition for all other classes.
unfoldable pub environment_json : Encoding → EnvironmentDefinition → Json
unfolding runtime_context_json build_context_json
environment_json c e =
    let plain =
      member "commands" (texts e.commands)
        (member "runtime_context" (runtime_context_json c e.runtime_context) no_members) in
    elim e.kind [
      | docker_image ↦ object (
          member "image" (optional text e.image)
            (member "build_context" (build_context_json e.build_context) plain))
      | shell_execution ↦ object plain
      | other_environment k ↦ object plain
    ]

abbrev pub no_build_context : BuildContext
no_build_context = record { python_version = ""; cloudpickle_version = none }

-- `ShellExecution.from_json`; without "runtime_context" it raises ValueError.
unfoldable pub shell_execution_from : Encoding → Json → Option EnvironmentDefinition
unfolding runtime_context_from
shell_execution_from c j = members_of j >>= λ data_.
    get "commands" data_ >>= texts_of >>= λ commands.
    get "runtime_context" data_ >>= runtime_context_from c >>= λ runtime_context. some (record {
      kind = shell_execution;
      commands = commands;
      image = none;
      build_context = no_build_context;
      runtime_context = runtime_context;
    })

-- `DockerImage.from_json`; without "image" it raises ValueError.
unfoldable pub docker_image_from : Encoding → Json → Option EnvironmentDefinition
unfolding runtime_context_from build_context_from
docker_image_from c j = members_of j >>= λ data_. get "commands" data_ >>= texts_of >>= λ commands.
    get "image" data_ >>= optional_of text_of >>= λ image.
    get "build_context" data_ >>= build_context_from >>= λ build_context.
    get "runtime_context" data_ >>= runtime_context_from c >>= λ runtime_context. some (record {
      kind = docker_image;
      commands = commands;
      image = image;
      build_context = build_context;
      runtime_context = runtime_context;
    })

-- The name of the class, and the class of a name; another name of the module has no such form.
abbrev pub kind_name : EnvironmentKind → String
kind_name docker_image = "DockerImage"
kind_name shell_execution = "ShellExecution"
kind_name (other_environment k) = k

unfoldable pub environment_from : Encoding → String → Json → Option EnvironmentDefinition
unfolding shell_execution_from docker_image_from
environment_from c name j =
    if name == "ShellExecution"
    then shell_execution_from c j
    else if name == "DockerImage"
    then docker_image_from c j
    else none

-- The text is that of a number, as `str` writes it, or that of none.
abbrev pub is_number : Encoding → String → Bool
is_number c t = elim (c.int_of t) [ none ↦ false | some n ↦ c.numeral n == t ]

abbrev pub has_number_ports : Encoding → List (String × String) → Bool
has_number_ports c ports = all (λ entry. is_number c entry.0 && is_number c entry.1) ports

-- The definition is of a class that is known, a ShellExecution has no fields of DockerImage, and the
-- ports are numbers.
abbrev pub IsRegular : Encoding → EnvironmentDefinition → Type 0
IsRegular c e =
    (has_number_ports c e.runtime_context.ports_mapping ≡ true) × (elim e.kind as (λ k. Type 0) [
      | docker_image ↦ Unit {0}
      | shell_execution ↦ (e.image ≡ none) × (e.build_context ≡ no_build_context)
      | other_environment k ↦ ⊥
    ])

pub optional-back : (o : Option String) → optional_of text_of (optional text o) ≡ some o
optional-back none = refl
optional-back (some t) = refl

number-back :
    {B : Type 0} (c : Encoding) (t : String) (f : String → Option B)
    → is_number c t ≡ true
    → (c.int_of t >>= λ n. f (c.numeral n)) ≡ f t
number-back c t f h = elim (Option-cases (c.int_of t)) [
  | inl q ↦ ground (arith, q, h)
  | inr (n, q) ↦
      let e : c.numeral n ≡ t = (eq_iff (c.numeral n) t).0 (ground (arith, q, h)) in rw (q, e) refl
]

port-back :
    (c : Encoding) (t : String) → is_number c t ≡ true → port_from c (port_json c t) ≡ some t
port-back c t h = elim (Option-cases (c.int_of t)) [
  | inl q ↦ ground (arith, q, h)
  | inr (n, q) ↦
      let e : c.numeral n ≡ t = (eq_iff (c.numeral n) t).0 (ground (arith, q, h)) in
      ground (arith, q, e)
]

ports-back :
    (c : Encoding) (ports : List (String × String))
    → has_number_ports c ports ≡ true
    → ports_from c (entries (port_json c) ports) ≡ some ports
ports-back c [] h = refl
ports-back c (port ∷ ports) h =
    let v = port-back c port.1 (ground (arith, h)) in
    let rest = ports-back c ports (ground (arith, h)) in
    number-back c port.0
      (λ k. port_from c (port_json c port.1) >>= λ v.
        ports_from c (entries (port_json c) ports) >>= λ es. some ((k, v) ∷ es))
      (ground (arith, h))
    ∙ (rw (v, rest) refl)

runtime_context-back :
    (c : Encoding) (r : RuntimeContext)
    → has_number_ports c r.ports_mapping ≡ true
    → runtime_context_from c (runtime_context_json c r) ≡ some r
unfolding runtime_context_from runtime_context_json
runtime_context-back c r h =
    rw
      (
        ports-back c r.ports_mapping h,
        dict-back r.environment_variables,
        texts-back r.additional_arguments,
        optional-back r.network,
      )
      refl

build_context-back : (b : BuildContext) → build_context_from (build_context_json b) ≡ some b
unfolding build_context_from build_context_json
build_context-back b = rw (optional-back b.cloudpickle_version) refl

-- An environment definition of a class that is known reads back as it was, if its ports are numbers.
pub environment-back :
    (c : Encoding) (e : EnvironmentDefinition)
    → IsRegular c e
    → environment_from c (kind_name e.kind) (environment_json c e) ≡ some e
unfolding environment_from environment_json
environment-back c e regular =
    let t = texts-back e.commands in
    let i = optional-back e.image in
    let b = build_context-back e.build_context in
    (elim e.kind
        as (λ k.
          IsRegular c (record e { kind = k })
          → environment_from c (kind_name k) (environment_json c (record e { kind = k }))
            ≡ some (record e { kind = k })) [
              | docker_image ↦
                  λ (h, k). rw (t, i, b, runtime_context-back c e.runtime_context h) refl
              | shell_execution ↦
                  λ (h, (i, b)). rw (t, runtime_context-back c e.runtime_context h, i, b) refl
              | other_environment k ↦ λ (h, k). absurd k
            ])
      regular
