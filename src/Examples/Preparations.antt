-- ===== src/Examples/Preparations.antt =====
-- The preparation, the compiler and the life of an experiment on concrete inputs.
use netunicorn.Common.{
  ◌⊎◌, ℕ, zero, suc, String, Bool, true, false, none, some, List, [], ◌∷◌, ◌==◌, ◌≡◌, ◌↔◌, refl,
  arith, is_some, get_elem?, lookup, Bool-cases, inl, inr, eq_iff,
}
use netunicorn.Base.{running, value, connector, Deployment, Experiment}
use netunicorn.Director.Db.{Db, select_one, upsert, update_where}
use netunicorn.Director.Mediator.Experiments.{
  get_experiment_status, get_experiment_id_and_status, start_experiment,
}
use netunicorn.Director.Mediator.Experiments.Listing.{
  get_experiments, answer, lookup-get_experiments,
}
use netunicorn.Director.Mediator.Nodes.{is_locked}
use netunicorn.Director.Mediator.Preparation.{Key, Context, Preparing, prepare_all}
use netunicorn.Director.Mediator.Preparation.Task.{
  Waiting, prepare_items, begin, everything_compiled,
}
use netunicorn.Director.Mediator.Preparation.Refused.{locked-prepare_all}
use netunicorn.Director.Compilation.{Host, completed, cycles}
use netunicorn.Director.Compilation.Progress.{pending, compiled-cycles}
use netunicorn.Director.Processor.Statuses.{status_of}
use netunicorn.Director.Life.{begins, starts, Step, Run, stop, step, IsLaunched}
use netunicorn.Director.Life.Refinement.{running-run}
use netunicorn.Examples.Services.{on_pi, tables}

-- A deployment without an image, and one on a node that another user has locked.
abbrev new_image : Deployment
new_image = record on_pi {
  prepared = false;
  environment_definition = record on_pi.environment_definition { image = none };
}

abbrev two_deployments : List Deployment
two_deployments = new_image ∷ new_image ∷ []

abbrev uuid : ℕ → String
uuid zero = "u0"
uuid (suc zero) = "u1"
uuid (suc (suc n)) = "u2"

-- The hash codes of this example are the keys themselves.
String-discrete : Discrete String
String-discrete s t = elim (Bool-cases (s == t)) [
  | inl q ↦ yes ((eq_iff s t).0 q)
  | inr q ↦ no (λ e. ground (arith, e, q, (eq_iff s t).1 e))
]

abbrev Key-discrete : Discrete Key
Key-discrete = hlevel String-discrete

abbrev same_key : Key → Key → Bool
same_key a b = elim (Key-discrete a b) [ yes e ↦ true | no n ↦ false ]

same_key_iff : (a b : Key) → (same_key a b ≡ true) ↔ (a ≡ b)
same_key_iff a b =
    elim (Key-discrete a b)
      as (λ d. ((elim d as (λ x. Bool) [ yes e ↦ true | no n ↦ false ]) ≡ true) ↔ (a ≡ b)) [
        | yes e ↦ (λ h. e, λ h. refl)
        | no n ↦ (λ h. cc, λ h. absurd (n h))
      ]

abbrev context : Context
context = record {
  Code = Key;
  same = same_key;
  hash = λ k. k;
  registry = "registry";
  uuid = uuid;
  experiment_id = "e2";
  username = "bob";
}

abbrev new_experiment : Experiment
new_experiment = record { deployment_map = new_image ∷ []; deployment_context = none }

abbrev prepared : Waiting context × Db
prepared = prepare_items context new_experiment tables

abbrev first_waiting : Deployment
first_waiting = elim (get_elem? prepared.0.items 0) [ none ↦ new_image | some i ↦ i.0 ]

-- The node is locked for another user.
abbrev locked_tables : Db
locked_tables = record tables {
  locks = record { node_name = "pi"; connector = "ssh"; username = "eve" } ∷ [];
}

abbrev locked_start : Preparing context
locked_start = record { db = locked_tables; envs = []; drawn = 0 }

locked-prepare_all_example :
    (d : Deployment) × (get_elem? (prepare_all context two_deployments locked_start).0 1
      ≡ some (d, false))
    × (d.prepared ≡ false)
    × (is_some d.error ≡ true)
unfolding is_locked select_one connector
locked-prepare_all_example =
    locked-prepare_all context two_deployments locked_start 1 new_image refl refl

-- The node's host has no Docker.
abbrev host : Host
host = record {
  short_version = λ v. some "3.10";
  without_sudo = λ x. x;
  executor_version = none;
  build = λ a i ls g. completed 127 (some "") (some "docker: command not found");
}

one_pending : pending prepared.1.compilations ≡ 1
unfolding prepare_items select_one upsert
one_pending = refl

compiled-cycles_example :
    everything_compiled context prepared.0.envs (cycles host 1 prepared.1) ≡ true
compiled-cycles_example =
    compiled-cycles host context prepared.0.envs 1 prepared.1 (λ a i ls g. refl)
      (omega (arith, one_pending))

lookup-get_experiments_example :
    lookup "speed" (get_experiments "ann" tables)
    ≡ answer (get_experiment_status "speed" "ann" tables)
lookup-get_experiments_example = lookup-get_experiments "ann" "speed" tables

-- An experiment is prepared while another one is started.
abbrev begun : Db
begun = (begin [] context 200 "ping" new_experiment tables).1

abbrev both : Db
both = (start_experiment 210 none "speed" "ann" begun).1

abbrev begins_ping : Step tables begun
unfolding select_one
begins_ping = begins [] context 200 "ping" new_experiment tables refl

abbrev starts_speed : Step begun both
unfolding begin prepare_items select_one upsert update_where
starts_speed = starts 210 none "speed" "ann" begun (refl, (refl, tt))

abbrev both-run : Run tables both
both-run = step tables begun both begins_ping (step begun both both starts_speed (stop both))

running-run_example : (status_of "e1" tables ≡ some (value running)) ⊎ IsLaunched "e1" both-run
unfolding begin prepare_items select_one upsert update_where start_experiment
    get_experiment_id_and_status
running-run_example = running-run "e1" both-run refl
