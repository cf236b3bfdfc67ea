-- ===== src/Examples/Services.antt =====
-- The services of the director on concrete inputs.
use netunicorn.Common.{
  String, List, not, all, has_text, ◌||◌, if◌then◌else◌, arith, Bool, true, false, ◌&&◌, Option,
  none, some, [], ◌∷◌, ◌==◌, ◌≡◌, refl, any, nat_eq, lookup, insert,
}
use netunicorn.Common.Int.{pos}
use netunicorn.Base.{
  connector, ready, running, finished, value, docker_image, text, texts, connector, Deployment,
}
use netunicorn.Director.Outcome.{success, failure}
use netunicorn.Director.Db.{
  Db, ExperimentRow, ExecutorRow, FlagRow, LockRow, select_one, update_where,
}
use netunicorn.Director.Gateway.{FlagValues, receive_result}
use netunicorn.Director.Mediator.Experiments.{
  has_id, get_experiment_id_and_status, delete_experiment,
}
use netunicorn.Director.Mediator.Experiments.Lifecycle.{get-delete_experiment}
use netunicorn.Director.Mediator.Tokens.{generate_access_token}
use netunicorn.Director.Processor.{stored, update_experiment_status, lock_eq, is_in_use, lock_nodes}
use netunicorn.Director.Processor.Locks.{uses, has-lock_nodes}
use netunicorn.Director.Processor.Statuses.{status_of}
use netunicorn.Director.Processor.Heartbeat.{status_of-receive_result}
use netunicorn.Director.Processor.Status.{status_of-update_experiment_status}
use netunicorn.Director.Infrastructure.{
  Answers, background_deploy_task, background_execute_task, deploy, not_found, unavailable, started,
}
use netunicorn.Director.Infrastructure.Failures.{is_over, over-background_tasks}
use netunicorn.Director.Mediator.Executors.{joined, cancel_executors, cancel_executors_task}
use netunicorn.Director.Mediator.Executors.Ownership.{is_owned, cancel_executors-is_owned}
use netunicorn.Director.Infrastructure.Deployments.{same, any_group, deploy_lem}

-- A deployment on the node "pi" of the connector "ssh".
abbrev pub on_pi : Deployment
on_pi = record {
  node = record {
    name = "pi";
    properties =
        ("connector", text "ssh") ∷ ("netunicorn-environments", texts ("DockerImage" ∷ [])) ∷ [];
    additional_properties = [];
    architecture = "linux/arm64";
    available_environments = docker_image ∷ [];
  };
  prepared = true;
  executor_id = "x1";
  error = none;
  execution_graph = "graph";
  environment_definition = record {
    kind = docker_image;
    commands = "apt install -y curl" ∷ [];
    image = some "curl";
    build_context = record { python_version = "3.10.4"; cloudpickle_version = none };
    runtime_context = record {
      ports_mapping = [];
      environment_variables = [];
      network = none;
      additional_arguments = [];
    };
  };
  keep_alive_timeout_minutes = 10;
  cleanup = true;
}

abbrev waiting_experiment : ExperimentRow
waiting_experiment = record {
  username = "ann";
  experiment_name = "speed";
  experiment_id = "e1";
  data_ = some (record { deployment_map = on_pi ∷ []; deployment_context = none });
  status = value ready;
  error = none;
  execution_results = none;
  creation_time = 100;
  start_time = none;
  cleaned_up = false;
}

abbrev counter_flag : FlagRow
counter_flag = record { experiment_id = "e1"; key = "done"; text_value = none; int_value = pos 4 }

abbrev pub tables : Db
tables = record {
  experiments = waiting_experiment ∷ [];
  executors = [];
  locks = [];
  flags = counter_flag ∷ [];
  compilations = [];
  tokens = [];
  authentication = [];
}

get-delete_experiment_example :
    get_experiment_id_and_status "speed" "ann" (delete_experiment "u7" "speed" "ann" tables).1
    ≡ failure "not found"
unfolding get_experiment_id_and_status select_one
get-delete_experiment_example = get-delete_experiment "u7" "speed" "ann" tables (refl, tt)

abbrev greeting : FlagValues
greeting = record { text_value = some "hello"; int_value = none }

-- The same tables while the experiment is running, with an executor that is silent since 100.
abbrev silent_executor : ExecutorRow
silent_executor = record {
  experiment_id = "e1";
  executor_id = "x1";
  node_name = "pi";
  connector = "ssh";
  execution_graph = none;
  result = none;
  keepalive = some 100;
  error = none;
  finished = false;
  state = none;
}

abbrev running_tables : Db
running_tables = record tables {
  experiments = record waiting_experiment { status = value running } ∷ [];
  executors = silent_executor ∷ [];
}

abbrev after_turn : Option Db → Db
after_turn none = running_tables
after_turn (some db) = db

-- 600 seconds of silence are allowed, and 900 are over.
abbrev settled : Db
settled = after_turn (
    update_experiment_status (none ∷ some "late" ∷ []) stored stored 1000 "e1"
      (record { deployment_map = on_pi ∷ []; deployment_context = none }) 50 running_tables)

status_of-update_experiment_status_example : status_of "e1" settled ≡ some (value finished)
unfolding update_experiment_status lookup insert select_one update_where
status_of-update_experiment_status_example =
    status_of-update_experiment_status (none ∷ some "late" ∷ []) stored stored 1000 "e1"
      (record { deployment_map = on_pi ∷ []; deployment_context = none }) 50 running_tables settled
      refl

-- The executor reports at 900, so that 1000 is early enough.
abbrev heard_tables : Db
heard_tables = receive_result 900 "x1" "log" (some 1) running_tables

abbrev still_running : Db
still_running = after_turn (
    update_experiment_status [] stored stored 1000 "e1"
      (record { deployment_map = on_pi ∷ []; deployment_context = none }) 50 heard_tables)

status_of-receive_result_example : status_of "e1" still_running ≡ some (value running)
unfolding update_experiment_status lookup insert select_one update_where receive_result
status_of-receive_result_example =
    status_of-receive_result [] stored stored 0 0 1000 900 10 1 "x1" "e1" "log"
      (record { deployment_map = on_pi ∷ []; deployment_context = none }) 50 running_tables
      still_running refl refl (omega arith) refl refl refl

abbrev pi_lock : LockRow
pi_lock = record { node_name = "pi"; connector = "ssh"; username = "ann" }

has-lock_nodes_example :
    any (lock_eq pi_lock) (after_turn (lock_nodes running_tables)).locks
    ≡ any (λ r. is_in_use r && uses pi_lock r) running_tables.experiments
unfolding lock_nodes
has-lock_nodes_example =
    has-lock_nodes pi_lock running_tables (after_turn (lock_nodes running_tables)) refl

abbrev with_token : Db
with_token = (generate_access_token 100 "t1" "ann" 3600 tables).1

deploy_lem_example :
    (elim (deploy ("ssh" ∷ []) "e1" tables) as (λ x. Bool) [
      | not_found ↦ false
      | unavailable ↦ false
      | started groups ↦ same (any_group (λ c d. c == (connector d.node)) groups) true
    ])
    ≡ true
unfolding connector select_one
deploy_lem_example =
    deploy_lem ("ssh" ∷ []) "e1" tables
      (record { deployment_map = on_pi ∷ []; deployment_context = none })
      (λ c d. c == (connector d.node)) refl

-- The connector "ssh" raises, and every other one has nothing to report.
abbrev broken_ssh : Answers
broken_ssh name = if name == "ssh" then none else some []

over-background_tasks_example :
    (all
        (λ r. not (has_id "e1" r) || nat_eq r.status (value ready))
        (background_deploy_task broken_ssh "e1"
          (("ssh", on_pi ∷ []) ∷ [])
          ("ssh" ∷ [], running_tables)).1.experiments
      ≡ true)
    × (is_over "e1" "x1"
          (background_deploy_task broken_ssh "e1"
            (("ssh", on_pi ∷ []) ∷ [])
            ("ssh" ∷ [], running_tables)).1.executors
        ≡ true)
    × (is_over "e1" "x1"
          (background_execute_task broken_ssh "e1"
            (("ssh", on_pi ∷ []) ∷ [])
            ("ssh" ∷ [], running_tables)).1.executors
        ≡ true)
over-background_tasks_example =
    over-background_tasks broken_ssh "e1" "x1" (("ssh", on_pi ∷ []) ∷ []) ("ssh" ∷ [])
      running_tables refl refl refl

cancel_executors-is_owned_example :
    (all
        (λ x.
          not (has_text x.executor_id ("x1" ∷ []) && not x.finished)
          || is_owned "ann" running_tables.experiments x)
        running_tables.executors
      ≡ true)
    × ◌≡◌ {A = List String} ("x1" ∷ []) ("x1" ∷ [])
unfolding cancel_executors joined cancel_executors_task insert lookup
cancel_executors-is_owned_example =
    cancel_executors-is_owned none ("x1" ∷ []) "ann" running_tables ("x1" ∷ [])
      (success "Executors cancellation started") refl refl
