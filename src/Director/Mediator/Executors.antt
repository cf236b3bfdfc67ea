-- ===== src/Director/Mediator/Executors.antt =====
-- Cancellation in engine.py of the mediator.
pub mod Ownership
use netunicorn.Common.{
  String, Bool, true, false, not, ◌&&◌, Option, none, some, List, [], ◌∷◌, ◌++◌, ◌==◌, all, keep,
  map, has_text, insert, lookup, is_some, if◌then◌else◌,
}
use netunicorn.Director.Outcome.{Outcome, success, failure}
use netunicorn.Director.Db.{Db, ExperimentRow, ExecutorRow}
use netunicorn.Director.Mediator.Experiments.{get_experiment_id_and_status, has_id}

-- What a call answers, and the executors that it asked the infrastructure service to stop, if it
-- did. `key_error` is the exception of a dictionary.
pub data Cancelled : Type 0 where
  rejected : String → Cancelled
  key_error : Cancelled
  sent : (executors : List String) → Outcome String → Cancelled

-- `delete` is the answer of the infrastructure service: `none`, or the text of its error.
unfoldable pub cancel_executors_task : Option String → List String → Cancelled
cancel_executors_task delete executors =
    sent executors
      (elim delete [ none ↦ success "Executors cancellation started" | some e ↦ failure e ])

unfoldable pub cancel_experiment : Option String → String → String → Db → Cancelled
unfolding cancel_executors_task
cancel_experiment delete name username db = elim (get_experiment_id_and_status name username db) [
  | failure e ↦ rejected e
  | success (id, status) ↦ cancel_executors_task delete (
      map (λ r. r.executor_id)
        (keep (λ (r : ExecutorRow). r.experiment_id == id && not r.finished) db.executors))
]

-- The rows of the JOIN of experiments and executors for the given executors that are not
-- finished: pairs of an executor and the user whose experiment it belongs to.
unfoldable pub joined : List String → List ExperimentRow → List ExecutorRow → List (String × String)
joined executors experiments [] = []
joined executors experiments (x ∷ xs) =
    let rest = joined executors experiments xs in
    if has_text x.executor_id executors && not x.finished
    then map (λ r. (x.executor_id, r.username)) (keep (has_id x.experiment_id) experiments) ++ rest
    else rest

-- `{x["executor_id"]: x["username"] for x in rows}`
abbrev pub gather : List (String × String) → List (String × String) → List (String × String)
gather [] owners = owners
gather ((x, u) ∷ rows) owners = gather rows (insert x u owners)

abbrev pub is_owner : String → String × String → Bool
is_owner username (executor, owner) = owner == username

abbrev pub is_empty {ℓ} : {A : Type ℓ} → List A → Bool
is_empty [] = true
is_empty (x ∷ xs) = false

unfoldable pub cancel_executors : Option String → List String → String → Db → Cancelled
unfolding joined cancel_executors_task insert lookup
cancel_executors delete executors username db =
    let owners = gather (joined executors db.experiments db.executors) [] in
    if is_empty owners
    then rejected "All executors already finished or no experiments found"
    else if all (is_owner username) owners
    then cancel_executors_task delete executors
    else if all (λ x. is_some (lookup x owners)) executors
    then rejected "Some of executors do not belong to user"
    else key_error
