-- ===== src/Director/Gateway.antt =====
-- netunicorn-director/netunicorn-gateway/src/netunicorn/director/gateway/api.py: the API that the
-- executors call.
pub mod Flags
use netunicorn.Common.{
  ℕ, String, Bool, true, false, ◌&&◌, ◌||◌, Option, none, some, List, ◌==◌, nat_eq, ltb, or_else,
  if◌then◌else◌,
}
use netunicorn.Common.Int.{ℤ, pos, negsuc, suc_ℤ, pred_ℤ}
use netunicorn.Director.Db.{Db, ExecutorRow, FlagRow, select_one, update_where, upsert}

-- FlagValues of netunicorn-base/src/netunicorn/base/types.py. The class gives `int_value` the
-- default 0 and no None; the handlers test it for None all the same, so that it has one here.
pub record FlagValues : Type 0 where
  pub text_value : Option String
  pub int_value : Option ℤ

-- The status code of an answer, with a body or none.
pub record Answer (A : Type 0) : Type 0 where
  pub status_code : ℕ
  pub body : Option A

-- `b64encode` of the standard library is a parameter.
unfoldable pub return_pipeline : (String → String) → String → Db → Answer String
return_pipeline b64encode executor_id db =
    let none_found : Answer String = record { status_code = 204; body = none } in
    elim (select_one (λ (r : ExecutorRow). r.executor_id == executor_id) db.executors) [
      | none ↦ none_found
      | some r ↦ elim r.execution_graph [
        | none ↦ none_found
        | some pipeline ↦ record { status_code = 200; body = some (b64encode pipeline) }
      ]
    ]

-- ExecutorState.REPORTING and ExecutorState.FINISHED
abbrev pub reporting_value : ℕ
reporting_value = 2

abbrev pub finished_value : ℕ
finished_value = 3

-- `now` is the time of the database, and `results` stand decoded.
unfoldable pub receive_result : ℕ → String → String → Option ℕ → Db → Db
receive_result now executor_id results state db =
    let state' = or_else state finished_value in
    let finished = nat_eq state' finished_value || nat_eq state' reporting_value in
    let stored =
      update_where (λ (r : ExecutorRow). r.executor_id == executor_id)
        (λ r. record r { result = some results; finished = finished; state = some state' })
        db.executors in
    record db {
      executors =
          update_where (λ (r : ExecutorRow). r.executor_id == executor_id)
            (λ r. record r { keepalive = some now }) stored;
    }

-- The column of the numbers is an INT of 32 bits; a statement with another number is an error.
abbrev pub fits_int : FlagValues → Bool
fits_int v = elim v.int_value [
  | none ↦ true
  | some i ↦ elim i [ pos n ↦ ltb n 2147483648 | negsuc n ↦ ltb n 2147483648 ]
]

abbrev pub is_flag : String → String → FlagRow → Bool
is_flag experiment_id key r = r.experiment_id == experiment_id && r.key == key

unfoldable pub get_flag_value : String → String → Db → Answer FlagValues
get_flag_value experiment_id key db = elim (select_one (is_flag experiment_id key) db.flags) [
  | none ↦ record { status_code = 404; body = none }
  | some r ↦ record {
    status_code = 200;
    body = some (record { text_value = r.text_value; int_value = some r.int_value });
  }
]

abbrev pub both_missing : FlagValues → Bool
both_missing v = elim v.text_value [
  | none ↦ elim v.int_value [ none ↦ true | some i ↦ false ]
  | some t ↦ false
]

-- The statement that stores a flag; the mediator's `set_experiment_flag` has the same one.
unfoldable pub store_flag : String → String → FlagValues → Db → Db
store_flag experiment_id key v db =
    let i = or_else v.int_value (pos 0) in
    record db {
      flags =
          upsert (is_flag experiment_id key)
            (record {
              experiment_id = experiment_id;
              key = key;
              text_value = v.text_value;
              int_value = i;
            })
            (λ r. record r { text_value = v.text_value; int_value = i }) db.flags;
    }

unfoldable pub set_flag_value : String → String → FlagValues → Db → Answer String × Db
unfolding store_flag
set_flag_value experiment_id key v db =
    if both_missing v
    then (
      record { status_code = 400; body = some "Either text_value or int_value must be set" },
      db,
    )
    else (record { status_code = 200; body = none }, store_flag experiment_id key v db)

abbrev pub add_to_flag : ℤ → (ℤ → ℤ) → String → String → Db → Db
add_to_flag first f experiment_id key db = record db {
  flags =
      upsert (is_flag experiment_id key)
        (record { experiment_id = experiment_id; key = key; text_value = none; int_value = first })
        (λ r. record r { int_value = f r.int_value }) db.flags;
}

unfoldable pub increment_int_flag_value : String → String → Db → Db
increment_int_flag_value = add_to_flag (pos 1) suc_ℤ

unfoldable pub decrement_int_flag_value : String → String → Db → Db
decrement_int_flag_value = add_to_flag (negsuc 0) pred_ℤ
