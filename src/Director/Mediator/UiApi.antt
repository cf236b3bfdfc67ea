-- ===== src/Director/Mediator/UiApi.antt =====
-- netunicorn-director/netunicorn-mediator/src/netunicorn/director/mediator/ui_api.py: what the user
-- interface lists. `sudo` is the answer of `verify_sudo`.
pub mod Listed
use netunicorn.Common.{
  ℕ, ◌+◌, ◌*◌, String, Bool, true, false, not, ◌&&◌, ◌||◌, Option, none, some, List, [], ◌∷◌, ◌++◌,
  ◌==◌, map, keep, concat, ltb, nat_eq, if◌then◌else◌,
}
use netunicorn.Base.{ExperimentStatus, preparing, running, value, from_value, Experiment}
use netunicorn.Director.Db.{Db, ExperimentRow, LockRow, CompilationRow}
use netunicorn.Director.Mediator.Experiments.{has_id}

abbrev pub is_shown : Bool → String → String → Bool
is_shown sudo username owner = sudo || owner == username

unfoldable pub get_locked_nodes : Bool → String → Db → List LockRow
get_locked_nodes sudo username db =
    if sudo then db.locks else keep (λ (l : LockRow). l.username == username) db.locks

-- The entry of an experiment. A time that is missing is the text "None".
pub record ExperimentLine : Type 0 where
  pub username : String
  pub experiment_name : String
  pub experiment_id : String
  pub status : ExperimentStatus
  pub error : Option String
  pub creation_time : ℕ
  pub start_time : Option ℕ
  pub nodes : String

abbrev pub try_get_nodes : Option Experiment → List String
try_get_nodes none = []
try_get_nodes (some e) = map (λ d. d.node.name) e.deployment_map

-- `", ".join(names)`
abbrev pub join : List String → String
join [] = ""
join (name ∷ []) = name
join (name ∷ names) = concat name (concat ", " (join names))

unfoldable pub experiment_line : ExperimentRow → Option ExperimentLine
unfolding from_value
experiment_line r = elim (from_value r.status) [
  | none ↦ none
  | some status ↦ some (record {
    username = r.username;
    experiment_name = r.experiment_name;
    experiment_id = r.experiment_id;
    status = status;
    error = r.error;
    creation_time = r.creation_time;
    start_time = r.start_time;
    nodes = join (try_get_nodes r.data_);
  })
]

-- `_get_experiments`, over the rows of the query; `none` is the ValueError of an unknown status.
unfoldable pub experiment_lines : List ExperimentRow → Option (List ExperimentLine)
unfolding experiment_line
experiment_lines [] = some []
experiment_lines (r ∷ rs) = elim (experiment_line r) [
  | none ↦ none
  | some line ↦ elim (experiment_lines rs) [ none ↦ none | some lines ↦ some (line ∷ lines) ]
]

-- A later start stands first, and one that is missing before all others.
abbrev pub precedes : ExperimentRow → ExperimentRow → Bool
precedes r s = elim r.start_time [
  | none ↦ elim s.start_time [ none ↦ ltb s.creation_time r.creation_time | some b ↦ true ]
  | some a ↦ elim s.start_time [
    | none ↦ false
    | some b ↦ ltb b a || nat_eq a b && ltb s.creation_time r.creation_time
  ]
]

unfoldable pub place : ExperimentRow → List ExperimentRow → List ExperimentRow
place r [] = r ∷ []
place r (s ∷ rs) = if precedes s r then s ∷ place r rs else r ∷ s ∷ rs

-- `ORDER BY start_time DESC, creation_time DESC`
unfoldable pub order : List ExperimentRow → List ExperimentRow
unfolding place
order [] = []
order (r ∷ rs) = place r (order rs)

-- The query, whose condition on the user is left out for sudo.
unfoldable pub select_experiments :
    (ExperimentRow → Bool) → Bool → String → Db → Option (List ExperimentLine)
unfolding experiment_lines order
select_experiments p sudo username db =
    let q : ExperimentRow → Bool =
      if sudo then p else λ (r : ExperimentRow). p r && r.username == username in
    experiment_lines (order (keep q db.experiments))

-- `creation_time > now() - interval '… days'`, for a number of days that is not negative.
abbrev pub is_recent : ℕ → ℕ → ExperimentRow → Bool
is_recent now days r = ltb now (r.creation_time + days * 86400)

unfoldable pub get_last_experiments : ℕ → ℕ → Bool → String → Db → Option (List ExperimentLine)
unfolding select_experiments
get_last_experiments now days sudo username db =
    select_experiments (is_recent now days) sudo username db

abbrev pub is_active : ExperimentRow → Bool
is_active r = nat_eq r.status (value preparing) || nat_eq r.status (value running)

unfoldable pub get_running_experiments : Bool → String → Db → Option (List ExperimentLine)
unfolding select_experiments
get_running_experiments sudo username db = select_experiments is_active sudo username db

-- The entry of a compilation; without an experiment there is neither a user nor a name.
pub record CompilationLine : Type 0 where
  pub username : Option String
  pub experiment_name : Option String
  pub experiment_id : String
  pub compilation_id : String
  pub architecture : String

abbrev pub compilation_line : CompilationRow → Option ExperimentRow → CompilationLine
compilation_line c none = record {
  username = none;
  experiment_name = none;
  experiment_id = c.experiment_id;
  compilation_id = c.compilation_id;
  architecture = c.architecture;
}
compilation_line c (some e) = record {
  username = some e.username;
  experiment_name = some e.experiment_name;
  experiment_id = c.experiment_id;
  compilation_id = c.compilation_id;
  architecture = c.architecture;
}

-- The rows of a compilation in the LEFT JOIN.
abbrev pub compilation_rows : CompilationRow → List ExperimentRow → List CompilationLine
compilation_rows c [] = compilation_line c none ∷ []
compilation_rows c (e ∷ es) = map (λ r. compilation_line c (some r)) (e ∷ es)

abbrev pub is_unhandled : CompilationRow → Bool
is_unhandled c = elim c.status [ none ↦ true | some b ↦ false ]

unfoldable pub join_compilations : List ExperimentRow → List CompilationRow → List CompilationLine
join_compilations experiments [] = []
join_compilations experiments (c ∷ cs) =
    let rest = join_compilations experiments cs in
    if is_unhandled c
    then compilation_rows c (keep (has_id c.experiment_id) experiments) ++ rest
    else rest

-- `e.username = $1`, which is not true of a NULL.
abbrev pub is_of : String → CompilationLine → Bool
is_of username line = elim line.username [ none ↦ false | some u ↦ u == username ]

unfoldable pub get_active_compilations : Bool → String → Db → List CompilationLine
unfolding join_compilations
get_active_compilations sudo username db =
    let lines = join_compilations db.experiments db.compilations in
    if sudo then lines else keep (is_of username) lines
