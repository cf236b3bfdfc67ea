-- ===== src/Director/Db.antt =====
-- The database of the director (netunicorn-director/scripts/dbdeploy.sql): a table is the list of
-- its rows, and an SQL statement of the services is a function on the tables. A time is a number
-- of seconds.
use netunicorn.Common.{
  ℕ, String, Bool, Option, none, some, List, [], ◌∷◌, ◌==◌, ◌&&◌, ◌≡◌, refl, arith, if◌then◌else◌,
}
use netunicorn.Common.Int.{ℤ}
use netunicorn.Base.{Experiment, DeploymentExecutionResult, EnvironmentDefinition}

pub record ExperimentRow : Type 0 where
  pub username : String
  pub experiment_name : String
  pub experiment_id : String
  pub data_ : Option Experiment
  pub status : ℕ
  pub error : Option String
  pub execution_results : Option (List DeploymentExecutionResult)
  pub creation_time : ℕ
  pub start_time : Option ℕ
  pub cleaned_up : Bool

pub record ExecutorRow : Type 0 where
  pub experiment_id : String
  pub executor_id : String
  pub node_name : String
  pub connector : String
  pub execution_graph : Option String
  pub result : Option String
  pub keepalive : Option ℕ
  pub error : Option String
  pub finished : Bool
  pub state : Option ℕ

pub record LockRow : Type 0 where
  pub node_name : String
  pub connector : String
  pub username : String

pub record FlagRow : Type 0 where
  pub experiment_id : String
  pub key : String
  pub text_value : Option String
  pub int_value : ℤ

pub record CompilationRow : Type 0 where
  pub experiment_id : String
  pub compilation_id : String
  pub status : Option Bool
  pub result : Option String
  pub architecture : String
  pub execution_graph : Option String
  pub environment_definition : EnvironmentDefinition

pub record UserRow : Type 0 where
  pub username : String
  pub hash : String
  pub sudo : Bool
  pub accesstags : Option (List String)

pub record TokenRow : Type 0 where
  pub username : String
  pub token : String
  pub expiration : ℕ

pub record Db : Type 0 where
  pub experiments : List ExperimentRow
  pub executors : List ExecutorRow
  pub locks : List LockRow
  pub flags : List FlagRow
  pub compilations : List CompilationRow
  pub tokens : List TokenRow
  pub authentication : List UserRow

-- The key of the executors.
abbrev pub is_executor : String → String → ExecutorRow → Bool
is_executor id executor_id r = r.experiment_id == id && r.executor_id == executor_id

module _ {ℓ} {A : Type ℓ} where
  -- `SELECT … WHERE p LIMIT 1`, and `fetchval`, which reads the first row.
  unfoldable pub select_one : (A → Bool) → List A → Option A
  select_one p [] = none
  select_one p (r ∷ rs) = if p r then some r else select_one p rs

  -- `UPDATE … SET f WHERE p`
  unfoldable pub update_where : (A → Bool) → (A → A) → List A → List A
  update_where p f [] = []
  update_where p f (r ∷ rs) = (if p r then f r else r) ∷ update_where p f rs

  -- `INSERT … ON CONFLICT DO UPDATE`: `p` finds the row with the same key.
  unfoldable pub upsert : (A → Bool) → A → (A → A) → List A → List A
  upsert p new f [] = new ∷ []
  upsert p new f (r ∷ rs) = if p r then f r ∷ rs else r ∷ upsert p new f rs

  -- The first row that matches `q`, after an update that does not change what `q` reads.
  pub select_one-update_where :
      (q p : A → Bool) (f : A → A) (rs : List A)
      → ((r : A) → q (f r) ≡ q r)
      → select_one q (update_where p f rs) ≡ (elim (select_one q rs) as (λ x. Option A) [
        | none ↦ none
        | some r ↦ some (if p r then f r else r)
      ])
  unfolding select_one update_where
  select_one-update_where q p f [] same = refl
  select_one-update_where q p f (r ∷ rs) same =
      ground (arith, same r, select_one-update_where q p f rs same)
