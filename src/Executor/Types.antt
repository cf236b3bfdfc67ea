-- ===== src/Executor/Types.antt =====
-- The data of the executor.
use netunicorn.Common.{
  String, Bool, true, false, List, Option, ◌≡◌, refl, ◌⊎◌, inl, inr, if◌then◌else◌,
}
use netunicorn.Common.Int.{ℤ}

-- What a task returned: the pickled payload of a `Success` or a `Failure`.
pub data TaskResult : Type 0 where
  success : String → TaskResult
  failure : String → TaskResult

-- `is_successful` of the `returns` package, on these two.
abbrev pub is_successful : TaskResult → Bool
is_successful (success s) = Bool.true
is_successful (failure s) = Bool.false

-- The exceptions that leave a method.
pub data Error : Type 0 where
  key_error value_error stop_iteration no_graph : Error
  external : String → Error

pub data Result {ℓ} (A : Type ℓ) : Type ℓ where
  return : A → Result A
  raise : Error → Result A

infixl 5 ◌>>=◌
abbrev pub ◌>>=◌ {ℓ κ} : {A : Type ℓ} {B : Type κ} → Result A → (A → Result B) → Result B
return a >>= f = f a
raise e >>= f = raise e

pub >>=-eq-return {ℓ κ} :
    {A : Type ℓ} {B : Type κ} (r : Result A) (f : A → Result B) {b : B}
    → (r >>= f) ≡ return b
    → (a : A) × (r ≡ return a) × (f a ≡ return b)
>>=-eq-return (return a) f h = (a, refl, h)
>>=-eq-return (raise e) f h = cc

-- ExecutorState of netunicorn-base/src/netunicorn/base/types.py.
pub data ExecutorState : Type 0 where
  looking_for_execution_graph executing reporting finished : ExecutorState

-- `step_results`: a defaultdict from a task's name to the results of its runs, in order.
abbrev pub StepResults : Type 0
StepResults = List (String × List TaskResult)

-- `Result[ExecutionGraphResult, ExecutionGraphResult]`
pub data GraphResult : Type 0 where
  succeeded : StepResults → GraphResult
  failed : StepResults → GraphResult

-- What the loop reads of a running task's process and queue, in the order of its tests: whether
-- the queue is empty, whether the process lives, its exit code, and the message in the queue.
pub record Probe : Type 0 where
  pub empty : Bool
  pub alive : Bool
  pub exitcode : Option ℤ
  pub message : Option TaskResult

-- `r` returns, and its value has the property.
abbrev pub Returns {ℓ κ} : {A : Type ℓ} → (A → Type κ) → Result A → Type (ℓ ⊔ κ)
Returns {A} P r = (a : A) × (r ≡ return a) × P a

pub Returns-bind {ℓ κ μ ν} :
    {A : Type ℓ} {B : Type κ} (P : A → Type μ) (Q : B → Type ν) (r : Result A) (f : A → Result B)
    → Returns P r
    → ((a : A) → P a → Returns Q (f a))
    → Returns Q (r >>= f)
Returns-bind P Q (return a) f (b, e, p) next = let q : b ≡ a = cc in next a (rw q at p)
Returns-bind P Q (raise x) f (b, e, p) next = cc

pub Returns-if {ℓ μ} :
    {A : Type ℓ} (P : A → Type μ) (b : Bool) (m n : Result A)
    → Returns P m
    → Returns P n
    → Returns P (if b then m else n)
Returns-if P true m n hm hn = hm
Returns-if P false m n hm hn = hn

pub Result-cases {ℓ} :
    {A : Type ℓ} (r : Result A) → ((a : A) × (r ≡ return a)) ⊎ ((e : Error) × (r ≡ raise e))
Result-cases (return a) = inl (a, refl)
Result-cases (raise e) = inr (e, refl)
