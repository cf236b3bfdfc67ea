-- ===== src/Director/Mediator/Executors/Ownership.antt =====
-- Who may cancel an executor.
use netunicorn.Common.{
  String, Bool, true, false, not, ◌&&◌, ◌||◌, Option, List, [], ◌∷◌, ◌==◌, ◌≡◌, refl, arith, all,
  any, map, keep, has_text, insert, lookup, eq_iff, all-append, Bool-cases, inl, inr, is_some,
}
use netunicorn.Director.Outcome.{Outcome}
use netunicorn.Director.Db.{Db, ExperimentRow, ExecutorRow}
use netunicorn.Director.Mediator.Experiments.{has_id}
use netunicorn.Director.Mediator.Executors.{
  sent, cancel_executors_task, joined, gather, is_owner, is_empty, cancel_executors,
}

abbrev has_key : String → List (String × String) → Bool
has_key x rows = any (λ (y, u). y == x) rows

-- No executor stands in two of the rows.
abbrev pub has_unique_keys : List (String × String) → Bool
has_unique_keys [] = true
has_unique_keys ((x, u) ∷ rows) = not (any (λ (y, v). y == x) rows) && has_unique_keys rows

-- The experiments of the executor belong to the user.
abbrev pub is_owned : String → List ExperimentRow → ExecutorRow → Bool
is_owned username experiments x =
    all (λ r. not (has_id x.experiment_id r) || r.username == username) experiments

owner-insert :
    (username x u : String) (owners : List (String × String))
    → has_key x owners ≡ false
    → all (is_owner username) (insert x u owners)
      ≡ (all (is_owner username) owners && u == username)
unfolding insert
owner-insert username x u [] h = ground arith
owner-insert username x u ((y, v) ∷ owners) h = ground (arith, owner-insert username x u owners)

has_key-insert :
    (x y u : String) (owners : List (String × String))
    → has_key x (insert y u owners) ≡ (has_key x owners || y == x)
unfolding insert
has_key-insert x y u [] = ground arith
has_key-insert x y u ((z, v) ∷ owners) =
    ground (arith, has_key-insert x y u owners, eq_iff z y, eq_iff y x, eq_iff z x)

-- No executor of the rows is among the owners.
abbrev are_new : List (String × String) → List (String × String) → Bool
are_new rows owners = all (λ (x, u). not (has_key x owners)) rows

are_new-insert :
    (rows : List (String × String)) (y u : String) (owners : List (String × String))
    → are_new rows (insert y u owners) ≡ (are_new rows owners && not (has_key y rows))
are_new-insert [] y u owners = refl
are_new-insert ((x, v) ∷ rows) y u owners =
    ground
      (arith, are_new-insert rows y u owners, has_key-insert x y u owners, eq_iff x y, eq_iff y x)

owner-gather :
    (username : String) (rows owners : List (String × String))
    → has_unique_keys rows ≡ true
    → are_new rows owners ≡ true
    → all (is_owner username) (gather rows owners)
      ≡ (all (is_owner username) rows && all (is_owner username) owners)
owner-gather username [] owners k n = ground arith
owner-gather username ((x, u) ∷ rows) owners k n = ground (
  arith,
  owner-gather username rows (insert x u owners),
  owner-insert username x u owners,
  are_new-insert rows x u owners,
)

are_new-empty : (rows : List (String × String)) → are_new rows [] ≡ true
are_new-empty [] = refl
are_new-empty ((x, u) ∷ rows) = are_new-empty rows

owner-rows :
    (username id : String) (x : String) (experiments : List ExperimentRow)
    → all (is_owner username) (map (λ r. (x, r.username)) (keep (has_id id) experiments))
      ≡ all (λ r. not (has_id id r) || r.username == username) experiments
owner-rows username id x [] = refl
owner-rows username id x (r ∷ rs) = ground (arith, owner-rows username id x rs)

owner-joined :
    (username : String) (executors : List String) (experiments : List ExperimentRow)
    (xs : List ExecutorRow)
    → all (is_owner username) (joined executors experiments xs)
      ≡ all
          (λ x.
            not (has_text x.executor_id executors && not x.finished)
            || is_owned username experiments x)
          xs
unfolding joined
owner-joined username executors experiments [] = refl
owner-joined username executors experiments (x ∷ xs) = ground (
  arith,
  owner-joined username executors experiments xs,
  owner-rows username x.experiment_id x.executor_id experiments,
  all-append (is_owner username)
      (map (λ r. (x.executor_id, r.username)) (keep (has_id x.experiment_id) experiments))
      (joined executors experiments xs),
)

-- If no executor stands in two rows of the query, a cancellation is sent only if every given
-- executor that is not finished belongs to an experiment of the user; exactly the given executors
-- are sent, the finished ones too.
pub cancel_executors-is_owned :
    (delete : Option String) (executors : List String) (username : String) (db : Db)
    (xs : List String) (answer : Outcome String)
    → has_unique_keys (joined executors db.experiments db.executors) ≡ true
    → cancel_executors delete executors username db ≡ sent xs answer
    → (all
          (λ x.
            not (has_text x.executor_id executors && not x.finished)
            || is_owned username db.experiments x)
          db.executors
        ≡ true)
      × (xs ≡ executors)
unfolding cancel_executors cancel_executors_task
cancel_executors-is_owned delete executors username db xs answer k h =
    let rows = joined executors db.experiments db.executors in
    let owned = owner-gather username rows [] k (are_new-empty rows) in
    let found = owner-joined username executors db.experiments db.executors in
    elim (Bool-cases (is_empty (gather rows []))) [
      | inl q ↦ ground (arith, q, h)
      | inr q ↦ elim (Bool-cases (all (is_owner username) (gather rows []))) [
        | inl o ↦ (ground (arith, o, owned, found), ground (arith, q, o, h))
        | inr o ↦ elim (Bool-cases (all (λ x. is_some (lookup x (gather rows []))) executors)) [
          | inl s ↦ ground (arith, q, o, s, h)
          | inr s ↦ ground (arith, q, o, s, h)
        ]
      ]
    ]
