-- ===== src/Director/Server/Rows.antt =====
-- What the operations for one user leave of the experiments of others.
use netunicorn.Common.{
  ℕ, zero, suc, String, Bool, true, false, not, ◌&&◌, ◌||◌, Option, some, List, [], ◌∷◌, ◌==◌, ◌≡◌,
  refl, arith, all, get_elem?, eq_iff, eq_refl, Option-cases, Bool-cases, inl, inr,
}
use netunicorn.Base.{ExperimentStatus}
use netunicorn.Director.Outcome.{success, Outcome-cases}
use netunicorn.Director.Db.{Db, ExperimentRow, select_one, update_where}
use netunicorn.Director.Gateway.{FlagValues, both_missing, get_flag_value, set_flag_value}
use netunicorn.Director.Gateway.Flags.{get-set_flag}
use netunicorn.Director.Mediator.Experiments.{
  is_named, has_id, get_experiment_id_and_status, is_busy, is_ready_status, delete_experiment,
  start_experiment,
}
use netunicorn.Director.Mediator.Flags.{set_experiment_flag}

-- The rows with the identifier belong to the user.
abbrev pub owned_by : String → String → List ExperimentRow → Bool
owned_by id username rs = all (λ r. not (r.experiment_id == id) || r.username == username) rs

-- Rows with one identifier belong to one user: the identifier is the key of the table.
abbrev pub owners_agree : List ExperimentRow → Bool
owners_agree rs = all (λ r. owned_by r.experiment_id r.username rs) rs

module _ {A : Type 0} where
  all-get_elem? :
      (p : A → Bool) (xs : List A) (i : ℕ) (x : A)
      → all p xs ≡ true
      → get_elem? xs i ≡ some x
      → p x ≡ true
  all-get_elem? p [] i x h g = cc
  all-get_elem? p (y ∷ ys) zero x h g = ground (arith, h, g)
  all-get_elem? p (y ∷ ys) (suc i) x h g = all-get_elem? p ys i x (ground (arith, h)) g

  pub all-select_one :
      (p q : A → Bool) (xs : List A) (x : A)
      → all p xs ≡ true
      → select_one q xs ≡ some x
      → (p x && q x) ≡ true
  unfolding select_one
  all-select_one p q [] x h g = cc
  all-select_one p q (y ∷ ys) x h g = elim (Bool-cases (q y)) [
    | inl b ↦ let e : y ≡ x = ground (arith, g, b) in rw (← e) (ground (arith, h, b))
    | inr b ↦ all-select_one p q ys x (ground (arith, h)) (ground (arith, g, b))
  ]

  get_elem?-update_where :
      (p : A → Bool) (f : A → A) (xs : List A) (i : ℕ) (x : A)
      → get_elem? xs i ≡ some x
      → p x ≡ false
      → get_elem? (update_where p f xs) i ≡ some x
  unfolding update_where
  get_elem?-update_where p f [] i x g h = cc
  get_elem?-update_where p f (y ∷ ys) zero x g h =
      let e : y ≡ x = ground (arith, g) in rw (e, h) refl
  get_elem?-update_where p f (y ∷ ys) (suc i) x g h = get_elem?-update_where p f ys i x g h

-- A row of another user has not the identifier of the experiment that the user names.
other-id :
    (name username id : String) (status : ExperimentStatus) (db : Db) (i : ℕ) (r : ExperimentRow)
    → owners_agree db.experiments ≡ true
    → get_experiment_id_and_status name username db ≡ success (id, status)
    → get_elem? db.experiments i ≡ some r
    → (r.username == username) ≡ false
    → has_id id r ≡ false
unfolding get_experiment_id_and_status
other-id name username id status db i r a h g o =
    elim (Option-cases (select_one (is_named username name) db.experiments)) [
      | inl q ↦ ground (arith, h, q)
      | inr (x, q) ↦
          let b =
            all-select_one (λ r. owned_by r.experiment_id r.username db.experiments)
              (is_named username name) db.experiments x a q in
          let e : x.experiment_id ≡ id = ground (arith, h, q) in
          let c =
            all-get_elem?
              (λ r. not (r.experiment_id == x.experiment_id) || r.username == x.username)
              db.experiments i r (ground (arith, b)) g in
          let u : x.username ≡ username = (eq_iff x.username username).0 (ground (arith, b)) in
          let c' = rw (u, e) at c in ground (arith, c', o)
    ]

-- The row of an experiment and a flag of it are as they were.
abbrev pub IsUntouched : ℕ → ExperimentRow → String → Db → Db → Type 0
IsUntouched i r key db db' =
    (get_elem? db'.experiments i ≡ some r)
    × (get_flag_value r.experiment_id key db' ≡ get_flag_value r.experiment_id key db)

module _ (name username key : String) (db : Db) (i : ℕ) (r : ExperimentRow)
    (a : owners_agree db.experiments ≡ true) (g : get_elem? db.experiments i ≡ some r)
    (o : (r.username == username) ≡ false) where
  pub delete-IsUntouched :
      (uuid : String) → IsUntouched i r key db (delete_experiment uuid name username db).1
  unfolding delete_experiment get_flag_value
  delete-IsUntouched uuid = elim (Outcome-cases (get_experiment_id_and_status name username db)) [
    | inr (e, q) ↦ rw (delete_experiment, q) (g, refl)
    | inl ((id, status), q) ↦
        let h = other-id name username id status db i r a q g o in
        elim (Bool-cases (is_busy status)) [
          | inl b ↦ rw (delete_experiment, q, b) (g, refl)
          | inr b ↦
              rw (delete_experiment, q, b)
                (get_elem?-update_where (has_id id) _ db.experiments i r g h, refl)
        ]
  ]

  pub start-IsUntouched :
      (now : ℕ) (post : Option String)
      → IsUntouched i r key db (start_experiment now post name username db).1
  unfolding start_experiment get_flag_value
  start-IsUntouched now post =
      elim (Outcome-cases (get_experiment_id_and_status name username db)) [
        | inr (e, q) ↦ rw (start_experiment, q) (g, refl)
        | inl ((id, status), q) ↦
            let h = other-id name username id status db i r a q g o in
            let k = get_elem?-update_where (has_id id) _ db.experiments i r g h in
            elim (Bool-cases (is_ready_status status)) [
              | inr b ↦ rw (start_experiment, q, b) (g, refl)
              | inl b ↦ elim (Option-cases post) [
                | inl p ↦ rw (start_experiment, q, b, p) (k, refl)
                | inr (e, p) ↦
                    rw (start_experiment, q, b, p)
                      (get_elem?-update_where (has_id id) _ _ i r k h, refl)
              ]
            ]
      ]

  pub set_flag-IsUntouched :
      (name' : String) (v : FlagValues)
      → IsUntouched i r key db (set_experiment_flag username name name' v db).1
  unfolding set_experiment_flag set_flag_value
  set_flag-IsUntouched name' v =
      elim (Outcome-cases (get_experiment_id_and_status name username db)) [
        | inr (e, q) ↦ elim (Bool-cases (both_missing v)) [
          | inl b ↦ rw b (g, refl)
          | inr b ↦ rw (b, q) (g, refl)
        ]
        | inl ((id, status), q) ↦ elim (Bool-cases (both_missing v)) [
          | inl b ↦ rw b (g, refl)
          | inr b ↦
              let h = other-id name username id status db i r a q g o in
              let f = get-set_flag id name' r.experiment_id key v db in
              rw (b, q) (g, ground (arith, b, h, f, eq_iff id r.experiment_id, eq_refl id))
        ]
      ]
