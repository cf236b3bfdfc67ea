-- ===== src/Director/Mediator/Preparation/Registered.antt =====
-- The table of executors after the preparation.
use netunicorn.Common.{
  ℕ, suc, zero, Bool, true, none, some, List, [], ◌∷◌, ◌≡◌, arith, any, map, get_elem?, Bool-cases,
  inl, inr, eq_refl,
}
use netunicorn.Base.{Deployment, Experiment}
use netunicorn.Director.Db.{Db, ExecutorRow, is_executor, upsert}
use netunicorn.Director.Mediator.Preparation.{Context, Prepared, add_executor, prepare_all}
use netunicorn.Director.Mediator.Preparation.Task.{add_executors, prepare_items}

-- `ON CONFLICT DO NOTHING` leaves the rows that are there, and adds the one that is not.
any-upsert {ℓ} :
    {A : Type ℓ} (q p : A → Bool) (new : A) (rs : List A)
    → any q rs ≡ true
    → any q (upsert p new (λ r. r) rs) ≡ true
unfolding upsert
any-upsert q p new [] h = cc
any-upsert q p new (r ∷ rs) h = elim (Bool-cases (q r)) [
  | inl e ↦ ground (arith, e)
  | inr e ↦ ground (arith, e, h, any-upsert q p new rs (ground (arith, e, h)))
]

any-upsert_new {ℓ} :
    {A : Type ℓ} (p : A → Bool) (new : A) (rs : List A)
    → p new ≡ true
    → any p (upsert p new (λ r. r) rs) ≡ true
unfolding upsert
any-upsert_new p new [] h = ground (arith, h)
any-upsert_new p new (r ∷ rs) h = ground (arith, h, any-upsert_new p new rs h)

any-add_executors :
    (c : Context) (q : ExecutorRow → Bool) (ds : List Deployment) (db : Db)
    → any q db.executors ≡ true
    → any q (add_executors c ds db).executors ≡ true
unfolding add_executors add_executor
any-add_executors c q [] db h = h
any-add_executors c q (d ∷ ds) db h =
    any-add_executors c q ds (add_executor c none d db) (any-upsert q _ _ db.executors h)

has-add_executors :
    (c : Context) (ds : List Prepared) (db : Db) (i : ℕ) (d : Deployment) (w : Bool)
    → get_elem? ds i ≡ some (d, w)
    → any
        (is_executor c.experiment_id d.executor_id)
        (add_executors c (map (λ i. i.0) ds) db).executors
      ≡ true
unfolding add_executors add_executor
has-add_executors c [] db i d w q = cc
has-add_executors c (x ∷ ds) db zero d w q =
    let e : x.0 ≡ d = ground (arith, q) in
    rw (← e) (
      any-add_executors c _ (map (λ i. i.0) ds) (add_executor c none x.0 db) (
        any-upsert_new _ _ db.executors
          (ground (arith, eq_refl c.experiment_id, eq_refl x.0.executor_id))))
has-add_executors c (x ∷ ds) db (suc i) d w q =
    has-add_executors c ds (add_executor c none x.0 db) i d w q

-- Behind the first part of the preparation every deployment has a row among the executors of the
-- experiment, also one that was refused or that waits.
pub has-prepare_items :
    (c : Context) (experiment : Experiment) (db : Db) (i : ℕ) (d : Deployment) (w : Bool)
    → get_elem? (prepare_items c experiment db).0.items i ≡ some (d, w)
    → any (is_executor c.experiment_id d.executor_id) (prepare_items c experiment db).1.executors
      ≡ true
unfolding prepare_items
has-prepare_items c experiment db i d w q =
    has-add_executors c
      (prepare_all c experiment.deployment_map (record { db = db; envs = []; drawn = 0 })).0 _ i d w
      q
