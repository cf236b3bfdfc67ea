-- ===== src/Director/Life/Updates.antt =====
-- Updates of the table of experiments as moves in the diagram.
use netunicorn.Common.{
  ℕ, String, Bool, true, false, Option, none, some, List, [], ◌∷◌, ◌==◌, ◌≡◌, refl, arith, eq_iff,
  Bool-cases, inl, inr,
}
use netunicorn.Director.Db.{Db, ExperimentRow, upsert, select_one}
use netunicorn.Director.Mediator.Experiments.{update_experiment}
use netunicorn.Director.Processor.Statuses.{
  status_of, marked, status_of-mark, status_of-update_other, status_of-update_any,
}
use netunicorn.Director.Life.{Service, Move, Moves, here, next}

pub same_moves : {k : Service} {s t : Option ℕ} → t ≡ s → Moves k s t
same_moves {k} {s} e = rw e here

pub Moves-trans : {k : Service} {s t u : Option ℕ} → Moves k s t → Moves k t u → Moves k s u
Moves-trans here m = m
Moves-trans (next e k) m = next e (Moves-trans k m)

marked_moves :
    {k : Service} (t : ℕ)
    → ((s : ℕ) → Move k (some s) (some t))
    → (o : Option ℕ) → Moves k o (marked t o)
marked_moves t edge none = here
marked_moves t edge (some s) = next (edge s) here

-- An update that sets one status, which the diagram allows from everywhere.
pub update_moves :
    {k : Service} (id other : String) (t : ℕ) (f : ExperimentRow → ExperimentRow) (db : Db)
    → ((r : ExperimentRow) → (f r).experiment_id ≡ r.experiment_id)
    → ((r : ExperimentRow) → (f r).status ≡ t)
    → ((s : ℕ) → Move k (some s) (some t))
    → Moves k (status_of other db) (status_of other (update_experiment id f db))
update_moves id other t f db he hs edge = elim (Bool-cases (other == id)) [
  | inl q ↦
      rw ((eq_iff other id).0 q, status_of-mark id t f db he hs)
        (marked_moves t edge (status_of id db))
  | inr q ↦ same_moves (status_of-update_other id other f db q he)
]

-- An update of one experiment whose status is known.
pub known_moves :
    {k : Service} (id other : String) (s t : ℕ) (f : ExperimentRow → ExperimentRow) (db : Db)
    → ((r : ExperimentRow) → (f r).experiment_id ≡ r.experiment_id)
    → ((r : ExperimentRow) → (f r).status ≡ t)
    → status_of id db ≡ some s
    → Move k (some s) (some t)
    → Moves k (status_of other db) (status_of other (update_experiment id f db))
known_moves id other s t f db he hs k edge = elim (Bool-cases (other == id)) [
  | inl q ↦ rw ((eq_iff other id).0 q, status_of-mark id t f db he hs, k) (next edge here)
  | inr q ↦ same_moves (status_of-update_other id other f db q he)
]

pub kept_moves :
    {k : Service} (id other : String) (f : ExperimentRow → ExperimentRow) (db : Db)
    → ((r : ExperimentRow) → (f r).experiment_id ≡ r.experiment_id)
    → ((r : ExperimentRow) → (f r).status ≡ r.status)
    → Moves k (status_of other db) (status_of other (update_experiment id f db))
kept_moves id other f db he hs = same_moves (status_of-update_any id other f db he hs)

pub status_of-experiments :
    (id : String) (db db' : Db)
    → db'.experiments ≡ db.experiments
    → status_of id db' ≡ status_of id db
status_of-experiments id db db' e = rw e refl

-- `ON CONFLICT DO NOTHING` of a row that is new.
pub select_one-upsert_new :
    (p : ExperimentRow → Bool) (new : ExperimentRow) (rs : List ExperimentRow)
    → select_one p rs ≡ none
    → p new ≡ true
    → select_one p (upsert p new (λ r. r) rs) ≡ some new
unfolding select_one upsert
select_one-upsert_new p new [] h k = ground (arith, k)
select_one-upsert_new p new (r ∷ rs) h k =
    ground (arith, h, k, select_one-upsert_new p new rs (ground (arith, h)) k)

pub select_one-upsert_other :
    (q p : ExperimentRow → Bool) (new : ExperimentRow) (rs : List ExperimentRow)
    → q new ≡ false
    → select_one q (upsert p new (λ r. r) rs) ≡ select_one q rs
unfolding select_one upsert
select_one-upsert_other q p new [] k = ground (arith, k)
select_one-upsert_other q p new (r ∷ rs) k = ground (arith, k, select_one-upsert_other q p new rs k)
