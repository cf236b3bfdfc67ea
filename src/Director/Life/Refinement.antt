-- ===== src/Director/Life/Refinement.antt =====
-- The services refine the status diagram.
use netunicorn.Common.{ℕ, String, Option, some, ◌≡◌, ◌⊎◌, refl, arith, inl, inr}
use netunicorn.Base.{ready, running, value}
use netunicorn.Director.Db.{Db}
use netunicorn.Director.Processor.Statuses.{status_of}
use netunicorn.Director.Life.{
  Service, starting, service, Move, Moves, here, next, created, deployed, aborted, launched,
  refused, deleted, lost, collected, Step, begins, finishes, deploys, starts, deletes, processes,
  cleans, elsewhere, Run, stop, step, IsLaunched,
}
use netunicorn.Director.Life.Updates.{same_moves, status_of-experiments}
use netunicorn.Director.Life.Steps.{deploy_moves, delete_moves, cleanup_moves, start_moves}
use netunicorn.Director.Life.Processing.{update_experiments_moves}
use netunicorn.Director.Life.Preparing.{begin_moves, finish_moves}

pub step_moves :
    {db db' : Db} (id : String) (s : Step db db')
    → Moves (service s) (status_of id db) (status_of id db')
unfolding service
step_moves id (begins ps c now name e db h) = begin_moves ps c now name e db id h
step_moves id (finishes post c w db) = finish_moves post c w db id
step_moves id (deploys answers x groups connectors db) =
    deploy_moves answers x groups connectors db id
step_moves id (starts now post name username db u) = start_moves now post name username db id u
step_moves id (deletes uuid name username db) = delete_moves uuid name username db id
step_moves id (processes replies now db db' u h) =
    update_experiments_moves replies now db db' id u h
step_moves id (cleans connectors db) = cleanup_moves connectors db id
step_moves id (elsewhere db db' h) = same_moves (status_of-experiments id db db' h)

to_running :
    {k : Service} {s u : Option ℕ}
    → Move k s u
    → u ≡ some (value running)
    → (k ≡ starting) × (s ≡ some (value ready))
to_running created h = ground (arith, h)
to_running deployed h = ground (arith, h)
to_running aborted h = ground (arith, h)
to_running launched h = (refl, refl)
to_running refused h = ground (arith, h)
to_running deleted h = ground (arith, h)
to_running lost h = ground (arith, h)
to_running collected h = ground (arith, h)

-- A start leads to READY from nowhere.
not_to_ready :
    {k : Service} {s u : Option ℕ} → Move k s u → k ≡ starting → ¬ (u ≡ some (value ready))
not_to_ready created e h = ground (arith, h)
not_to_ready deployed e h = cc
not_to_ready aborted e h = ground (arith, h)
not_to_ready launched e h = ground (arith, h)
not_to_ready refused e h = ground (arith, h)
not_to_ready deleted e h = ground (arith, h)
not_to_ready lost e h = ground (arith, h)
not_to_ready collected e h = ground (arith, h)

moves_to_running :
    {k : Service} {s u : Option ℕ}
    → Moves k s u
    → u ≡ some (value running)
    → (s ≡ some (value running)) ⊎ ((k ≡ starting) × (s ≡ some (value ready)))
moves_to_running here h = inl h
moves_to_running (next e m) h = elim (moves_to_running m h) [
  | inl q ↦ inr (to_running e q)
  | inr (k, q) ↦ absurd (not_to_ready e k q)
]

-- However the steps of the services follow each other, an experiment that is RUNNING in the end was
-- RUNNING at the beginning, or was READY in the moment of a start on the way.
pub running-run :
    {db db' : Db} (id : String) (r : Run db db')
    → status_of id db' ≡ some (value running)
    → (status_of id db ≡ some (value running)) ⊎ IsLaunched id r
unfolding IsLaunched
running-run id (stop db) h = inl h
running-run id (step db db' db'' s r) h = elim (running-run id r h) [
  | inr l ↦ inr (inr l)
  | inl q ↦ elim (moves_to_running (step_moves id s) q) [
    | inl e ↦ inl e
    | inr (k, e) ↦ inr (inl (k, e))
  ]
]
