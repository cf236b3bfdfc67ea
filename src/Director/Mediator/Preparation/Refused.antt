-- ===== src/Director/Mediator/Preparation/Refused.antt =====
-- The deployments on nodes that another user has locked.
use netunicorn.Common.{
  ℕ, suc, zero, String, true, false, some, List, [], ◌∷◌, ◌≡◌, refl, ◌∙◌, arith, is_some, get_elem?,
  Option-cases, inl, inr,
}
use netunicorn.Base.{Deployment, Node}
use netunicorn.Director.Db.{Db}
use netunicorn.Director.Mediator.Nodes.{is_locked}
use netunicorn.Director.Mediator.Preparation.{
  Context, Preparing, key, find, set_variable, refuse, ready_made, new_compilation, add_executor,
  add_compilation, prepare_docker, prepare_deployment, prepare_all,
}
use netunicorn.Director.Mediator.Preparation.Waiting.{Keeps, identified, prepare_deployment-cases}

prepare_docker-Keeps :
    (c : Context) (d : Deployment) (s : Preparing c) → Keeps s.db (prepare_docker c d s).1.db
unfolding prepare_docker ready_made new_compilation add_executor add_compilation
prepare_docker-Keeps c d s = elim (Option-cases d.environment_definition.image) [
  | inl q ↦ elim (Option-cases (find c (c.hash (key d)) s.envs)) [
    | inl p ↦ (ground (arith, p, q), ground (arith, p, q))
    | inr (u, p) ↦ (ground (arith, p, q), ground (arith, p, q))
  ]
  | inr (i, q) ↦ elim (Option-cases (find c (c.hash (key d)) s.envs)) [
    | inl p ↦ (ground (arith, p, q), ground (arith, p, q))
    | inr (u, p) ↦ (ground (arith, p, q), ground (arith, p, q))
  ]
]

pub prepare_deployment-Keeps :
    (c : Context) (d : Deployment) (s : Preparing c) → Keeps s.db (prepare_deployment c d s).1.db
prepare_deployment-Keeps c d s = elim (prepare_deployment-cases c d s) [
  | inl e ↦
      rw e (prepare_docker-Keeps c (identified c s.drawn d) (record s { drawn = suc s.drawn }))
  | inr (w, e, k) ↦ k
]

is_locked-same :
    (username : String) (db db' : Db) (x : Node)
    → db.locks ≡ db'.locks
    → is_locked username db x ≡ is_locked username db' x
unfolding is_locked
is_locked-same username db db' x e = rw e refl

-- A deployment on a node that another user has locked when the preparation starts does not wait
-- for a compilation, is not prepared and has an error, whatever other deployments there are.
pub locked-prepare_all :
    (c : Context) (ds : List Deployment) (s : Preparing c) (i : ℕ) (x : Deployment)
    → get_elem? ds i ≡ some x
    → is_locked c.username s.db x.node ≡ true
    → (d : Deployment) × (get_elem? (prepare_all c ds s).0 i ≡ some (d, false))
      × (d.prepared ≡ false)
      × (is_some d.error ≡ true)
unfolding prepare_all prepare_deployment
locked-prepare_all c [] s i x q l = cc
locked-prepare_all c (y ∷ ds) s zero x q l =
    let e : y ≡ x = ground (arith, q) in
    (
      refuse "Node is already locked"
          (identified c s.drawn (set_variable "NETUNICORN_EXPERIMENT_ID" c.experiment_id y)),
      ground (arith, e, l),
      refl,
      refl,
    )
locked-prepare_all c (y ∷ ds) s (suc i) x q l =
    let y' = set_variable "NETUNICORN_EXPERIMENT_ID" c.experiment_id y in
    let e = (prepare_deployment-Keeps c y' s).0 in
    locked-prepare_all c ds (prepare_deployment c y' s).1 i x q
      (is_locked-same c.username (prepare_deployment c y' s).1.db s.db x.node e ∙ l)
