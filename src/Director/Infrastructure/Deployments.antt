-- ===== src/Director/Infrastructure/Deployments.antt =====
-- Which deployments the connectors are asked to start.
use netunicorn.Common.{
  String, Bool, true, false, not, ◌&&◌, ◌||◌, some, List, [], ◌∷◌, ◌≡◌, refl, ◌∙◌, arith, keep, any,
  all, has_text, eq_iff, any-append,
}
use netunicorn.Base.{connector, Deployment, Experiment}
use netunicorn.Director.Db.{Db}
use netunicorn.Director.Infrastructure.{
  add_to_group, by_connector, is_available, started, unavailable, not_found, experiment_of, deploy,
}

abbrev pub same : Bool → Bool → Bool
same true b = b
same false b = not b

-- Some deployment in the groups has the property, under a name of its connector.
abbrev pub any_group : (String → Deployment → Bool) → List (String × List Deployment) → Bool
any_group p groups = any (λ (name, ds). any (p name) ds) groups

any-add_to_group :
    (p : String → Deployment → Bool) (d : Deployment) (groups : List (String × List Deployment))
    → any_group p (add_to_group (connector d.node) d groups)
      ≡ (any_group p groups || p (connector d.node) d)
unfolding add_to_group
any-add_to_group p d [] = ground arith
any-add_to_group p d ((k, ds) ∷ groups) =
    ground (
      arith,
      any-add_to_group p d groups,
      any-append (p k) ds (d ∷ []),
      eq_iff k (connector d.node),
    )

any-by_connector :
    (p : String → Deployment → Bool) (ds : List Deployment)
    (groups : List (String × List Deployment))
    → any_group p (by_connector ds groups)
      ≡ (any_group p groups || any (λ d. p (connector d.node) d) ds)
unfolding by_connector
any-by_connector p [] groups = ground arith
any-by_connector p (d ∷ ds) groups = ground (
  arith,
  any-by_connector p ds (add_to_group (connector d.node) d groups),
  any-add_to_group p d groups,
)

any-prepared :
    (p : Deployment → Bool) (ds : List Deployment)
    → any p (keep (λ d. d.prepared) ds) ≡ any (λ d. d.prepared && p d) ds
any-prepared p [] = refl
any-prepared p (d ∷ ds) = ground (arith, any-prepared p ds)

available-add_to_group :
    (cs : List String) (d : Deployment) (groups : List (String × List Deployment))
    → all (is_available cs) (add_to_group (connector d.node) d groups)
      ≡ (all (is_available cs) groups && has_text (connector d.node) cs)
unfolding add_to_group
available-add_to_group cs d [] = ground arith
available-add_to_group cs d ((k, ds) ∷ groups) =
    ground (arith, available-add_to_group cs d groups, eq_iff k (connector d.node))

available-by_connector :
    (cs : List String) (ds : List Deployment) (groups : List (String × List Deployment))
    → all (is_available cs) (by_connector ds groups)
      ≡ (all (is_available cs) groups && all (λ d. has_text (connector d.node) cs) ds)
unfolding by_connector
available-by_connector cs [] groups = ground arith
available-by_connector cs (d ∷ ds) groups = ground (
  arith,
  available-by_connector cs ds (add_to_group (connector d.node) d groups),
  available-add_to_group cs d groups,
)

all-prepared :
    (p : Deployment → Bool) (ds : List Deployment)
    → all p (keep (λ d. d.prepared) ds) ≡ all (λ d. not d.prepared || p d) ds
all-prepared p [] = refl
all-prepared p (d ∷ ds) = ground (arith, all-prepared p ds)

-- For an experiment that is stored, a deployment is started exactly if the connector of each
-- prepared deployment is available; the task then has exactly the prepared deployments, each under
-- the name of its connector.
pub deploy_lem :
    (cs : List String) (id : String) (db : Db) (e : Experiment) (p : String → Deployment → Bool)
    → experiment_of id db ≡ some e
    → (elim (deploy cs id db) as (λ x. Bool) [
      | not_found ↦ false
      | unavailable ↦
          not (all (λ d. not d.prepared || has_text (connector d.node) cs) e.deployment_map)
      | started groups ↦
          all (λ d. not d.prepared || has_text (connector d.node) cs) e.deployment_map
          && same
              (any_group p groups)
              (any (λ d. d.prepared && p (connector d.node) d) e.deployment_map)
    ])
      ≡ true
unfolding deploy
deploy_lem cs id db e p h =
    let ds = keep (λ d. d.prepared) e.deployment_map in
    let all_ok =
      available-by_connector cs ds []
      ∙ all-prepared (λ d. has_text (connector d.node) cs) e.deployment_map in
    let found =
      any-by_connector p ds [] ∙ any-prepared (λ d. p (connector d.node) d) e.deployment_map in
    ground (arith, h, all_ok, found)
