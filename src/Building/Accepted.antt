-- ===== src/Building/Accepted.antt =====
-- The experiments that a client can build pass the checks of the mediator.
use netunicorn.Common.{
  Bool, true, ◌&&◌, some, List, [], ◌∷◌, ◌++◌, ◌==◌, ◌≡◌, refl, arith, any, all, all-append,
  Bool-cases, Option-cases, inl, inr, Option,
}
use netunicorn.Base.{Node, Deployment, Contexts, Experiment, empty_experiment}
use netunicorn.Director.Outcome.{success}
use netunicorn.Director.Mediator.Checks.{same_kind, experiment_precheck, check_environments}
use netunicorn.Director.Mediator.Checks.Names.{has_unique_names, experiment_precheck_lem}
use netunicorn.Building.{
  Submission, is_deployable, deployment_of, new_deployment, append_deployment, map_nodes, add,
}

-- What a client can build.
pub data Built : Experiment → Type 0 where
  nothing : (context : Option Contexts) → Built (empty_experiment context)
  appended :
      (e e' : Experiment) (node : Node) (graph : Submission)
      → Built e
      → append_deployment e node graph ≡ some e'
      → Built e'
  mapped :
      (e e' : Experiment) (graph : Submission) (nodes : List Node)
      → Built e
      → map_nodes e graph nodes ≡ some e'
      → Built e'
  added : (e other : Experiment) → Built e → Built other → Built (add e other)

-- Each deployment has an environment of its node, and no executor id yet.
abbrev is_fresh : Deployment → Bool
is_fresh d =
    d.executor_id == ""
    && any (same_kind d.environment_definition.kind) d.node.available_environments

new_deployment-fresh :
    (node : Node) (graph : Submission) (d : Deployment)
    → new_deployment node graph ≡ some d
    → is_fresh d ≡ true
unfolding new_deployment
new_deployment-fresh node graph d h = elim (Bool-cases (is_deployable node graph)) [
  | inl q ↦
      let e : deployment_of node graph ≡ d = ground (arith, h, q) in
      let f : is_fresh (deployment_of node graph) ≡ true = ground (arith, q) in rw (← e) f
  | inr q ↦ ground (arith, h, q)
]

append_deployment-fresh :
    (e e' : Experiment) (node : Node) (graph : Submission)
    → append_deployment e node graph ≡ some e'
    → all is_fresh e.deployment_map ≡ true
    → all is_fresh e'.deployment_map ≡ true
unfolding append_deployment
append_deployment-fresh e e' node graph h k = elim (Option-cases (new_deployment node graph)) [
  | inl q ↦ ground (arith, h, q)
  | inr (d, q) ↦
      let grown : ◌≡◌ {A = List Deployment} (e.deployment_map ++ d ∷ []) e'.deployment_map =
        ground (arith, h, q) in
      rw (← grown) (
        ground (
          arith,
          k,
          all-append is_fresh e.deployment_map (d ∷ []),
          new_deployment-fresh node graph d q,
        ))
]

map_nodes-fresh :
    (e e' : Experiment) (graph : Submission) (nodes : List Node)
    → map_nodes e graph nodes ≡ some e'
    → all is_fresh e.deployment_map ≡ true
    → all is_fresh e'.deployment_map ≡ true
unfolding map_nodes
map_nodes-fresh e e' graph [] h k = let q : e ≡ e' = ground (arith, h) in rw (← q) k
map_nodes-fresh e e' graph (x ∷ xs) h k = elim (Option-cases (append_deployment e x graph)) [
  | inl q ↦ ground (arith, q, h)
  | inr (e1, q) ↦
      map_nodes-fresh e1 e' graph xs (ground (arith, q, h))
        (append_deployment-fresh e e1 x graph q k)
]

Built-fresh : {e : Experiment} → Built e → all is_fresh e.deployment_map ≡ true
unfolding add
Built-fresh (nothing context) = refl
Built-fresh (appended e e' node graph b h) =
    append_deployment-fresh e e' node graph h (Built-fresh b)
Built-fresh (mapped e e' graph nodes b h) = map_nodes-fresh e e' graph nodes h (Built-fresh b)
Built-fresh (added e other b c) =
    ground (
      arith,
      all-append is_fresh e.deployment_map other.deployment_map,
      Built-fresh b,
      Built-fresh c,
    )

fresh-environments :
    (ds : List Deployment)
    → all is_fresh ds ≡ true
    → all (λ d. any (same_kind d.environment_definition.kind) d.node.available_environments) ds
      ≡ true
fresh-environments [] h = refl
fresh-environments (d ∷ ds) h = ground (arith, h, fresh-environments ds (ground (arith, h)))

fresh-names : (ds : List Deployment) → all is_fresh ds ≡ true → has_unique_names ds ≡ true
fresh-names [] h = refl
fresh-names (d ∷ ds) h = ground (arith, h, fresh-names ds (ground (arith, h)))

-- Every experiment that a client builds by `append`, `map` and `+` passes the checks of the
-- mediator on environments and on executor ids.
pub Built-checks :
    (e : Experiment)
    → Built e
    → (check_environments e ≡ success tt) × (experiment_precheck e ≡ success tt)
unfolding check_environments
Built-checks e b =
    let f = Built-fresh b in
    (
      ground (arith, fresh-environments e.deployment_map f),
      ground (arith, experiment_precheck_lem e, fresh-names e.deployment_map f),
    )
