-- ===== src/Director/Mediator/Preparation/Waiting.antt =====
-- The deployments that wait for a compilation, and what they wait for.
use netunicorn.Common.{
  ℕ, suc, String, Bool, true, false, not, none, some, List, [], ◌∷◌, ◌==◌, ◌≡◌, refl, sym, arith,
  all, Bool-cases, Option-cases, ◌⊎◌, ◌↔◌, inl, inr, get_elem?, zero,
}
use netunicorn.Base.{EnvironmentKind, Deployment, docker_image, shell_execution, other_environment}
use netunicorn.Director.Db.{Db}
use netunicorn.Director.Mediator.Nodes.{is_locked}
use netunicorn.Director.Mediator.Preparation.{
  Recipe, by_recipe, Key, recipe, key_of_image, key, Context, Envs, Preparing, Prepared, find,
  image_of, set_image, set_variable, ready_made, add_executor, new_compilation, prepare_docker,
  prepare_deployment, prepare_all,
}
use netunicorn.Director.Mediator.Preparation.Dictionary.{
  Hit, IsConsistent, more, Hit-more, find-new, IsConsistent-more,
}

Kind-cases :
    (k : EnvironmentKind)
    → (k ≡ docker_image) ⊎ ((k ≡ shell_execution) ⊎ ((t : String) × (k ≡ other_environment t)))
Kind-cases docker_image = inl refl
Kind-cases shell_execution = inr (inl refl)
Kind-cases (other_environment t) = inr (inr (t, refl))

-- The deployment with its new identifier.
abbrev pub identified : Context → ℕ → Deployment → Deployment
identified c n d =
    set_variable "NETUNICORN_EXECUTOR_ID" (c.uuid n) (record d { executor_id = c.uuid n })

-- What the loop does not write.
abbrev pub Keeps : Db → Db → Type 0
Keeps db db' = (db'.locks ≡ db.locks) × (db'.experiments ≡ db.experiments)

-- A turn is that of a Docker image, or nothing waits, and the dictionary stays.
pub prepare_deployment-cases :
    (c : Context) (d : Deployment) (s : Preparing c)
    → (prepare_deployment c d s
        ≡ prepare_docker c (identified c s.drawn d) (record s { drawn = suc s.drawn }))
      ⊎ (((prepare_deployment c d s).0.1 ≡ false)
          × ((prepare_deployment c d s).1.envs ≡ s.envs)
          × Keeps s.db (prepare_deployment c d s).1.db)
unfolding prepare_deployment ready_made add_executor
prepare_deployment-cases c d s = elim (Bool-cases (is_locked c.username s.db d.node)) [
  | inl q ↦ inr (ground (arith, q), ground (arith, q), (ground (arith, q), ground (arith, q)))
  | inr q ↦ elim (Kind-cases d.environment_definition.kind) [
    | inl k ↦ inl (ground (arith, q, k))
    | inr (inl k) ↦
        inr
          (ground (arith, q, k), ground (arith, q, k), (ground (arith, q, k), ground (arith, q, k)))
    | inr (inr (t, k)) ↦
        inr
          (ground (arith, q, k), ground (arith, q, k), (ground (arith, q, k), ground (arith, q, k)))
  ]
]

abbrev pub Waits : (c : Context) → Envs c → Deployment → Type 0
Waits c envs d =
    (image : String) × (d.environment_definition.image ≡ some image)
    × Hit c envs d.execution_graph image (recipe d.environment_definition) d.node.architecture

-- An image that is given has a name.
abbrev pub has_name : Deployment → Bool
has_name d = elim d.environment_definition.image [ none ↦ true | some image ↦ not (image == "") ]

module _ (c : Context) (same_iff : (x y : c.Code) → (c.same x y ≡ true) ↔ (x ≡ y))
    (injective : (a b : Key) → c.hash a ≡ c.hash b → a ≡ b) where
  -- What a turn does to the dictionary, and what a deployment that waits has then.
  record IsTurn (d : Deployment) (s : Preparing c) (after : Prepared × Preparing c) : Type 0 where
    kept : (g i a : String) (r : Recipe) → Hit c s.envs g i r a → Hit c after.1.envs g i r a
    consistent : IsConsistent c after.1.envs
    waits : after.0.1 ≡ true → Waits c after.1.envs after.0.0

  named-Waits :
      (d : Deployment) (s : Preparing c) (image uid : String)
      → has_name d ≡ true
      → IsConsistent c s.envs
      → d.environment_definition.image ≡ some image
      → find c (c.hash (key d)) s.envs ≡ some uid
      → Waits c s.envs d
  unfolding key_of_image
  named-Waits d s image uid h v q p =
      let e =
        v.by_images d.execution_graph d.node.architecture image uid (ground (arith, h, q, p)) in
      (image, q, (uid, ground (arith, h, q, p), sym e))

  same-IsTurn :
      (d : Deployment) (s : Preparing c) (p : Prepared) (s' : Preparing c)
      → s'.envs ≡ s.envs
      → IsConsistent c s.envs
      → (p.1 ≡ true → Waits c s.envs p.0)
      → IsTurn d s (p, s')
  same-IsTurn d s p s' e v w = record {
    kept = λ g i a r h. rw e h;
    consistent = rw e v;
    waits = λ t. rw e (w t);
  }

  new-IsTurn :
      (d : Deployment) (s : Preparing c)
      → d.environment_definition.image ≡ none
      → find c (c.hash (key d)) s.envs ≡ none
      → IsConsistent c s.envs
      → IsTurn d s (new_compilation c d s)
  unfolding new_compilation
  new-IsTurn d s q p v =
      let r = recipe d.environment_definition in
      let uid = c.uuid s.drawn in
      let fresh : find c (c.hash (d.execution_graph, by_recipe r, d.node.architecture)) s.envs
          ≡ none =
        ground (arith, q, p) in
      let e : (new_compilation c d s).1.envs
          ≡ more c same_iff injective uid d.execution_graph r d.node.architecture s.envs =
        ground (arith, q) in
      record {
        kept = λ g i a t h. rw e (
            Hit-more c same_iff injective s.envs uid d.execution_graph d.node.architecture r fresh g
              i a t h);
        consistent = rw e (
            IsConsistent-more c same_iff injective s.envs uid d.execution_graph d.node.architecture
              r fresh v);
        waits = λ t. (
          image_of c uid,
          refl,
          (
            uid,
            rw e (find-new c same_iff injective uid d.execution_graph r d.node.architecture s.envs),
            refl,
          ),
        );
      }

  prepare_docker-IsTurn :
      (d : Deployment) (s : Preparing c)
      → has_name d ≡ true
      → IsConsistent c s.envs
      → IsTurn d s (prepare_docker c d s)
  unfolding prepare_docker ready_made
  prepare_docker-IsTurn d s h v = elim (Option-cases d.environment_definition.image) [
    | inl q ↦ elim (Option-cases (find c (c.hash (key d)) s.envs)) [
      | inl p ↦
          let e : prepare_docker c d s ≡ new_compilation c d s = ground (arith, p, q) in
          rw e (new-IsTurn d s q p v)
      | inr (u, p) ↦
          let e : prepare_docker c d s ≡ ((set_image (image_of c u) d, true), s) =
            ground (arith, p, q) in
          rw e (
            same-IsTurn d s _ s refl v (λ t. (
              image_of c u,
              refl,
              v.by_recipes d.execution_graph d.node.architecture u (recipe d.environment_definition)
                  (ground (arith, p, q)),
            )))
    ]
    | inr (i, q) ↦ elim (Option-cases (find c (c.hash (key d)) s.envs)) [
      | inl p ↦
          let e : prepare_docker c d s ≡ ready_made c d s = ground (arith, p, q) in
          rw e (same-IsTurn d s _ _ refl v (λ t. cc))
      | inr (u, p) ↦
          let e : prepare_docker c d s ≡ ((d, true), s) = ground (arith, p, q) in
          rw e (same-IsTurn d s (d, true) s refl v (λ t. named-Waits d s i u h v q p))
    ]
  ]

  prepare_deployment-IsTurn :
      (d : Deployment) (s : Preparing c)
      → has_name d ≡ true
      → IsConsistent c s.envs
      → IsTurn d s (prepare_deployment c d s)
  prepare_deployment-IsTurn d s h v = elim (prepare_deployment-cases c d s) [
    | inl e ↦
        let t =
          prepare_docker-IsTurn (identified c s.drawn d) (record s { drawn = suc s.drawn }) h v in
        rw e (record { kept = t.kept; consistent = t.consistent; waits = t.waits })
    | inr (w, e, o) ↦
        same-IsTurn d s (prepare_deployment c d s).0 (prepare_deployment c d s).1 e v (λ t. cc)
  ]

  prepare_all-kept :
      (ds : List Deployment) (s : Preparing c)
      → all has_name ds ≡ true
      → IsConsistent c s.envs
      → (g i a : String) (r : Recipe) → Hit c s.envs g i r a
      → Hit c (prepare_all c ds s).1.envs g i r a
  unfolding prepare_all
  prepare_all-kept [] s h v g i a r k = k
  prepare_all-kept (d ∷ ds) s h v g i a r k =
      let d' = set_variable "NETUNICORN_EXPERIMENT_ID" c.experiment_id d in
      let t = prepare_deployment-IsTurn d' s (ground arith) v in
      prepare_all-kept ds (prepare_deployment c d' s).1 (ground arith) t.consistent g i a r
        (t.kept g i a r k)

  -- What a deployment that waits has behind the loop.
  pub Waits-prepare_all :
      (ds : List Deployment) (s : Preparing c)
      → all has_name ds ≡ true
      → IsConsistent c s.envs
      → (i : ℕ) (d : Deployment) → get_elem? (prepare_all c ds s).0 i ≡ some (d, true)
      → Waits c (prepare_all c ds s).1.envs d
  unfolding prepare_all
  Waits-prepare_all [] s h v i d q = cc
  Waits-prepare_all (x ∷ ds) s h v zero d q =
      let x' = set_variable "NETUNICORN_EXPERIMENT_ID" c.experiment_id x in
      let t = prepare_deployment-IsTurn x' s (ground arith) v in
      let e : (prepare_deployment c x' s).0 ≡ (d, true) = ground (arith, q) in
      let (image, named, hit) = t.waits (ground (arith, e)) in
      let e0 : (prepare_deployment c x' s).0.0 ≡ d = ground (arith, e) in
      rw (← e0) (
        image,
        named,
        prepare_all-kept ds (prepare_deployment c x' s).1 (ground arith) t.consistent _ image _ _
            hit,
      )
  Waits-prepare_all (x ∷ ds) s h v (suc i) d q =
      let x' = set_variable "NETUNICORN_EXPERIMENT_ID" c.experiment_id x in
      let t = prepare_deployment-IsTurn x' s (ground arith) v in
      Waits-prepare_all ds (prepare_deployment c x' s).1 (ground arith) t.consistent i d q
