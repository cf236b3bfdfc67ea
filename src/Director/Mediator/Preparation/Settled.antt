-- ===== src/Director/Mediator/Preparation/Settled.antt =====
-- The deployments that waited, after the compilations.
use netunicorn.Common.{
  ℕ, String, Bool, true, false, none, some, [], ◌∷◌, ◌≡◌, ◌↔◌, arith, all, or_else, get_elem?,
  has_text, Bool-cases, Option-cases, inl, inr, eq_refl,
}
use netunicorn.Base.{Deployment, Experiment}
use netunicorn.Director.Db.{Db, select_one}
use netunicorn.Director.Mediator.Preparation.{
  Key, Context, Envs, key, find, image_of, is_compilation,
}
use netunicorn.Director.Mediator.Preparation.Dictionary.{IsConsistent}
use netunicorn.Director.Mediator.Preparation.Waiting.{has_name, Waits-prepare_all}
use netunicorn.Director.Mediator.Preparation.Task.{
  compilation_ids, prepare_items, compilation_result, settle,
}

-- The compilation of the experiment has ended well.
abbrev pub is_built : Context → String → Db → Bool
is_built c uid db = elim (select_one (is_compilation c.experiment_id uid) db.compilations) [
  | none ↦ false
  | some r ↦ or_else r.status false
]

has-compilation_ids :
    (c : Context) (k : c.Code) (uid : String) (envs : Envs c)
    → find c k envs ≡ some uid
    → has_text uid (compilation_ids envs) ≡ true
unfolding find
has-compilation_ids c k uid [] h = cc
has-compilation_ids c k uid (entry ∷ envs) h = elim (Bool-cases (c.same k entry.0)) [
  | inl q ↦ let e : entry.1 ≡ uid = ground (arith, q, h) in ground (arith, e, eq_refl uid)
  | inr q ↦ ground (arith, q, h, has-compilation_ids c k uid envs (ground (arith, q, h)))
]

prepared-settle :
    (c : Context) (envs : Envs c) (db : Db) (d : Deployment) (uid : String)
    → find c (c.hash (key d)) envs ≡ some uid
    → (settle c envs db (d, true)).0.prepared ≡ is_built c uid db
unfolding settle compilation_result
prepared-settle c envs db d uid h =
    elim (Option-cases (select_one (is_compilation c.experiment_id uid) db.compilations)) [
      | inl q ↦ ground (arith, h, q)
      | inr (r, q) ↦ elim (Bool-cases (or_else r.status false)) [
        | inl b ↦ ground (arith, h, q, b)
        | inr b ↦ ground (arith, h, q, b)
      ]
    ]

empty-IsConsistent : (c : Context) → IsConsistent c []
unfolding find
empty-IsConsistent c = record { by_recipes = λ g a u r h. cc; by_images = λ g a i u h. cc }

-- If different keys have different hashes and each image that is given has a name, then every
-- deployment that waits has an image, the image is that of a compilation that the task waits for,
-- and the deployment is prepared afterwards exactly if this compilation has ended well.
pub prepared-prepare_items :
    (c : Context) (experiment : Experiment) (db later : Db) (i : ℕ) (d : Deployment)
    → ((x y : c.Code) → (c.same x y ≡ true) ↔ (x ≡ y))
    → ((a b : Key) → c.hash a ≡ c.hash b → a ≡ b)
    → all has_name experiment.deployment_map ≡ true
    → get_elem? (prepare_items c experiment db).0.items i ≡ some (d, true)
    → (uid : String) × (d.environment_definition.image ≡ some (image_of c uid))
      × (has_text uid (compilation_ids (prepare_items c experiment db).0.envs) ≡ true)
      × ((settle c (prepare_items c experiment db).0.envs later (d, true)).0.prepared
          ≡ is_built c uid later)
unfolding prepare_items
prepared-prepare_items c experiment db later i d same_iff injective h q =
    let (image, named, (uid, found, made)) =
      Waits-prepare_all c same_iff injective experiment.deployment_map
        (record { db = db; envs = []; drawn = 0 }) h (empty-IsConsistent c) i d q in
    let e : find c (c.hash (key d)) (prepare_items c experiment db).0.envs ≡ some uid =
      ground (arith, named, found) in
    (
      uid,
      ground (arith, named, made),
      has-compilation_ids c _ uid _ e,
      prepared-settle c _ later d uid e,
    )
