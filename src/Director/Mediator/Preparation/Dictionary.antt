-- ===== src/Director/Mediator/Preparation/Dictionary.antt =====
-- The dictionary of the compilations that the preparation of an experiment asks for.
use netunicorn.Common.{
  String, true, none, some, [], ◌∷◌, ◌≡◌, ◌↔◌, refl, sym, ap, arith, if◌then◌else◌, Bool-cases, inl,
  inr, eq_iff,
}
use netunicorn.Director.Mediator.Preparation.{
  Recipe, by_image, by_recipe, Key, key_of_image, Context, Envs, find, put, image_of,
}

-- The name of an image is in its key, unless the name is empty.
key_of_image-injective : (i j : String) (r s : Recipe) → key_of_image i r ≡ key_of_image j s → i ≡ j
unfolding key_of_image
key_of_image-injective i j r s h = ground (arith, h, eq_iff i "", eq_iff j "")

recipe_named :
    (g a : String) (s : Recipe) (graph architecture : String) (r : Recipe) (image : String)
    → Path Key (g, by_recipe s, a) (graph, key_of_image image r, architecture)
    → Path Key (g, by_recipe s, a) (graph, by_recipe r, architecture)
unfolding key_of_image
recipe_named g a s graph architecture r image h = ground (arith, h)

image_named :
    (g a i graph architecture : String) (r : Recipe) (image : String)
    → Path Key (g, by_image i, a) (graph, key_of_image image r, architecture)
    → i ≡ image
unfolding key_of_image
image_named g a i graph architecture r image h = ground (arith, h)

not_recipe : {A : Type 0} (i : String) (r : Recipe) → by_image i ≡ by_recipe r → A
not_recipe i r h = ground (arith, h)

-- The dictionary finds the compilation that builds the image under the name.
abbrev pub Hit : (c : Context) → Envs c → String → String → Recipe → String → Type 0
Hit c envs graph image r architecture =
    (uid : String) × (find c (c.hash (graph, key_of_image image r, architecture)) envs ≡ some uid)
    × (image_of c uid ≡ image)

-- What the dictionary keeps: a recipe's compilation is found under the image's name too, and a
-- name's compilation is the one that the name is made of.
pub record IsConsistent (c : Context) (envs : Envs c) : Type 0 where
  pub by_recipes :
      (graph architecture uid : String) (r : Recipe)
      → find c (c.hash (graph, by_recipe r, architecture)) envs ≡ some uid
      → Hit c envs graph (image_of c uid) r architecture
  pub by_images :
      (graph architecture image uid : String)
      → find c (c.hash (graph, by_image image, architecture)) envs ≡ some uid
      → image ≡ image_of c uid

module _ (c : Context) (same_iff : (x y : c.Code) → (c.same x y ≡ true) ↔ (x ≡ y))
    (injective : (a b : Key) → c.hash a ≡ c.hash b → a ≡ b) where
  find-put :
      (k a : c.Code) (uid : String) (envs : Envs c)
      → find c k (put c a uid envs) ≡ (if c.same k a then some uid else find c k envs)
  unfolding find put
  find-put k a uid [] = refl
  find-put k a uid (entry ∷ envs) =
      ground (arith, find-put k a uid envs, same_iff a entry.0, same_iff k a, same_iff k entry.0)

  code_refl : (x : c.Code) → c.same x x ≡ true
  code_refl x = (same_iff x x).1 refl

  same_key : (a b : Key) → c.same (c.hash a) (c.hash b) ≡ true → a ≡ b
  same_key a b h = injective a b ((same_iff (c.hash a) (c.hash b)).0 h)

  -- The dictionary with a new compilation.
  abbrev pub more : String → String → Recipe → String → Envs c → Envs c
  more uid graph r architecture envs =
      put c (c.hash (graph, key_of_image (image_of c uid) r, architecture)) uid
        (put c (c.hash (graph, by_recipe r, architecture)) uid envs)

  find-more :
      (k : c.Code) (uid graph : String) (r : Recipe) (architecture : String) (envs : Envs c)
      → find c k (more uid graph r architecture envs) ≡ (
          if c.same k (c.hash (graph, key_of_image (image_of c uid) r, architecture))
          then some uid
          else if c.same k (c.hash (graph, by_recipe r, architecture))
          then some uid
          else find c k envs)
  find-more k uid graph r architecture envs =
      let k0 = c.hash (graph, by_recipe r, architecture) in
      let k1 = c.hash (graph, key_of_image (image_of c uid) r, architecture) in
      ground (arith, find-put k k1 uid (put c k0 uid envs), find-put k k0 uid envs)

  -- The new compilation is found under the name of its image.
  pub find-new :
      (uid graph : String) (r : Recipe) (architecture : String) (envs : Envs c)
      → find c
          (c.hash (graph, key_of_image (image_of c uid) r, architecture))
          (more uid graph r architecture envs)
        ≡ some uid
  find-new uid graph r architecture envs =
      let k = c.hash (graph, key_of_image (image_of c uid) r, architecture) in
      ground (arith, find-more k uid graph r architecture envs, code_refl k)

  pub Hit-more :
      (envs : Envs c) (uid graph architecture : String) (r : Recipe)
      → find c (c.hash (graph, by_recipe r, architecture)) envs ≡ none
      → (g i a : String) (s : Recipe) → Hit c envs g i s a
      → Hit c (more uid graph r architecture envs) g i s a
  Hit-more envs uid graph architecture r fresh g i a s (u, found, named) =
      let x : Key = (g, key_of_image i s, a) in
      let x1 : Key = (graph, key_of_image (image_of c uid) r, architecture) in
      let x0 : Key = (graph, by_recipe r, architecture) in
      let f = find-more (c.hash x) uid graph r architecture envs in
      elim (Bool-cases (c.same (c.hash x) (c.hash x1))) [
        | inl q ↦
            let e = ap (λ (y : Key). y.1) (same_key x x1 q) in
            (uid, ground (arith, f, q), sym (key_of_image-injective i (image_of c uid) s r e))
        | inr q ↦ elim (Bool-cases (c.same (c.hash x) (c.hash x0))) [
          | inl p ↦ (uid, ground (arith, f, p), ground (arith, ap c.hash (same_key x x0 p)))
          | inr p ↦ (u, ground (arith, f, p, q), named)
        ]
      ]

  new_recipe :
      (envs : Envs c) (uid graph architecture : String) (r : Recipe) (g a u : String) (s : Recipe)
      → Path Key (g, by_recipe s, a) (graph, by_recipe r, architecture)
      → some uid ≡ some u
      → Hit c (more uid graph r architecture envs) g (image_of c u) s a
  new_recipe envs uid graph architecture r g a u s h e =
      (uid, ground (arith, h, e, find-new uid graph r architecture envs), ground (arith, e))

  pub IsConsistent-more :
      (envs : Envs c) (uid graph architecture : String) (r : Recipe)
      → find c (c.hash (graph, by_recipe r, architecture)) envs ≡ none
      → IsConsistent c envs
      → IsConsistent c (more uid graph r architecture envs)
  IsConsistent-more envs uid graph architecture r fresh v = record {
    by_recipes = λ g a u s h.
        let x : Key = (g, by_recipe s, a) in
        let x1 : Key = (graph, key_of_image (image_of c uid) r, architecture) in
        let x0 : Key = (graph, by_recipe r, architecture) in
        let f = find-more (c.hash x) uid graph r architecture envs in
        elim (Bool-cases (c.same (c.hash x) (c.hash x1))) [
          | inl q ↦
              new_recipe envs uid graph architecture r g a u s
                (recipe_named g a s graph architecture r (image_of c uid) (same_key x x1 q))
                (ground (arith, f, q, h))
          | inr q ↦ elim (Bool-cases (c.same (c.hash x) (c.hash x0))) [
            | inl p ↦
                new_recipe envs uid graph architecture r g a u s (same_key x x0 p)
                  (ground (arith, f, p, q, h))
            | inr p ↦
                Hit-more envs uid graph architecture r fresh g (image_of c u) a s
                  (v.by_recipes g a u s (ground (arith, f, p, q, h)))
          ]
        ];
    by_images = λ g a i u h.
        let x : Key = (g, by_image i, a) in
        let x1 : Key = (graph, key_of_image (image_of c uid) r, architecture) in
        let x0 : Key = (graph, by_recipe r, architecture) in
        let f = find-more (c.hash x) uid graph r architecture envs in
        elim (Bool-cases (c.same (c.hash x) (c.hash x1))) [
          | inl q ↦
              let e = image_named g a i graph architecture r (image_of c uid) (same_key x x1 q) in
              ground (arith, e, f, q, h)
          | inr q ↦ elim (Bool-cases (c.same (c.hash x) (c.hash x0))) [
            | inl p ↦ not_recipe i r (ap (λ (y : Key). y.1) (same_key x x0 p))
            | inr p ↦ v.by_images g a i u (ground (arith, f, p, q, h))
          ]
        ];
  }
