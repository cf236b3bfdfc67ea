-- ===== src/Pools/Filter.antt =====
-- Which nodes a filtered pool has.
use netunicorn.Common.{
  String, Bool, true, false, ◌&&◌, ◌||◌, List, [], ◌∷◌, ◌≡◌, refl, arith, any, keep, map, length,
  nat_eq, Bool-cases, inl, inr,
}
use netunicorn.Base.{Node}
use netunicorn.Pools.{
  Nodes, Items, countable, uncountable, end, node, pool, size, add_pool, filter, filter_items,
  set_property, set_items, set_connector,
}

-- A node of the pool, at any depth, has the property; of an uncountable pool the template counts.
unfoldable mutual
  pub any_node : (Node → Bool) → Nodes → Bool
  any_node p (countable xs) = any_item p xs
  any_node p (uncountable u c) = any p u.template

  pub any_item : (Node → Bool) → Items → Bool
  any_item p end = false
  any_item p (node x xs) = p x || any_item p xs
  any_item p (pool q xs) = any_node p q || any_item p xs

any-empty : (p : Node → Bool) (q : Nodes) → nat_eq (size q) 0 ≡ true → any_node p q ≡ false
unfolding any_node
any-empty p (countable end) h = refl
any-empty p (countable (node x xs)) h = ground arith
any-empty p (countable (pool q xs)) h = ground arith
any-empty p (uncountable u c) h = any-none p u.template h
  where
    any-none : (p : Node → Bool) (xs : List Node) → nat_eq (length xs) 0 ≡ true → any p xs ≡ false
    any-none p [] h = refl
    any-none p (x ∷ xs) h = ground arith

pub any-keep {ℓ} :
    {A : Type ℓ} (p f : A → Bool) (xs : List A) → any p (keep f xs) ≡ any (λ x. f x && p x) xs
any-keep p f [] = refl
any-keep p f (x ∷ xs) = ground (arith, any-keep p f xs)

pub any-add_pool :
    (p : Node → Bool) (q : Nodes) (xs : Items)
    → any_item p (add_pool q xs) ≡ (any_node p q || any_item p xs)
unfolding any_node
any-add_pool p q xs = elim (Bool-cases (nat_eq (size q) 0)) [
  | inl h ↦ rw (h, any-empty p q h) refl
  | inr h ↦ rw h refl
]

mutual
  unfolding any_node filter

  any-filter_pool :
      (p f : Node → Bool) (q : Nodes) → any_node p (filter f q) ≡ any_node (λ x. f x && p x) q
  any-filter_pool p f (countable xs) = any-filter_items p f xs
  any-filter_pool p f (uncountable u c) = any-keep p f u.template

  any-filter_items :
      (p f : Node → Bool) (xs : Items)
      → any_item p (filter_items f xs) ≡ any_item (λ x. f x && p x) xs
  any-filter_items p f end = refl
  any-filter_items p f (node x xs) = ground (arith, any-filter_items p f xs)
  any-filter_items p f (pool q xs) = ground (
    arith,
    any-add_pool p (filter f q) (filter_items f xs),
    any-filter_pool p f q,
    any-filter_items p f xs,
  )

-- A filtered pool has exactly the nodes of the pool, at any depth, that the function accepts; in an
-- uncountable pool these are the nodes of the template.
pub any-filter :
    (p f : Node → Bool) (q : Nodes) → any_node p (filter f q) ≡ any_node (λ x. f x && p x) q
any-filter p f q = any-filter_pool p f q

any-map :
    (p : Node → Bool) (c : String) (xs : List Node)
    → any p (map (set_connector c) xs) ≡ any (λ x. p (set_connector c x)) xs
any-map p c [] = refl
any-map p c (x ∷ xs) = ground (arith, any-map p c xs)

mutual
  unfolding any_node set_property

  any-set_pool :
      (p : Node → Bool) (c : String) (q : Nodes)
      → any_node p (set_property c q) ≡ any_node (λ x. p (set_connector c x)) q
  any-set_pool p c (countable xs) = any-set_items p c xs
  any-set_pool p c (uncountable u n) = any-map p c u.template

  any-set_items :
      (p : Node → Bool) (c : String) (xs : Items)
      → any_item p (set_items c xs) ≡ any_item (λ x. p (set_connector c x)) xs
  any-set_items p c end = refl
  any-set_items p c (node x xs) = ground (arith, any-set_items p c xs)
  any-set_items p c (pool q xs) = ground (arith, any-set_pool p c q, any-set_items p c xs)

pub any-set_property :
    (p : Node → Bool) (c : String) (q : Nodes)
    → any_node p (set_property c q) ≡ any_node (λ x. p (set_connector c x)) q
any-set_property p c q = any-set_pool p c q
