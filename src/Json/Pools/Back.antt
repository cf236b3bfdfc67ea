-- ===== src/Json/Pools/Back.antt =====
-- Pools read back as they were.
use netunicorn.Common.{ℕ, true, false, Option, none, some, ◌≡◌, refl}
use netunicorn.Base.{Node}
use netunicorn.Pools.{
  Uncountable, Nodes, Items, countable, uncountable, end, node, pool, new_uncountable,
}
use netunicorn.Json.{All, elements-back}
use netunicorn.Json.Entities.{node_json}
use netunicorn.Json.RoundTrips.{IsPlain, node-back}
use netunicorn.Json.Pools.{
  limit_json, limit_from, pool_json, items_json, is_pool, template_from, uncountable_from,
  pool_from, items_from,
}

-- The pool is as its constructor makes it: nothing was drawn from it, and the limit is not zero.
abbrev pub IsUnused : Uncountable → ℕ → Type 0
IsUnused u c = (new_uncountable u.template u.soft_limit ≡ some u) × (c ≡ 1)

unfoldable mutual
  pub AreFresh : Items → Type 0
  AreFresh end = Unit {0}
  AreFresh (node x xs) = IsPlain x × AreFresh xs
  AreFresh (pool p xs) = IsFresh p × AreFresh xs

  pub IsFresh : Nodes → Type 0
  IsFresh (countable xs) = AreFresh xs
  IsFresh (uncountable u c) = All IsPlain u.template × IsUnused u c

template-back : (x : Node) → IsPlain x → template_from (node_json x) ≡ some x
unfolding node_json
template-back x h = node-back x h

limit-back : (o : Option ℕ) → limit_from (some (limit_json o)) ≡ some o
limit-back none = refl
limit-back (some n) = refl

is_pool-node_json : (x : Node) → is_pool (node_json x) ≡ false
unfolding node_json
is_pool-node_json x = refl

is_pool-pool_json : (p : Nodes) → is_pool (pool_json p) ≡ true
unfolding pool_json
is_pool-pool_json (countable xs) = refl
is_pool-pool_json (uncountable u c) = refl

-- A pool reads back as it was, at any depth, if its nodes do, and uncountable pools are as their
-- constructor makes them.
mutual
  unfolding pool_from pool_json AreFresh uncountable_from

  pub pool-back : (p : Nodes) → IsFresh p → pool_from (pool_json p) ≡ some p
  pool-back (countable xs) h = rw (items-back xs h) refl
  pool-back (uncountable u c) (h, k) =
      rw
        (
          elements-back node_json template_from IsPlain template-back u.template h,
          limit-back u.soft_limit,
          k.0,
          k.1,
        )
        refl

  items-back : (xs : Items) → AreFresh xs → items_from (items_json xs) ≡ some xs
  items-back end h = refl
  items-back (node x xs) (h, hs) = rw (is_pool-node_json x, node-back x h, items-back xs hs) refl
  items-back (pool p xs) (h, hs) = rw (is_pool-pool_json p, pool-back p h, items-back xs hs) refl
