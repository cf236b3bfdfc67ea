-- ===== src/Pools/Slices.antt =====
-- Taking and skipping the items of a countable pool.
use netunicorn.Common.{
  ℕ, zero, suc, ◌+◌, ◌-◌, ◌≤◌, ◌<◌, String, Bool, true, false, ◌≡◌, refl, arith, ap, Option-cases,
  inl, inr,
}
use netunicorn.Pools.{
  Uncountable, Nodes, Items, countable, uncountable, end, node, pool, length_items, next,
  drop_items, skip_items, first_items, first_draws, first_of, append_items, take_items,
}

-- No item is a pool.
abbrev pub is_flat : Items → Bool
is_flat end = true
is_flat (node x xs) = is_flat xs
is_flat (pool p xs) = false

take-drop :
    (str : ℕ → String) (n : ℕ) (xs : Items)
    → is_flat xs ≡ true
    → append_items (take_items str n xs) (drop_items n xs) ≡ xs
unfolding take_items drop_items
take-drop str zero end h = refl
take-drop str (suc n) end h = refl
take-drop str zero (node x xs) h = refl
take-drop str (suc n) (node x xs) h = ap (node x) (take-drop str n xs h)
take-drop str zero (pool p xs) h = cc
take-drop str (suc n) (pool p xs) h = cc

take_all :
    (str : ℕ → String) (n : ℕ) (xs : Items)
    → is_flat xs ≡ true
    → length_items xs < n
    → append_items (take_items str n xs) end ≡ xs
unfolding take_items
take_all str n end h l = refl
take_all str zero (node x xs) h l = absurd (omega arith)
take_all str (suc n) (node x xs) h l = ap (node x) (take_all str n xs h (omega arith))
take_all str n (pool p xs) h l = cc

-- In a pool whose items are nodes, the nodes that are taken and the pool that is left by skipping
-- as many make up the pool, also if it has fewer nodes.
pub take-skip :
    (str : ℕ → String) (n : ℕ) (xs : Items)
    → is_flat xs ≡ true
    → append_items (take_items str n xs) (skip_items n xs) ≡ xs
unfolding skip_items
take-skip str n xs h = ground (arith, take-drop str n xs h, take_all str n xs h)

length-append_items :
    (xs ys : Items) → length_items (append_items xs ys) ≡ length_items xs + length_items ys
length-append_items end ys = omega arith
length-append_items (node x xs) ys = omega (arith, length-append_items xs ys)
length-append_items (pool p xs) ys = omega (arith, length-append_items xs ys)

first_items-le : (n : ℕ) (xs : Items) → length_items (first_items n xs) ≤ n
unfolding first_items
first_items-le zero xs = omega arith
first_items-le (suc n) end = omega arith
first_items-le (suc n) (node x xs) = omega (arith, first_items-le n xs)
first_items-le (suc n) (pool p xs) = omega (arith, first_items-le n xs)

first_draws-le :
    (str : ℕ → String) (n c : ℕ) (u : Uncountable) → length_items (first_draws str n c u) ≤ n
unfolding first_draws
first_draws-le str zero c u = omega arith
first_draws-le str (suc n) c u = elim (Option-cases (next str c u).0) [
  | inl q ↦ ground (arith, q)
  | inr (x, q) ↦ ground (arith, q, first_draws-le str n (next str c u).2 (next str c u).1)
]

first_of-le : (str : ℕ → String) (n : ℕ) (p : Nodes) → length_items (first_of str n p) ≤ n
first_of-le str n (countable xs) = first_items-le n xs
first_of-le str n (uncountable u c) = first_draws-le str n c u

-- `take` of a countable pool gives no more than it is asked for, with infinite pools inside too.
pub length-take_items :
    (str : ℕ → String) (n : ℕ) (xs : Items) → length_items (take_items str n xs) ≤ n
unfolding take_items
length-take_items str n end = omega arith
length-take_items str zero (node x xs) = omega arith
length-take_items str (suc n) (node x xs) = omega (arith, length-take_items str n xs)
length-take_items str n (pool p xs) =
    let taken = first_of str n p in
    let rest = take_items str (n - length_items taken) xs in
    omega (
      arith,
      first_of-le str n p,
      length-take_items str (n - length_items taken) xs,
      length-append_items taken rest,
    )
