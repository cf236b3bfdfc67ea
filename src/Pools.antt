-- ===== src/Pools.antt =====
-- The pools of nodes of netunicorn-base/src/netunicorn/base/nodes.py.
pub mod Filter
pub mod Draws
pub mod Slices
use netunicorn.Common.{
  ℕ, zero, suc, ◌+◌, ◌-◌, ◌%◌, ◌*◌, String, Bool, true, false, ◌&&◌, ◌||◌, not, Option, none, some,
  List, [], ◌∷◌, ◌++◌, keep, any, map, ltb, nat_eq, concat, length, insert, if◌then◌else◌,
}
use netunicorn.Base.{Node, text}

-- UncountableNodePool. `ring` is what `itertools.cycle` gives next, up to its first repetition, and
-- the soft limit is a natural number or `none` for infinity. The counter of the names is an object
-- that a filtered pool shares with its origin, so it is no field: the operations take its value.
pub record Uncountable : Type 0 where
  pub template : List Node
  pub ring : List Node
  pub soft_limit : Option ℕ

-- Nodes: a CountableNodePool of items, each a node or a pool, or an UncountableNodePool, with the
-- value of its counter.
mutual
  pub data Nodes : Type 0 where
    countable : Items → Nodes
    uncountable : Uncountable → ℕ → Nodes

  pub data Items : Type 0 where
    end : Items
    node : Node → Items → Items
    pool : Nodes → Items → Items

-- `len(pool)`
abbrev pub length_items : Items → ℕ
length_items end = 0
length_items (node x xs) = suc (length_items xs)
length_items (pool p xs) = suc (length_items xs)

abbrev pub size : Nodes → ℕ
size (countable xs) = length_items xs
size (uncountable u c) = length u.template

-- The constructor of UncountableNodePool: a limit that is not positive is a ValueError.
unfoldable pub new_uncountable : List Node → Option ℕ → Option Uncountable
new_uncountable template none =
    some (record { template = template; ring = template; soft_limit = none })
new_uncountable template (some zero) = none
new_uncountable template (some (suc n)) =
    some (record { template = template; ring = template; soft_limit = some (suc n) })

abbrev pub is_past : ℕ → Option ℕ → Bool
is_past number none = false
is_past number (some limit) = ltb limit number

-- `node.name += str(number)` on a copy; `str` on numbers is a parameter.
abbrev pub numbered : (ℕ → String) → ℕ → Node → Node
numbered str number x = record x { name = concat x.name (str number) }

-- `__next__`, with the value of the counter before and after; `none` is StopIteration.
abbrev pub rotated : Node → List Node → Uncountable → Uncountable
rotated x xs u = record u { ring = xs ++ x ∷ [] }

pub draw : (ℕ → String) → List Node → ℕ → Uncountable → Option Node × Uncountable × ℕ
draw str [] c u = (none, u, c)
draw str (x ∷ xs) c u =
    (if is_past c u.soft_limit then none else some (numbered str c x), rotated x xs u, c + 1)

unfoldable pub next : (ℕ → String) → ℕ → Uncountable → Option Node × Uncountable × ℕ
unfolding draw
next str c u = draw str u.ring c u

-- `take` of an UncountableNodePool: a StopIteration leaves it.
unfoldable pub take_nodes :
    (ℕ → String) → ℕ → ℕ → Uncountable → Option (List Node) × Uncountable × ℕ
unfolding next
take_nodes str zero c u = (some [], u, c)
take_nodes str (suc count) c u =
    let (o, u', c') = next str c u in
    elim o [
      | none ↦ (none, u', c')
      | some x ↦
          let (rest, u'', c'') = take_nodes str count c' u' in
          (elim rest [ none ↦ none | some xs ↦ some (x ∷ xs) ], u'', c'')
    ]

-- `skip` of an UncountableNodePool; `none` is the ZeroDivisionError of an empty template.
unfoldable pub rotate : ℕ → List Node → List Node
rotate zero xs = xs
rotate (suc n) [] = []
rotate (suc n) (x ∷ xs) = rotate n (xs ++ x ∷ [])

unfoldable pub skip_nodes : ℕ → Uncountable → Option Uncountable
unfolding rotate
skip_nodes count u = elim u.template [
  | [] ↦ none
  | x ∷ xs ↦ some (record u { ring = rotate (count % length (x ∷ xs)) u.ring })
]

abbrev pub filter_uncountable : (Node → Bool) → Uncountable → Uncountable
filter_uncountable f u = record {
  template = keep f u.template;
  ring = keep f u.template;
  soft_limit = u.soft_limit;
}

-- A pool that is left empty is not added.
abbrev pub add_pool : Nodes → Items → Items
add_pool p xs = if nat_eq (size p) 0 then xs else pool p xs

-- `filter` of the two classes.
unfoldable mutual
  pub filter : (Node → Bool) → Nodes → Nodes
  filter f (countable xs) = countable (filter_items f xs)
  filter f (uncountable u c) = uncountable (filter_uncountable f u) c

  pub filter_items : (Node → Bool) → Items → Items
  filter_items f end = end
  filter_items f (node x xs) = let rest = filter_items f xs in if f x then node x rest else rest
  filter_items f (pool p xs) = add_pool (filter f p) (filter_items f xs)

-- `set_property("connector", …)`
abbrev pub set_connector : String → Node → Node
set_connector c x = record x { properties = insert "connector" (text c) x.properties }

unfoldable mutual
  pub set_property : String → Nodes → Nodes
  set_property c (countable xs) = countable (set_items c xs)
  set_property c (uncountable u n) =
      uncountable
        (record u {
          template = map (set_connector c) u.template;
          ring = map (set_connector c) u.ring;
        })
        n

  pub set_items : String → Items → Items
  set_items c end = end
  set_items c (node x xs) = node (set_connector c x) (set_items c xs)
  set_items c (pool p xs) = pool (set_property c p) (set_items c xs)

-- `skip` of a CountableNodePool, which counts its items.
unfoldable pub drop_items : ℕ → Items → Items
drop_items zero xs = xs
drop_items (suc n) end = end
drop_items (suc n) (node x xs) = drop_items n xs
drop_items (suc n) (pool p xs) = drop_items n xs

unfoldable pub skip_items : ℕ → Items → Items
unfolding drop_items
skip_items count xs = if ltb (length_items xs) count then end else drop_items count xs

-- The iteration over an item that `take` of a CountableNodePool chains, cut off after `count`
-- items. A nested countable pool gives its items as they are, also if they are pools.
unfoldable pub first_items : ℕ → Items → Items
first_items zero xs = end
first_items (suc n) end = end
first_items (suc n) (node x xs) = node x (first_items n xs)
first_items (suc n) (pool p xs) = pool p (first_items n xs)

-- The nodes that an uncountable pool gives until it stops.
unfoldable pub first_draws : (ℕ → String) → ℕ → ℕ → Uncountable → Items
unfolding next
first_draws str zero c u = end
first_draws str (suc n) c u =
    let (o, u', c') = next str c u in
    elim o [ none ↦ end | some x ↦ node x (first_draws str n c' u') ]

abbrev pub first_of : (ℕ → String) → ℕ → Nodes → Items
first_of str n (countable xs) = first_items n xs
first_of str n (uncountable u c) = first_draws str n c u

abbrev pub append_items : Items → Items → Items
append_items end ys = ys
append_items (node x xs) ys = node x (append_items xs ys)
append_items (pool p xs) ys = pool p (append_items xs ys)

-- `take` of a CountableNodePool. What it leaves of the iterators is not modelled.
unfoldable pub take_items : (ℕ → String) → ℕ → Items → Items
unfolding first_items first_draws
take_items str count end = end
take_items str zero (node x xs) = end
take_items str (suc count) (node x xs) = node x (take_items str count xs)
take_items str count (pool p xs) =
    let taken = first_of str count p in
    append_items taken (take_items str (count - length_items taken) xs)
