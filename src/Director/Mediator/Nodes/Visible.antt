-- ===== src/Director/Mediator/Nodes/Visible.antt =====
-- Which nodes a user sees.
use netunicorn.Common.{
  String, Bool, true, false, not, ◌&&◌, ◌||◌, Option, none, some, List, [], ◌∷◌, ◌≡◌, refl, sym,
  ◌∙◌, arith, any, if◌then◌else◌,
}
use netunicorn.Base.{Node}
use netunicorn.Pools.{Nodes, Items, countable, uncountable, end, node, pool}
use netunicorn.Pools.Filter.{any_node, any_item, any-keep, any-add_pool}
use netunicorn.Director.Outcome.{success, failure}
use netunicorn.Director.Db.{Db}
use netunicorn.Director.Mediator.Nodes.{
  is_locked, filter_locked, filter_locked_pool, is_empty, is_allowed, filter_tags, filter_tagged,
  get_nodes,
}

-- A node with the property that the user may lock; the template of an uncountable pool has no locks.
unfoldable mutual
  pub any_free : String → Db → (Node → Bool) → Items → Bool
  any_free username db p end = false
  any_free username db p (node x xs) =
      not (is_locked username db x) && p x || any_free username db p xs
  any_free username db p (pool q xs) = any_free_node username db p q || any_free username db p xs

  pub any_free_node : String → Db → (Node → Bool) → Nodes → Bool
  any_free_node username db p (countable xs) = any_free username db p xs
  any_free_node username db p (uncountable u c) = any p u.template

mutual
  unfolding filter_locked any_free any_node

  any-filter_locked :
      (username : String) (db : Db) (p : Node → Bool) (xs : Items)
      → any_item p (filter_locked username db xs) ≡ any_free username db p xs
  any-filter_locked username db p end = refl
  any-filter_locked username db p (node x xs) = ground (arith, any-filter_locked username db p xs)
  any-filter_locked username db p (pool q xs) =
      any-filter_locked_pool username db p q (filter_locked username db xs)
      ∙ (rw (any-filter_locked username db p xs) refl)

  any-filter_locked_pool :
      (username : String) (db : Db) (p : Node → Bool) (q : Nodes) (rest : Items)
      → any_item p (filter_locked_pool username db q rest)
        ≡ (any_free_node username db p q || any_item p rest)
  any-filter_locked_pool username db p (countable ys) rest =
      any-add_pool p (countable (filter_locked username db ys)) rest
      ∙ (rw (any-filter_locked username db p ys) refl)
  any-filter_locked_pool username db p (uncountable u c) rest = refl

mutual
  unfolding filter_tags any_node

  any-filter_tags :
      (tags : List String) (p : Node → Bool) (q : Nodes)
      → any_node p (filter_tags tags q) ≡ any_node (λ x. is_allowed tags x && p x) q
  any-filter_tags tags p (countable xs) = any-filter_tagged tags p xs
  any-filter_tags tags p (uncountable u c) = any-keep p (is_allowed tags) u.template

  any-filter_tagged :
      (tags : List String) (p : Node → Bool) (xs : Items)
      → any_item p (filter_tagged tags xs) ≡ any_item (λ x. is_allowed tags x && p x) xs
  any-filter_tagged tags p end = refl
  any-filter_tagged tags p (node x xs) = ground (arith, any-filter_tagged tags p xs)
  any-filter_tagged tags p (pool q xs) = ground (
    arith,
    any-add_pool p (filter_tags tags q) (filter_tagged tags xs),
    any-filter_tags tags p q,
    any-filter_tagged tags p xs,
  )

-- What the access tags let the user see; a failed request for them hides all.
abbrev pub is_visible : Option (List String) → Node → Bool
is_visible none x = false
is_visible (some tags) x = if is_empty tags then true else is_allowed tags x

any_none : (xs : List Node) → any (λ x. false) xs ≡ false
any_none [] = refl
any_none (x ∷ xs) = any_none xs

mutual
  unfolding any_free

  any_free_none :
      (username : String) (db : Db) (xs : Items) → any_free username db (λ x. false) xs ≡ false
  any_free_none username db end = refl
  any_free_none username db (node x xs) = ground (arith, any_free_none username db xs)
  any_free_none username db (pool q xs) =
      ground (arith, any_free_node_none username db q, any_free_none username db xs)

  any_free_node_none :
      (username : String) (db : Db) (q : Nodes) → any_free_node username db (λ x. false) q ≡ false
  any_free_node_none username db (countable xs) = any_free_none username db xs
  any_free_node_none username db (uncountable u c) = any_none u.template

-- The user sees exactly the nodes of the pools, at any depth, that no other user has locked and
-- that the access tags allow; the templates of uncountable pools are not tested for locks.
pub any-get_nodes :
    (nodes : Items) (accesstags : Option (List String)) (username : String) (db : Db)
    (p : Node → Bool)
    → (elim (get_nodes (success nodes) accesstags username db) as (λ r. Bool) [
      | failure e ↦ false
      | success xs ↦ any_item p xs
    ])
      ≡ any_free username db (λ x. is_visible accesstags x && p x) nodes
unfolding get_nodes any_node
any-get_nodes nodes none username db p = sym (any_free_none username db nodes)
any-get_nodes nodes (some []) username db p = any-filter_locked username db p nodes
any-get_nodes nodes (some (t ∷ ts)) username db p =
    any-filter_tagged (t ∷ ts) p (filter_locked username db nodes)
    ∙ any-filter_locked username db (λ x. is_allowed (t ∷ ts) x && p x) nodes
