-- ===== src/Director/Mediator/Nodes.antt =====
-- `get_nodes` in engine.py of the mediator: the filters by locks and by access tags. The pools come
-- from the infrastructure service, so that nothing was drawn from them.
pub mod Visible
use netunicorn.Common.{
  String, Bool, true, false, not, ◌&&◌, ◌||◌, Option, none, some, List, [], ◌∷◌, ◌==◌, keep, any,
  has_text, if◌then◌else◌,
}
use netunicorn.Base.{Node, connector, access_tags}
use netunicorn.Pools.{Uncountable, Nodes, Items, countable, uncountable, end, node, pool, add_pool}
use netunicorn.Director.Outcome.{Outcome, success, failure}
use netunicorn.Director.Db.{Db, LockRow, select_one}

abbrev pub is_lock_of : Node → LockRow → Bool
is_lock_of x l = l.node_name == x.name && l.connector == connector x

-- Another user has the lock of the node.
unfoldable pub is_locked : String → Db → Node → Bool
is_locked username db x = elim (select_one (is_lock_of x) db.locks) [
  | none ↦ false
  | some l ↦ not (l.username == username)
]

-- `__filter_locked_nodes`: an uncountable pool stays as it is.
unfoldable mutual
  pub filter_locked : String → Db → Items → Items
  filter_locked username db end = end
  filter_locked username db (node x xs) =
      let rest = filter_locked username db xs in
      if is_locked username db x then rest else node x rest
  filter_locked username db (pool p xs) =
      filter_locked_pool username db p (filter_locked username db xs)

  pub filter_locked_pool : String → Db → Nodes → Items → Items
  filter_locked_pool username db (countable ys) rest =
      add_pool (countable (filter_locked username db ys)) rest
  filter_locked_pool username db (uncountable u c) rest = pool (uncountable u c) rest

abbrev pub is_empty {ℓ} : {A : Type ℓ} → List A → Bool
is_empty [] = true
is_empty (x ∷ xs) = false

-- A node without tags is for all users, and one whose tags cannot be read for none.
unfoldable pub is_allowed : List String → Node → Bool
is_allowed user_tags x = elim (access_tags x) [
  | none ↦ false
  | some tags ↦ is_empty tags || any (λ t. has_text t user_tags) tags
]

-- `__filter_nodes_by_access_tags`, for a user with tags.
unfoldable mutual
  pub filter_tags : List String → Nodes → Nodes
  filter_tags user_tags (countable xs) = countable (filter_tagged user_tags xs)
  filter_tags user_tags (uncountable u c) =
      uncountable
        (record u {
          template = keep (is_allowed user_tags) u.template;
          ring = keep (is_allowed user_tags) u.ring;
        })
        c

  pub filter_tagged : List String → Items → Items
  filter_tagged user_tags end = end
  filter_tagged user_tags (node x xs) =
      let rest = filter_tagged user_tags xs in if is_allowed user_tags x then node x rest else rest
  filter_tagged user_tags (pool p xs) =
      add_pool (filter_tags user_tags p) (filter_tagged user_tags xs)

-- `__filter_access_tags`; `accesstags` is the answer of the authentication service, `none` if the
-- request fails, and null stands as the empty list.
unfoldable pub filter_access_tags : Option (List String) → Items → Items
unfolding filter_tags
filter_access_tags none xs = end
filter_access_tags (some user_tags) xs =
    if is_empty user_tags then xs else filter_tagged user_tags xs

-- `answer` is what the infrastructure service gives, and the tags are asked for afterwards.
unfoldable pub get_nodes : Outcome Items → Option (List String) → String → Db → Outcome Items
unfolding filter_locked filter_access_tags
get_nodes (failure e) accesstags username db = failure e
get_nodes (success nodes) accesstags username db =
    success (filter_access_tags accesstags (filter_locked username db nodes))
