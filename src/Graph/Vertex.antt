-- ===== src/Graph/Vertex.antt =====
-- The objects that stand as nodes in an execution graph. A task is the address of its object, as
-- Python compares tasks by identity and hashes them by name; `other` stands for the objects of any
-- further type.
use netunicorn.Common.{
  ℕ, String, Bool, true, false, not, ◌&&◌, ◌||◌, List, [], ◌∷◌, ◌++◌, ◌≡◌, ◌↔◌, refl, arith, ◌==◌,
  eq_iff, nat_eq, if◌then◌else◌, all,
}

pub data Node : Type 0 where
  text : String → Node
  number : ℕ → Node
  task : ℕ → Node
  dispatcher : ℕ → Node
  other : ℕ → Node

abbrev pub root : Node
root = text "root"

unfoldable pub node_eq : Node → Node → Bool
node_eq (text s) (text t) = s == t
node_eq (number a) (number b) = nat_eq a b
node_eq (task a) (task b) = nat_eq a b
node_eq (dispatcher a) (dispatcher b) = nat_eq a b
node_eq (other a) (other b) = nat_eq a b
node_eq _ _ = false

pub node_eq_iff : (u v : Node) → (node_eq u v ≡ true) ↔ (u ≡ v)
unfolding node_eq
node_eq_iff (text s) (text t) = ground (arith, eq_iff s t)
node_eq_iff (number a) (number b) = ground arith
node_eq_iff (task a) (task b) = ground arith
node_eq_iff (dispatcher a) (dispatcher b) = ground arith
node_eq_iff (other a) (other b) = ground arith
node_eq_iff _ _ = ground arith

pub node_eq_refl : (u : Node) → node_eq u u ≡ true
node_eq_refl u = (node_eq_iff u u).1 refl

abbrev pub is_task : Node → Bool
is_task (task a) = true
is_task _ = false

abbrev pub is_dispatcher : Node → Bool
is_dispatcher (dispatcher a) = true
is_dispatcher _ = false

-- `v in nodes`
unfoldable pub has_node : List Node → Node → Bool
has_node [] v = false
has_node (u ∷ us) v = node_eq u v || has_node us v

unfoldable pub distinct : List Node → Bool
distinct [] = true
distinct (u ∷ us) = not (has_node us u) && distinct us

-- `nodes.add(v)` and `nodes.remove(v)` of a Python set.
unfoldable pub insert : Node → List Node → List Node
insert v us = if has_node us v then us else us ++ v ∷ []

unfoldable pub erase : Node → List Node → List Node
erase v [] = []
erase v (u ∷ us) = let rest = erase v us in if node_eq u v then rest else u ∷ rest

pub has-append :
    (us vs : List Node) (w : Node) → has_node (us ++ vs) w ≡ (has_node us w || has_node vs w)
unfolding has_node
has-append [] vs w = refl
has-append (u ∷ us) vs w = ground (arith, has-append us vs w)

pub has-insert :
    (v : Node) (us : List Node) (w : Node)
    → has_node (insert v us) w ≡ (node_eq v w || has_node us w)
unfolding insert has_node
has-insert v us w = ground (arith, has-append us (v ∷ []) w, node_eq_iff v w)

pub has-erase :
    (v : Node) (us : List Node) (w : Node)
    → has_node (erase v us) w ≡ (not (node_eq v w) && has_node us w)
unfolding erase has_node
has-erase v [] w = ground arith
has-erase v (u ∷ us) w =
    ground (arith, has-erase v us w, node_eq_iff v w, node_eq_iff u v, node_eq_iff u w)

-- What holds of every element, and what follows from it.
pub all-has_node :
    (p : Node → Bool) (us : List Node) (v : Node)
    → all p us ≡ true
    → has_node us v ≡ true
    → p v ≡ true
unfolding has_node
all-has_node p [] v h m = cc
all-has_node p (u ∷ us) v h m = ground (arith, all-has_node p us v, node_eq_iff u v)

pub all-intro :
    (p : Node → Bool) (us : List Node)
    → ((v : Node) → has_node us v ≡ true → p v ≡ true)
    → all p us ≡ true
unfolding has_node
all-intro p [] h = refl
all-intro p (u ∷ us) h =
    ground (arith, h u, node_eq_refl u, all-intro p us (λ v m. h v (ground arith)))
