-- ===== src/Graph/Adjacency.antt =====
-- A list of edges as a directed graph: it meets the interface of `Digraph`.
use netunicorn.Common.{
  Bool, true, not, ◌&&◌, ◌||◌, Option, none, some, List, [], ◌∷◌, ◌≡◌, refl, arith, is_some, all,
  if◌then◌else◌,
}
use netunicorn.Common.Int.{ℤ}
use netunicorn.Graph.Vertex.{Node, node_eq, node_eq_iff, has_node, has-insert, distinct, insert}
use netunicorn.Graph.{Edge, update, with_counter, Digraph}

pub record Lists : Type 0 where
  pub vertices : List Node
  pub arcs : List (Node × Node × Edge)

abbrev pub is_arc : Node → Node → Node → Node → Bool
is_arc u v x y = node_eq u x && node_eq v y

find : Node → Node → List (Node × Node × Edge) → Option Edge
find u v [] = none
find u v ((x, y, d) ∷ es) = if is_arc x y u v then some d else find u v es

without : Node → Node → List (Node × Node × Edge) → List (Node × Node × Edge)
without u v [] = []
without u v ((x, y, d) ∷ es) =
    let rest = without u v es in if is_arc x y u v then rest else (x, y, d) ∷ rest

put : Node → Node → Option Edge → List (Node × Node × Edge) → List (Node × Node × Edge)
put u v none es = es
put u v (some d) es = (u, v, d) ∷ without u v es

targets : Node → List (Node × Node × Edge) → List Node
targets u [] = []
targets u ((x, y, d) ∷ es) =
    let rest = targets u es in if node_eq x u && not (has_node rest y) then y ∷ rest else rest

sources : Node → List (Node × Node × Edge) → List Node
sources v [] = []
sources v ((x, y, d) ∷ es) =
    let rest = sources v es in if node_eq y v && not (has_node rest x) then x ∷ rest else rest

find-without :
    (u v x y : Node) (es : List (Node × Node × Edge))
    → find x y (without u v es) ≡ (if is_arc u v x y then none else find x y es)
unfolding find without
find-without u v x y [] = ground arith
find-without u v x y ((a, b, d) ∷ es) = ground (
  arith,
  find-without u v x y es,
  node_eq_iff u x,
  node_eq_iff v y,
  node_eq_iff a u,
  node_eq_iff b v,
  node_eq_iff a x,
  node_eq_iff b y,
)

find-put :
    (u v : Node) (d : Edge) (x y : Node) (es : List (Node × Node × Edge))
    → find x y (put u v (some d) es) ≡ (if is_arc u v x y then some d else find x y es)
unfolding find put
find-put u v d x y es = ground (arith, find-without u v x y es)

has-targets :
    (u v : Node) (es : List (Node × Node × Edge))
    → has_node (targets u es) v ≡ is_some (find u v es)
unfolding find targets has_node
has-targets u v [] = refl
has-targets u v ((x, y, d) ∷ es) =
    ground (arith, has-targets u v es, has-targets u y es, node_eq_iff y v, node_eq_iff x u)

has-sources :
    (v u : Node) (es : List (Node × Node × Edge))
    → has_node (sources v es) u ≡ is_some (find u v es)
unfolding find sources has_node
has-sources v u [] = refl
has-sources v u ((x, y, d) ∷ es) =
    ground (arith, has-sources v u es, has-sources v x es, node_eq_iff y v, node_eq_iff x u)

targets-distinct : (u : Node) (es : List (Node × Node × Edge)) → distinct (targets u es) ≡ true
unfolding targets distinct
targets-distinct u [] = refl
targets-distinct u ((x, y, d) ∷ es) = ground (arith, targets-distinct u es)

all-find :
    (p : Node × Node × Edge → Bool) (u v : Node) (d : Edge) (es : List (Node × Node × Edge))
    → all p es ≡ true
    → find u v es ≡ some d
    → p (u, v, d) ≡ true
unfolding find
all-find p u v d [] h e = cc
all-find p u v d ((x, y, c) ∷ es) h e =
    ground (arith, all-find p u v d es, node_eq_iff x u, node_eq_iff y v)

-- The operations.
unfoldable pub add_vertex : Lists → Node → Lists
add_vertex g w = record g { vertices = insert w g.vertices }

unfoldable pub put_arc : Lists → Node → Node → Option Edge → Lists
unfolding put without
put_arc g u v d = record g { arcs = put u v d g.arcs }

unfoldable pub drop_arc : Lists → Node → Node → Lists
unfolding without
drop_arc g u v = record g { arcs = without u v g.arcs }

unfoldable pub get_arc : Lists → Node → Node → Option Edge
unfolding find
get_arc g u v = find u v g.arcs

unfoldable pub add_arc : Lists → Node → Node → Edge → Lists
unfolding put_arc get_arc add_vertex
add_arc g u v d = put_arc (add_vertex (add_vertex g v) u) u v (some (update d (get_arc g u v)))

unfoldable pub count_arc : Lists → Node → Node → ℤ → Lists
unfolding put_arc get_arc
count_arc g u v c = put_arc g u v (with_counter c (get_arc g u v))

unfoldable pub out_arcs : Lists → Node → List Node
unfolding targets
out_arcs g u = targets u g.arcs

unfoldable pub in_arcs : Lists → Node → List Node
unfolding sources
in_arcs g v = sources v g.arcs

pub get-add :
    (g : Lists) (u v : Node) (d : Edge) (x y : Node)
    → get_arc (add_arc g u v d) x y
      ≡ (if is_arc u v x y then some (update d (get_arc g x y)) else get_arc g x y)
unfolding add_arc
get-add g u v d x y =
    ground (
      arith,
      find-put u v (update d (find u v g.arcs)) x y g.arcs,
      node_eq_iff u x,
      node_eq_iff v y,
    )

pub get-drop :
    (g : Lists) (u v x y : Node)
    → get_arc (drop_arc g u v) x y ≡ (if is_arc u v x y then none else get_arc g x y)
unfolding get_arc drop_arc
get-drop g u v x y = find-without u v x y g.arcs

put-count :
    (u v : Node) (c : ℤ) (o : Option Edge) (x y : Node) (es : List (Node × Node × Edge))
    → find u v es ≡ o
    → find x y (put u v (with_counter c o) es)
      ≡ (if is_arc u v x y then with_counter c (find x y es) else find x y es)
unfolding put
put-count u v c none x y es e = ground (arith, node_eq_iff u x, node_eq_iff v y)
put-count u v c (some d) x y es e =
    ground
      (arith, find-put u v (record d { counter = some c }) x y es, node_eq_iff u x, node_eq_iff v y)

pub get-count :
    (g : Lists) (u v : Node) (c : ℤ) (x y : Node)
    → get_arc (count_arc g u v c) x y
      ≡ (if is_arc u v x y then with_counter c (get_arc g x y) else get_arc g x y)
unfolding count_arc
get-count g u v c x y = put-count u v c (find u v g.arcs) x y g.arcs refl

pub has-add_vertex :
    (g : Lists) (w u : Node)
    → has_node (add_vertex g w).vertices u ≡ (node_eq w u || has_node g.vertices u)
unfolding add_vertex
has-add_vertex g w u = has-insert w g.vertices u

pub has-add_arc :
    (g : Lists) (u v : Node) (d : Edge) (w : Node)
    → has_node (add_arc g u v d).vertices w
      ≡ (node_eq u w || (node_eq v w || has_node g.vertices w))
unfolding add_arc
has-add_arc g u v d w =
    ground (arith, has-insert u (insert v g.vertices) w, has-insert v g.vertices w)

pub get-empty : (u v : Node) → get_arc (record { vertices = []; arcs = [] }) u v ≡ none
unfolding get_arc
get-empty u v = refl

pub has-out_arcs : (g : Lists) (u v : Node) → has_node (out_arcs g u) v ≡ is_some (get_arc g u v)
unfolding get_arc out_arcs
has-out_arcs g u v = has-targets u v g.arcs

pub out_arcs-distinct : (g : Lists) (u : Node) → distinct (out_arcs g u) ≡ true
unfolding out_arcs
out_arcs-distinct g u = targets-distinct u g.arcs

pub has-in_arcs : (g : Lists) (v u : Node) → has_node (in_arcs g v) u ≡ is_some (get_arc g u v)
unfolding get_arc in_arcs
has-in_arcs g v u = has-sources v u g.arcs

pub all-get :
    (g : Lists) (p : Node × Node × Edge → Bool) (u v : Node) (d : Edge)
    → all p g.arcs ≡ true
    → get_arc g u v ≡ some d
    → p (u, v, d) ≡ true
unfolding get_arc
all-get g p u v d = all-find p u v d g.arcs

pub get-add_vertex : (g : Lists) (w u v : Node) → get_arc (add_vertex g w) u v ≡ get_arc g u v
unfolding get_arc add_vertex
get-add_vertex g w u v = refl

abbrev pub adjacency : Digraph
adjacency = record {
  Graph = Lists;
  empty = record { vertices = []; arcs = [] };
  nodes = λ g. g.vertices;
  edges = λ g. g.arcs;
  edge = get_arc;
  successors = out_arcs;
  predecessors = in_arcs;
  add_node = add_vertex;
  add_edge = add_arc;
  remove_edge = drop_arc;
  set_counter = count_arc;
  nodes-empty = refl;
  edge-empty = get-empty;
  has-successors = has-out_arcs;
  successors-distinct = out_arcs-distinct;
  has-predecessors = has-in_arcs;
  all-edges = all-get;
  edge-add_node = get-add_vertex;
  edge-add_edge = get-add;
  edge-remove_edge = get-drop;
  edge-set_counter = get-count;
  has-add_node = has-add_vertex;
  has-add_edge = has-add_arc;
}
