-- ===== src/Executor/Successors/Traversal.antt =====
-- What a call of `add_successors` does, in closed form over the graph that it is given.
use mathlib.Core.List.{append-nil, append_assoc}
use netunicorn.Common.{
  ◌⊎◌, inl, inr, Bool, true, false, not, ◌&&◌, ◌||◌, Option, none, some, List, [], ◌∷◌, ◌++◌, ◌≡◌,
  refl, sym, arith, keep, all, any, if◌then◌else◌, Option-cases,
}
use netunicorn.Common.Int.{pred_ℤ, is_nonpositive}
use netunicorn.Graph.{Node, node_eq, node_eq_iff, node_eq_refl, has_node, distinct, Edge, Digraph}
use netunicorn.Executor.Types.{return, >>=-eq-return}
use netunicorn.Executor.Successors.{
  traverse_on, known, traverses, Sweep, count_down, visit, sweep, remove_edges, is_false,
  add_successors,
}

-- The edge is traversed.
abbrev pub follows : Bool → Option Bool → Option Edge → Bool
follows early_stopping outcome none = false
follows early_stopping outcome (some d) = traverses outcome (traverse_on early_stopping d)

abbrev pub is_known : Bool → Option Edge → Bool
is_known early_stopping none = false
is_known early_stopping (some d) = known (traverse_on early_stopping d)

-- The edge has a counter, and this traversal is its last.
abbrev pub expires : Option Edge → Bool
expires none = false
expires (some d) = elim d.counter [ none ↦ false | some c ↦ is_nonpositive (pred_ℤ c) ]

-- One is taken off the counter, if there is one.
abbrev pub counted : Option Edge → Option Edge
counted none = none
counted (some d) = elim d.counter [
  | none ↦ some d
  | some c ↦ some (record d { counter = some (pred_ℤ c) })
]

-- The edge as a traversal leaves it; `none` is a removed edge.
abbrev pub spent : Option Edge → Option Edge
spent o = if expires o then none else counted o

module _ (nx : Digraph) where
  open nx use {
    Graph, edge, successors, remove_edge, set_counter, edge-set_counter, edge-remove_edge,
    has-successors, successors-distinct,
  }

  -- What one turn of the loop does with the edge `o` to `v`.
  pub record Visited (f : Bool) (u v : Node) (o : Option Edge) (s t : Sweep nx) : Type 0 where
    pub waiting : t.waiting ≡ (if f then s.waiting ++ v ∷ [] else s.waiting)
    pub any_edges : t.any_edges ≡ (f || s.any_edges)
    pub to_delete : t.to_delete ≡ (if f && expires o then s.to_delete ++ v ∷ [] else s.to_delete)
    pub edges :
        (x y : Node)
        → edge t.graph x y
          ≡ (if f && (node_eq u x && node_eq v y) then counted o else edge s.graph x y)

  count_down-Visited :
      (u v : Node) (d : Edge) (s : Sweep nx)
      → edge s.graph u v ≡ some d
      → Visited true u v (some d) s (
          count_down nx u v d.counter
            (record s { any_edges = true; waiting = s.waiting ++ v ∷ [] }))
  count_down-Visited u v d s h = elim (Option-cases d.counter) [
    | inl e ↦ rw e (
        unfold count_down in
        record {
          waiting = refl;
          any_edges = refl;
          to_delete = refl;
          edges = λ x y. (ground (arith, node_eq_iff u x, node_eq_iff v y));
        })
    | inr (c, e) ↦ rw e (
        unfold count_down in
        record {
          waiting = refl;
          any_edges = refl;
          to_delete = refl;
          edges = λ x y. rw edge-set_counter (ground (arith, node_eq_iff u x, node_eq_iff v y));
        })
  ]

  visit_cases :
      (early_stopping : Bool) (outcome : Option Bool) (u v : Node) (d : Edge) (s t : Sweep nx)
      → visit nx early_stopping outcome u v (some d) s ≡ return t
      → (known (traverse_on early_stopping d) ≡ true)
        × ((follows early_stopping outcome (some d) ≡ true)
              × (t
                  ≡ count_down nx u v d.counter
                      (record s { any_edges = true; waiting = s.waiting ++ v ∷ [] }))
            ⊎ (follows early_stopping outcome (some d) ≡ false) × (t ≡ s))
  unfolding visit
  visit_cases e outcome u v d s t r = ground arith

  unchanged-Visited : (u v : Node) (o : Option Edge) (s : Sweep nx) → Visited false u v o s s
  unchanged-Visited u v o s = record {
    waiting = refl;
    any_edges = refl;
    to_delete = refl;
    edges = λ x y. refl;
  }

  pub visit-Visited :
      (early_stopping : Bool) (outcome : Option Bool) (u v : Node) (o : Option Edge)
      (s t : Sweep nx)
      → edge s.graph u v ≡ o
      → visit nx early_stopping outcome u v o s ≡ return t
      → (is_known early_stopping o ≡ true) × Visited (follows early_stopping outcome o) u v o s t
  unfolding visit
  visit-Visited e outcome u v none s t h r = cc
  visit-Visited e outcome u v (some d) s t h r =
      let (k, c) = visit_cases e outcome u v d s t r in
      (
        k,
        elim c [
          | inl (f, q) ↦ rw (f, q) (count_down-Visited u v d s h)
          | inr (f, q) ↦ rw (f, q) (unchanged-Visited u v (some d) s)
        ],
      )

  -- The whole loop, over the edges `E` of `u` as they are before it.
  record Swept (e : Bool) (outcome : Option Bool) (u : Node) (E : Node → Option Edge)
      (vs : List Node) (s t : Sweep nx) : Type 0 where
    known_edges : all (λ v. is_known e (E v)) vs ≡ true
    pub waiting : t.waiting ≡ s.waiting ++ keep (λ v. follows e outcome (E v)) vs
    any_edges : t.any_edges ≡ (any (λ v. follows e outcome (E v)) vs || s.any_edges)
    to_delete : t.to_delete ≡ s.to_delete ++ keep (λ v. follows e outcome (E v) && expires (E v)) vs
    edges :
        (x y : Node)
        → edge t.graph x y ≡ (
            if has_node vs y && (node_eq u x && follows e outcome (E y))
            then counted (E y)
            else edge s.graph x y)

  module _ (e : Bool) (outcome : Option Bool) (u : Node) (E : Node → Option Edge) where
    Swept-nil : (s : Sweep nx) → Swept e outcome u E [] s s
    unfolding has_node
    Swept-nil s = record {
      known_edges = refl;
      waiting = sym (append-nil s.waiting);
      any_edges = refl;
      to_delete = sym (append-nil s.to_delete);
      edges = λ x y. refl;
    }

    Swept-cons :
        (v : Node) (vs : List Node) (s r t : Sweep nx)
        → has_node vs v ≡ false
        → is_known e (E v) ≡ true
        → Visited (follows e outcome (E v)) u v (E v) s r
        → Swept e outcome u E vs r t
        → Swept e outcome u E (v ∷ vs) s t
    unfolding has_node
    Swept-cons v vs s r t fresh k a b = record {
      known_edges = ground (arith, b.known_edges);
      waiting = ground (
        arith,
        a.waiting,
        b.waiting,
        append_assoc s.waiting (v ∷ []) (keep (λ w. follows e outcome (E w)) vs),
      );
      any_edges = ground (arith, a.any_edges, b.any_edges);
      to_delete = ground (
        arith,
        a.to_delete,
        b.to_delete,
        append_assoc s.to_delete (v ∷ []) (keep (λ w. follows e outcome (E w) && expires (E w)) vs),
      );
      edges = λ x y. ground (arith, a.edges x y, b.edges x y, node_eq_iff v y, node_eq_iff u x);
    }

    sweep-Swept :
        (vs : List Node) (s t : Sweep nx)
        → distinct vs ≡ true
        → ((y : Node) → has_node vs y ≡ true → edge s.graph u y ≡ E y)
        → sweep nx e outcome u vs s ≡ return t
        → Swept e outcome u E vs s t
    unfolding sweep distinct has_node
    sweep-Swept [] s t d same h = let q : s ≡ t = cc in rw (← q) (Swept-nil s)
    sweep-Swept (v ∷ vs) s t d same h =
        let (r, h1, h2) = >>=-eq-return _ (sweep nx e outcome u vs) h in
        let here : edge s.graph u v ≡ E v = same v (ground (arith, node_eq_refl v)) in
        let (k, a) = visit-Visited e outcome u v (E v) s r here (rw here at h1) in
        let fresh : has_node vs v ≡ false = ground arith in
        Swept-cons v vs s r t fresh k a (
          sweep-Swept vs r t (ground arith)
            (λ y m. ground (arith, a.edges u y, same y, node_eq_iff v y, node_eq_refl u)) h2)

  edge-remove_edges :
      (u : Node) (vs : List Node) (g : Graph) (x y : Node)
      → edge (remove_edges nx u vs g) x y
        ≡ (if node_eq u x && has_node vs y then none else edge g x y)
  unfolding remove_edges has_node
  edge-remove_edges u [] g x y = ground arith
  edge-remove_edges u (v ∷ vs) g x y =
      rw (edge-remove_edges u vs (remove_edge g u v) x y)
        (ground (arith, edge-remove_edge g u v x y))

  has-keep :
      (p : Node → Bool) (vs : List Node) (y : Node)
      → has_node (keep p vs) y ≡ (has_node vs y && p y)
  unfolding has_node
  has-keep p [] y = refl
  has-keep p (v ∷ vs) y = ground (arith, has-keep p vs y, node_eq_iff v y)

  -- If the method returns, then: exactly the followed successors are appended, in their order; a
  -- followed edge is counted down, or removed if its counter ends, and no other edge changes; the
  -- answer is to stop exactly if a task failed under early stopping and no edge was followed.
  pub add_successors_lem :
      (e : Bool) (outcome : Option Bool) (u : Node) (w : List Node) (g : Graph) (stop : Bool)
      (w' : List Node) (g' : Graph)
      → add_successors nx e outcome u w g ≡ return (stop, w', g')
      → (w' ≡ w ++ keep (λ v. follows e outcome (edge g u v)) (successors g u))
        × ((x y : Node)
            → edge g' x y ≡ (
                if node_eq u x && follows e outcome (edge g u y)
                then spent (edge g u y)
                else edge g x y))
        × (stop ≡ (
            is_false outcome
            && (e && not (any (λ v. follows e outcome (edge g u v)) (successors g u)))))
  unfolding add_successors
  add_successors_lem e outcome u w g stop w' g' h =
      let start : Sweep nx = record { graph = g; waiting = w; any_edges = false; to_delete = [] } in
      let (t, h1, h2) = >>=-eq-return (sweep nx e outcome u (successors g u) start) _ h in
      let b =
        sweep-Swept e outcome u (edge g u) (successors g u) start t (successors-distinct g u)
          (λ y m. refl) h1 in
      (
        ground (arith, b.waiting),
        (λ x y. ground (
          arith,
          b.edges x y,
          b.to_delete,
          edge-remove_edges u t.to_delete t.graph x y,
          has-keep (λ v. follows e outcome (edge g u v) && expires (edge g u v)) (successors g u) y,
          has-successors g u y,
          node_eq_iff u x,
        )),
        ground (arith, b.any_edges),
      )
