-- ===== src/Graph/Validation/Sound.antt =====
-- What a graph that passes validation guarantees of each of its edges.
use netunicorn.Common.{
  ℕ, zero, suc, String, Bool, true, false, ◌&&◌, ◌||◌, none, some, List, ◌≡◌, refl, arith, all,
  Bool-cases, inl, inr, not, sym, eq_iff, ◌⊎◌, ◌∙◌, ◌∷◌, [], ◌==◌, if◌then◌else◌,
}
use netunicorn.Common.Int.{ℤ, pos, negsuc, is_nonpositive}
use netunicorn.Graph.{
  Node, task, dispatcher, node_eq, node_eq_iff, node_eq_refl, is_task, is_dispatcher, Edge,
  edge_type, Digraph,
}
use netunicorn.Graph.Validation.{
  Analysis, valid, ExecutionGraph, is_execution_graph_valid, counter_is_positive, is_choice,
  traverse_on_is_choice, has_no_traverse_on, remove_weak,
}

-- The rules on the attributes of an edge from `u`: a counter is at least 1, a "traverse_on" is one of
-- three words, and stands only behind a task or a dispatcher.
pub record IsLawful (u : Node) (d : Edge) : Type 0 where
  pub counter : (c : ℤ) → d.counter ≡ some c → (n : ℕ) × (c ≡ pos (suc n))
  pub traverse_on :
      (t : String) → d.traverse_on ≡ some t → (t ≡ "success") ⊎ ((t ≡ "failure") ⊎ (t ≡ "any"))
  pub source : (t : String) → d.traverse_on ≡ some t → (i : ℕ) × ((u ≡ task i) ⊎ (u ≡ dispatcher i))

at_least_one : (c : ℤ) → not (is_nonpositive c) ≡ true → (n : ℕ) × (c ≡ pos (suc n))
at_least_one (pos zero) h = cc
at_least_one (pos (suc n)) h = (n, refl)
at_least_one (negsuc n) h = cc

one_of_three : (t : String) → is_choice t ≡ true → (t ≡ "success") ⊎ ((t ≡ "failure") ⊎ (t ≡ "any"))
one_of_three t h = elim (Bool-cases (t == "success")) [
  | inl q ↦ inl ((eq_iff t "success").0 q)
  | inr q ↦ elim (Bool-cases (t == "failure")) [
    | inl r ↦ inr (inl ((eq_iff t "failure").0 r))
    | inr r ↦ inr (inr ((eq_iff t "any").0 (ground (arith, q, r, h))))
  ]
]

runs_code :
    (u : Node)
    → (is_task u || is_dispatcher u) ≡ true
    → (i : ℕ) × ((u ≡ task i) ⊎ (u ≡ dispatcher i))
runs_code (task i) h = (i, inl refl)
runs_code (dispatcher i) h = (i, inr refl)
runs_code _ h = cc

module _ (nx : Digraph) (a : Analysis nx) where
  open nx use {Graph, edges, edge, remove_edge, all-edges, edge-remove_edge}

  -- Every edge of a graph that passes without the override has a counter of at least 1 or none, and
  -- a "traverse_on" that is "success", "failure" or "any", or none; it has none unless the edge
  -- starts at a task or a dispatcher.
  pub valid-IsLawful :
      (obj : ExecutionGraph nx) (u v : Node) (d : Edge)
      → obj.override_graph_validation ≡ false
      → is_execution_graph_valid nx a obj ≡ valid
      → edge obj.graph u v ≡ some d
      → IsLawful u d
  unfolding is_execution_graph_valid
  valid-IsLawful obj u v d o h e =
      let g = obj.graph in
      let positive = all-edges g (λ (x, y, c). counter_is_positive c) u v d (ground arith) e in
      let choice = all-edges g (λ (x, y, c). traverse_on_is_choice c) u v d (ground arith) e in
      let source =
        all-edges g (λ (x, y, c). is_task x || is_dispatcher x || has_no_traverse_on c) u v d
          (ground arith) e in
      record {
        counter = λ c q. at_least_one c (rw q at positive);
        traverse_on = λ t q. one_of_three t (rw q at choice);
        source = λ t q. runs_code u (ground (arith, rw q at source));
      }

  is_weak_arc : Node → Node → Node × Node × Edge → Bool
  is_weak_arc u v (x, y, d) = node_eq x u && node_eq y v && edge_type d == "weak"

  edge-remove_weak_list :
      (es : List (Node × Node × Edge)) (g : Graph) (x y : Node)
      → edge (remove_weak nx es g) x y
        ≡ (if all (λ t. not (is_weak_arc x y t)) es then edge g x y else none)
  unfolding remove_weak is_weak_arc
  edge-remove_weak_list [] g x y = refl
  edge-remove_weak_list ((u, v, d) ∷ es) g x y = elim (Bool-cases (edge_type d == "weak")) [
    | inl w ↦ ground (
      arith,
      edge-remove_weak_list es (remove_edge g u v) x y,
      edge-remove_edge g u v x y,
      node_eq_iff u x,
      node_eq_iff v y,
    )
    | inr w ↦ ground (arith, edge-remove_weak_list es g x y)
  ]

  -- The graph whose acyclicity is tested has only edges of the given graph, and no weak one.
  pub edge-remove_weak :
      (g : Graph) (x y : Node) (d : Edge)
      → edge (remove_weak nx (edges g) g) x y ≡ some d
      → (edge g x y ≡ some d) × ((edge_type d == "weak") ≡ false)
  unfolding is_weak_arc
  edge-remove_weak g x y d h =
      let es : (if all (λ t. not (is_weak_arc x y t)) (edges g) then edge g x y else none)
          ≡ some d =
        sym (edge-remove_weak_list (edges g) g x y) ∙ h in
      let here : edge g x y ≡ some d = ground arith in
      (
        here,
        ground (
          arith,
          all-edges g (λ t. not (is_weak_arc x y t)) x y d (ground arith) here,
          node_eq_refl x,
          node_eq_refl y,
        ),
      )
