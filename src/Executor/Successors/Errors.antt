-- ===== src/Executor/Successors/Errors.antt =====
-- When `add_successors` raises.
use netunicorn.Common.{
  ◌⊎◌, inl, inr, ◌∙◌, Bool, true, false, Option, some, List, [], ◌∷◌, ◌≡◌, refl, arith, is_some,
  all, Bool-cases, Option-cases,
}
use netunicorn.Graph.{Node, node_eq_iff, node_eq_refl, has_node, distinct, Edge, Digraph}
use netunicorn.Executor.Types.{Result, return, raise, value_error}
use netunicorn.Executor.Successors.{traverse_on, known, Sweep, visit, sweep, add_successors}
use netunicorn.Executor.Successors.Traversal.{is_known, visit-Visited, follows}

-- `r` returns if the attributes are known, and raises ValueError otherwise.
abbrev pub Checks {ℓ} : {A : Type ℓ} → Bool → Result A → Type ℓ
Checks {A} b r = ((b ≡ true) × ((a : A) × (r ≡ return a))) ⊎ ((b ≡ false) × (r ≡ raise value_error))

module _ (nx : Digraph) where
  open nx use {Graph, edge, successors, has-successors, successors-distinct}

  visit-Checks :
      (e : Bool) (outcome : Option Bool) (u v : Node) (d : Edge) (s : Sweep nx)
      → Checks (is_known e (some d)) (visit nx e outcome u v (some d) s)
  unfolding visit
  visit-Checks e outcome u v d s = elim (Bool-cases (known (traverse_on e d))) [
    | inl k ↦ inl (
      k,
      elim (Bool-cases (follows e outcome (some d))) [
        | inl f ↦ rw (k, f) (_, refl)
        | inr f ↦ rw (k, f) (_, refl)
      ],
    )
    | inr k ↦ inr (k, rw k refl)
  ]

  sweep-Checks :
      (e : Bool) (outcome : Option Bool) (u : Node) (E : Node → Option Edge) (vs : List Node)
      (s : Sweep nx)
      → distinct vs ≡ true
      → ((y : Node) → has_node vs y ≡ true → edge s.graph u y ≡ E y)
      → ((y : Node) → has_node vs y ≡ true → is_some (E y) ≡ true)
      → Checks (all (λ v. is_known e (E v)) vs) (sweep nx e outcome u vs s)
  unfolding sweep distinct has_node
  sweep-Checks e outcome u E [] s d same there = inl (refl, (s, refl))
  sweep-Checks e outcome u E (v ∷ vs) s d same there = elim (Option-cases (E v)) [
    | inl q ↦ absurd (ground (arith, there v, node_eq_refl v))
    | inr (a, q) ↦
        let here : edge s.graph u v ≡ some a = same v (ground (arith, node_eq_refl v)) ∙ q in
        elim (visit-Checks e outcome u v a s) [
          | inl (k, (r, h)) ↦
              let b = visit-Visited nx e outcome u v (some a) s r here h in
              let ih =
                sweep-Checks e outcome u E vs r (ground arith)
                  (λ y m. ground (arith, b.1.edges u y, same y, node_eq_iff v y, node_eq_refl u))
                  (λ y m. there y (ground arith)) in
              rw (q, here, h, k) ih
          | inr (k, h) ↦ inr (rw (q, k) refl, rw (here, h) refl)
        ]
  ]

  -- The method raises ValueError exactly if an edge to a successor has an unknown "traverse_on",
  -- and returns in all other cases: no look-up of an edge or of its counter fails.
  pub add_successors-Checks :
      (e : Bool) (outcome : Option Bool) (u : Node) (w : List Node) (g : Graph)
      → Checks
          (all (λ v. is_known e (edge g u v)) (successors g u))
          (add_successors nx e outcome u w g)
  unfolding add_successors
  add_successors-Checks e outcome u w g =
      let start : Sweep nx = record { graph = g; waiting = w; any_edges = false; to_delete = [] } in
      elim (sweep-Checks e outcome u (edge g u) (successors g u) start (successors-distinct g u)
        (λ y m. refl) (λ y m. rw has-successors at m)) [
          | inl (k, (r, h)) ↦ inl (k, rw h (_, refl))
          | inr (k, h) ↦ inr (k, rw h refl)
        ]
