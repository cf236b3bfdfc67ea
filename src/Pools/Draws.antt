-- ===== src/Pools/Draws.antt =====
-- What an uncountable pool gives, and what it skips.
use Prim.Native.Nat.{◌/◌}
use netunicorn.Common.{
  ℕ, zero, suc, ◌+◌, ◌*◌, ◌%◌, ◌<◌, String, Bool, true, false, not, ◌&&◌, Option, none, some, List,
  [], ◌∷◌, ◌++◌, ◌≡◌, refl, sym, ap, ◌∙◌, arith, is_some, length, get_elem?, nat_eq, Bool-cases,
  Option-cases, List-cases, if◌then◌else◌, inl, inr,
}
use mathlib.Core.List.{append-nil, append_assoc}
use netunicorn.Base.{Node}
use netunicorn.Pools.{Uncountable, is_past, numbered, rotated, take_nodes, rotate, skip_nodes}

rotate-append : (xs ys : List Node) → rotate (length xs) (xs ++ ys) ≡ ys ++ xs
unfolding rotate
rotate-append [] ys = sym (append-nil ys)
rotate-append (x ∷ xs) ys =
    rw (append_assoc xs ys (x ∷ [])) (rotate-append xs (ys ++ x ∷ []) ∙ append_assoc ys (x ∷ []) xs)

rotate_full : (xs : List Node) → rotate (length xs) xs ≡ xs
rotate_full xs = let h = rotate-append xs [] in rw (append-nil xs) at h

rotate-nil : (n : ℕ) → rotate n [] ≡ []
unfolding rotate
rotate-nil zero = refl
rotate-nil (suc n) = refl

rotate-add : (m n : ℕ) (xs : List Node) → rotate (m + n) xs ≡ rotate n (rotate m xs)
unfolding rotate
rotate-add zero n xs = let e : 0 + n ≡ n = omega arith in rw e refl
rotate-add (suc m) n [] = rw (rotate-nil (suc m + n), rotate-nil n) refl
rotate-add (suc m) n (x ∷ xs) =
    let e : suc m + n ≡ suc (m + n) = omega arith in rw e (rotate-add m n (xs ++ x ∷ []))

rotate_times : (q : ℕ) (xs : List Node) → rotate (q * length xs) xs ≡ xs
unfolding rotate
rotate_times zero xs = let e : 0 * length xs ≡ 0 = omega arith in rw e refl
rotate_times (suc q) xs =
    let e : suc q * length xs ≡ length xs + q * length xs = grind arith in
    rw (e, rotate-add (length xs) (q * length xs) xs, rotate_full xs) (rotate_times q xs)

div_mod : (n l : ℕ) → 0 < l → n ≡ n / l * l + n % l
div_mod n l h = grind arith

-- A rotation by the remainder is the rotation.
rotate-mod : (n : ℕ) (xs : List Node) → 0 < length xs → rotate (n % length xs) xs ≡ rotate n xs
rotate-mod n xs h =
    let e = div_mod n (length xs) h in
    sym (
      ap (λ k. rotate k xs) e
      ∙ rotate-add (n / length xs * length xs) (n % length xs) xs
      ∙ ap (rotate (n % length xs)) (rotate_times (n / length xs) xs))

-- If the ring is as long as the template, then skipping is refused exactly for an empty template,
-- and else leaves the ring as `count` draws would, though it makes only `count % length` of them.
pub skip_nodes-rotate :
    (count : ℕ) (u : Uncountable)
    → length u.ring ≡ length u.template
    → skip_nodes count u ≡ (
        if nat_eq (length u.template) 0
        then none
        else some (record u { ring = rotate count u.ring }))
unfolding skip_nodes
skip_nodes-rotate count u h = elim (List-cases u.template) [
  | inl e ↦ rw e refl
  | inr (x, xs, e) ↦
      let pos : 0 < length u.ring = ground (arith, h, e) in
      let m = rotate-mod count u.ring pos in ground (arith, e, h, m)
]

-- What `take` needs: something to draw, and the number of the last node within the limit.
abbrev pub can_take : ℕ → ℕ → Uncountable → Bool
can_take zero c u = true
can_take (suc n) c u = not (nat_eq (length u.ring) 0) && not (is_past (c + n) u.soft_limit)

ring_nonempty : (x : Node) (xs : List Node) → nat_eq (length (xs ++ x ∷ [])) 0 ≡ false
ring_nonempty x [] = refl
ring_nonempty x (y ∷ ys) = ground arith

can_take_step :
    (n c : ℕ) (x : Node) (xs : List Node) (u : Uncountable)
    → u.ring ≡ x ∷ xs
    → can_take (suc n) c u ≡ (not (is_past c u.soft_limit) && can_take n (c + 1) (rotated x xs u))
can_take_step zero c x xs u h = elim (Option-cases u.soft_limit) [
  | inl q ↦ ground (arith, h, q)
  | inr (l, q) ↦ ground (arith, h, q)
]
can_take_step (suc n) c x xs u h = elim (Option-cases u.soft_limit) [
  | inl q ↦ ground (arith, h, q, ring_nonempty x xs)
  | inr (l, q) ↦ ground (arith, h, q, ring_nonempty x xs)
]

-- A copy of a node with the number added to its name.
abbrev pub given : (ℕ → String) → ℕ → Option Node → Option Node
given str number none = none
given str number (some x) = some (numbered str number x)

-- The names of the nodes that are taken, the ring and the counter that are left.
pub record IsTaken (str : ℕ → String) (count c : ℕ) (u : Uncountable)
    (taken : List Node × Uncountable × ℕ) : Type 0 where
  pub names :
      (i : ℕ) → i < count → get_elem? taken.0 i ≡ given str (c + i) (get_elem? (rotate i u.ring) 0)
  pub ring : taken.1.ring ≡ rotate count u.ring
  pub counter : taken.2 ≡ c + count

draw_stops :
    (str : ℕ → String) (n c : ℕ) (u : Uncountable)
    → u.ring ≡ []
    → take_nodes str (suc n) c u ≡ (none, u, c)
unfolding take_nodes
draw_stops str n c u h = ground (arith, h)

draw_past :
    (str : ℕ → String) (n c : ℕ) (x : Node) (xs : List Node) (u : Uncountable)
    → u.ring ≡ x ∷ xs
    → is_past c u.soft_limit ≡ true
    → take_nodes str (suc n) c u ≡ (none, rotated x xs u, c + 1)
unfolding take_nodes
draw_past str n c x xs u h p = ground (arith, h, p)

draw_goes :
    (str : ℕ → String) (n c : ℕ) (x : Node) (xs : List Node) (u : Uncountable)
    → u.ring ≡ x ∷ xs
    → is_past c u.soft_limit ≡ false
    → take_nodes str (suc n) c u ≡ (
        let rest = take_nodes str n (c + 1) (rotated x xs u) in
        (
          elim rest.0 as (λ o. Option (List Node)) [
            | none ↦ none
            | some ys ↦ some (numbered str c x ∷ ys)
          ],
          rest.1,
          rest.2,
        ))
unfolding take_nodes
draw_goes str n c x xs u h p = ground (arith, h, p)

-- `take` gives nodes exactly if the pool has one and the numbers of all of them are within the
-- limit; else a StopIteration leaves it.
pub is_some-take_nodes :
    (str : ℕ → String) (count c : ℕ) (u : Uncountable)
    → is_some (take_nodes str count c u).0 ≡ can_take count c u
unfolding take_nodes
is_some-take_nodes str zero c u = refl
is_some-take_nodes str (suc n) c u = elim (List-cases u.ring) [
  | inl h ↦ rw (draw_stops str n c u h) (ground (arith, h))
  | inr (x, xs, h) ↦ elim (Bool-cases (is_past c u.soft_limit)) [
    | inl p ↦ ground (arith, draw_past str n c x xs u h p, can_take_step n c x xs u h, p)
    | inr p ↦ ground (
      arith,
      draw_goes str n c x xs u h p,
      can_take_step n c x xs u h,
      p,
      is_some-take_nodes str n (c + 1) (rotated x xs u),
    )
  ]
]

take_step :
    (str : ℕ → String) (n c : ℕ) (x : Node) (xs : List Node) (u : Uncountable) (ys : List Node)
    (u' : Uncountable) (c' : ℕ)
    → u.ring ≡ x ∷ xs
    → IsTaken str n (c + 1) (rotated x xs u) (ys, u', c')
    → IsTaken str (suc n) c u (numbered str c x ∷ ys, u', c')
unfolding rotate
take_step str n c x xs u ys u' c' h t = record {
  names = λ i l. rw (h, rotate) (named i l);
  ring = rw (h, rotate) t.ring;
  counter = omega (arith, t.counter);
}
  where
    named :
        (i : ℕ)
        → i < suc n
        → get_elem? (numbered str c x ∷ ys) i ≡ given str (c + i) (get_elem? (rotate i (x ∷ xs)) 0)
    named zero l = let e : c + 0 ≡ c = omega arith in rw e refl
    named (suc i) l =
        let e : c + 1 + i ≡ c + suc i = omega arith in
        t.names i (omega arith) ∙ ap (λ k. given str k (get_elem? (rotate i (xs ++ x ∷ [])) 0)) e

-- If `take` gives nodes, then the node at `i` is a copy of the one that the ring has after `i`
-- rotations, with the counter's value and `i` added to its name; the ring is rotated by `count`, and
-- the counter has gone up by `count`.
pub take_nodes-IsTaken :
    (str : ℕ → String) (count c : ℕ) (u u' : Uncountable) (c' : ℕ) (ys : List Node)
    → take_nodes str count c u ≡ (some ys, u', c')
    → IsTaken str count c u (ys, u', c')
unfolding take_nodes rotate
take_nodes-IsTaken str zero c u u' c' ys h = record {
  names = λ i l. elim l [ ];
  ring = ground (arith, h);
  counter = ground (arith, h);
}
take_nodes-IsTaken str (suc n) c u u' c' ys h = elim (List-cases u.ring) [
  | inl e ↦ ground (arith, h, draw_stops str n c u e)
  | inr (x, xs, e) ↦ elim (Bool-cases (is_past c u.soft_limit)) [
    | inl p ↦ ground (arith, h, draw_past str n c x xs u e p)
    | inr p ↦ elim (Option-cases (take_nodes str n (c + 1) (rotated x xs u)).0) [
      | inl q ↦ ground (arith, h, draw_goes str n c x xs u e p, q)
      | inr (zs, q) ↦
          let rest = take_nodes str n (c + 1) (rotated x xs u) in
          let k : rest ≡ (some zs, u', c') = ground (arith, h, draw_goes str n c x xs u e p, q) in
          let y : numbered str c x ∷ zs ≡ ys = ground (arith, h, draw_goes str n c x xs u e p, q) in
          rw (← y) (
            take_step str n c x xs u zs u' c' e
              (take_nodes-IsTaken str n (c + 1) (rotated x xs u) u' c' zs k))
    ]
  ]
]
