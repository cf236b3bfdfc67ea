-- ===== src/Director/Processor/Locks.antt =====
-- The table of locks after a turn of the locker.
use netunicorn.Common.{
  Bool, true, false, ◌&&◌, ◌||◌, String, none, some, List, [], ◌∷◌, ◌≡◌, refl, arith, any, keep,
  eq_iff, sym, ◌∙◌, Bool-cases, Option-cases, inl, inr,
}
use netunicorn.Base.{Deployment}
use netunicorn.Director.Db.{Db, ExperimentRow, LockRow}
use netunicorn.Director.Processor.{
  is_in_use, lock_eq, add_lock, lock_of, add_locks, nodes_to_lock, lock_nodes,
}

-- The experiment uses the node that the lock names, for the lock's user.
abbrev pub uses : LockRow → ExperimentRow → Bool
uses l r = elim r.data_ [
  | none ↦ false
  | some e ↦ any (λ d. lock_eq l (lock_of r.username d)) e.deployment_map
]

or_true : (b : Bool) {c : Bool} → c ≡ true → (b || c) ≡ true
or_true b h = ground arith

or_false : (b : Bool) → b ≡ (b || false)
or_false b = ground arith

or_comm : (b c : Bool) → (b || c) ≡ (c || b)
or_comm b c = ground arith

lock_eq-swap : (l a b : LockRow) → lock_eq a b ≡ true → lock_eq l a ≡ lock_eq l b
lock_eq-swap l a b h =
    let hn = (eq_iff a.node_name b.node_name).0 (ground arith) in
    let hc = (eq_iff a.connector b.connector).0 (ground arith) in
    let hu = (eq_iff a.username b.username).0 (ground arith) in rw (hn, hc, hu) refl

any-lock_eq :
    (l new : LockRow) (ls : List LockRow)
    → any (lock_eq new) ls ≡ true
    → lock_eq l new ≡ true
    → any (lock_eq l) ls ≡ true
any-lock_eq l new [] h e = cc
any-lock_eq l new (x ∷ xs) h e = elim (Bool-cases (lock_eq new x)) [
  | inl q ↦ let s = lock_eq-swap l new x q in let t : lock_eq l x ≡ true = sym s ∙ e in rw t refl
  | inr q ↦
      let k : any (lock_eq new) xs ≡ true = rw q at h in
      let t = any-lock_eq l new xs k e in or_true (lock_eq l x) t
]

has-add_lock :
    (l new : LockRow) (ls : List LockRow)
    → any (lock_eq l) (add_lock new ls) ≡ (any (lock_eq l) ls || lock_eq l new)
has-add_lock l new ls = elim (Bool-cases (any (lock_eq new) ls)) [
  | inl q ↦ elim (Bool-cases (lock_eq l new)) [
    | inl e ↦ rw (q, e, any-lock_eq l new ls q e) refl
    | inr e ↦ rw (q, e) (or_false (any (lock_eq l) ls))
  ]
  | inr q ↦ rw q (or_comm (lock_eq l new) (any (lock_eq l) ls))
]

has-add_locks :
    (l : LockRow) (username : String) (ds : List Deployment) (ls : List LockRow)
    → any (lock_eq l) (add_locks username ds ls)
      ≡ (any (lock_eq l) ls || any (λ d. lock_eq l (lock_of username d)) ds)
unfolding add_locks
has-add_locks l username [] ls = ground arith
has-add_locks l username (d ∷ ds) ls = ground (
  arith,
  has-add_locks l username ds (add_lock (lock_of username d) ls),
  has-add_lock l (lock_of username d) ls,
)

has-nodes_to_lock :
    (l : LockRow) (rs : List ExperimentRow) (ls : List LockRow)
    → any (lock_eq l) (nodes_to_lock rs ls) ≡ (any (lock_eq l) ls || any (uses l) rs)
unfolding nodes_to_lock
has-nodes_to_lock l [] ls = ground arith
has-nodes_to_lock l (r ∷ rs) ls = elim (Option-cases r.data_) [
  | inl q ↦ ground (arith, q, has-nodes_to_lock l rs ls)
  | inr (e, q) ↦ ground (
    arith,
    q,
    has-nodes_to_lock l rs (add_locks r.username e.deployment_map ls),
    has-add_locks l r.username e.deployment_map ls,
  )
]

any-keep {ℓ} :
    {A : Type ℓ} (p q : A → Bool) (xs : List A) → any p (keep q xs) ≡ any (λ x. q x && p x) xs
any-keep p q [] = refl
any-keep p q (x ∷ xs) = ground (arith, any-keep p q xs)

-- If a turn of the locker succeeds, a node is locked for a user exactly if an experiment of the
-- user that is PREPARING or RUNNING has a deployment on it; locks of before play no part.
pub has-lock_nodes :
    (l : LockRow) (db db' : Db)
    → lock_nodes db ≡ some db'
    → any (lock_eq l) db'.locks ≡ any (λ r. is_in_use r && uses l r) db.experiments
unfolding lock_nodes
has-lock_nodes l db db' h =
    let ls = nodes_to_lock (keep is_in_use db.experiments) [] in
    let e : record db { locks = ls } ≡ db' = ground (arith, h) in
    rw (← e) (
      has-nodes_to_lock l (keep is_in_use db.experiments) []
      ∙ any-keep (uses l) is_in_use db.experiments)
