-- ===== src/Director/Compilation/Progress.antt =====
-- The compiler handles every request, so that the preparation's wait ends.
use netunicorn.Common.{
  ℕ, zero, suc, ◌≤◌, ◌<◌, ◌⊎◌, String, Bool, Option, true, none, some, List, [], ◌∷◌, ◌≡◌, refl,
  arith, keep, all, length, false, Bool-cases, is_some, eq_refl, Option-cases, inl, inr,
}
use netunicorn.Director.Db.{Db, CompilationRow, select_one, update_where}
use netunicorn.Director.Mediator.Preparation.{Context, Envs, is_compilation}
use netunicorn.Director.Mediator.Preparation.Task.{is_requested, everything_compiled}
use netunicorn.Director.Compilation.{
  Host, build_result, filelines, is_known_architecture, is_pending, compile,
  record_compilation_result, docker_compilation_cycle, cycles,
}

-- The number of requests that nobody has handled.
abbrev pub pending : List CompilationRow → ℕ
pending rs = length (keep is_pending rs)

abbrev finished_row : Bool → String → CompilationRow → CompilationRow
finished_row success log r = record r { status = some success; result = some log }

pending-update_where :
    (p : CompilationRow → Bool) (success : Bool) (log : String) (rs : List CompilationRow)
    → pending (update_where p (finished_row success log) rs) ≤ pending rs
unfolding update_where
pending-update_where p success log [] = ground arith
pending-update_where p success log (r ∷ rs) = ground (arith, pending-update_where p success log rs)

pending-update_first :
    (p : CompilationRow → Bool) (success : Bool) (log : String) (rs : List CompilationRow)
    (r : CompilationRow)
    → select_one is_pending rs ≡ some r
    → p r ≡ true
    → pending (update_where p (finished_row success log) rs) < pending rs
unfolding update_where select_one
pending-update_first p success log [] r h k = cc
pending-update_first p success log (x ∷ rs) r h k = elim (Option-cases x.status) [
  | inl q ↦
      let e : x ≡ r = ground (arith, q, h) in
      ground (arith, q, e, k, pending-update_where p success log rs)
  | inr (b, q) ↦ ground (arith, q, pending-update_first p success log rs r (ground (arith, q, h)) k)
]

none-pending : (rs : List CompilationRow) → select_one is_pending rs ≡ none → pending rs ≡ 0
unfolding select_one
none-pending [] h = refl
none-pending (x ∷ rs) h = ground (arith, h, none-pending rs (ground (arith, h)))

module _ (host : Host)
    (readable : (a i : String) (ls : List String) (g : Option String)
      → is_some (build_result (host.build a i ls g)) ≡ true) where
  -- The handling of a request raises nothing, if what Docker writes can be decoded.
  compile-is_some : (r : CompilationRow) → is_some (compile host r) ≡ true
  unfolding compile
  compile-is_some r = elim (Option-cases r.environment_definition.image) [
    | inl q ↦ ground (arith, q)
    | inr (i, q) ↦ elim (Bool-cases (is_known_architecture r.architecture)) [
      | inr k ↦ ground (arith, q, k)
      | inl k ↦
          let version = host.short_version r.environment_definition.build_context.python_version in
          elim (Option-cases version) [
            | inl v ↦ rw (q, k, v) refl
            | inr (p, v) ↦
                rw (q, k, v) (readable r.architecture i (filelines host p r) r.execution_graph)
          ]
    ]
  ]

  -- A turn returns; if it finds a request it leaves fewer of them.
  pending-cycle :
      (db : Db)
      → (found : Bool) × (db' : Db) × (docker_compilation_cycle host db ≡ some (found, db'))
        × ((pending db'.compilations ≡ 0) ⊎ (pending db'.compilations < pending db.compilations))
  unfolding docker_compilation_cycle record_compilation_result
  pending-cycle db = elim (Option-cases (select_one is_pending db.compilations)) [
    | inl q ↦
        (false, db, rw (q, docker_compilation_cycle) refl, inl (none-pending db.compilations q))
    | inr (r, q) ↦ elim (Option-cases (compile host r)) [
      | inl c ↦ absurd (ground (arith, c, compile-is_some r))
      | inr ((success, log), c) ↦ (
        true,
        record_compilation_result r.experiment_id r.compilation_id success log db,
        rw (q, docker_compilation_cycle, c) refl,
        inr (
            pending-update_first (is_compilation r.experiment_id r.compilation_id) success log
              db.compilations r q
              (ground (arith, eq_refl r.experiment_id, eq_refl r.compilation_id))),
      )
    ]
  ]

  pending-cycles :
      (n : ℕ) (db : Db) → pending db.compilations ≤ n → pending (cycles host n db).compilations ≡ 0
  unfolding cycles
  pending-cycles zero db h = ground (arith, h)
  pending-cycles (suc n) db h =
      let (found, db', q, less) = pending-cycle db in
      rw (q, cycles)
        (pending-cycles n db'
          (elim less [ inl z ↦ ground (arith, z) | inr l ↦ ground (arith, l, h) ]))

all-keep-pending :
    (p : CompilationRow → Bool) (rs : List CompilationRow)
    → pending rs ≡ 0
    → all (λ r. is_some r.status) (keep p rs) ≡ true
all-keep-pending p [] h = refl
all-keep-pending p (r ∷ rs) h = elim (Option-cases r.status) [
  | inl q ↦ ground (arith, q, h)
  | inr (b, q) ↦ ground (arith, q, h, all-keep-pending p rs (ground (arith, q, h)))
]

-- The wait of a preparation ends, if what Docker writes can always be decoded: after as many turns
-- of the compiler as there are requests that nobody has handled, the preparation finds everything
-- compiled.
pub compiled-cycles :
    (host : Host) (c : Context) (envs : Envs c) (n : ℕ) (db : Db)
    → ((a i : String) (ls : List String) (g : Option String)
        → is_some (build_result (host.build a i ls g)) ≡ true)
    → pending db.compilations ≤ n
    → everything_compiled c envs (cycles host n db) ≡ true
unfolding everything_compiled
compiled-cycles host c envs n db readable h =
    all-keep-pending (is_requested c envs) (cycles host n db).compilations
      (pending-cycles host readable n db h)
