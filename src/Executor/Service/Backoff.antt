-- ===== src/Executor/Service/Backoff.antt =====
-- The waiting of the executor between requests, and the order of its states.
use netunicorn.Common.{
  ℕ, ◌+◌, ◌*◌, ◌≤◌, String, Bool, Option, none, some, List, [], ◌∷◌, ◌≡◌, ◌≢◌, ◌⊎◌, refl, arith,
  ltb, Bool-cases, inl, inr,
}
use netunicorn.Graph.{Digraph}
use netunicorn.Graph.Validation.{Analysis, ExecutionGraph}
use netunicorn.Executor.Types.{
  return, >>=-eq-return, Result-cases, ExecutorState, looking_for_execution_graph, executing,
  reporting, finished,
}
use netunicorn.Executor.Execute.{
  completed, stopped, deadlocked, pending, Executed, ran, rejected, execute,
}
use netunicorn.Executor.Service.{
  Reply, timed_out, refused, answered, broken, Executor, World, back_off, find_graph, download,
  request_execution_graph, send_report, wants_report, report_results, after_execute, advance,
  last_report, call, set_state,
}

State-cases : (s : ExecutorState) → (s ≡ finished) ⊎ (s ≢ finished)
State-cases finished = inl refl
State-cases _ = inr (λ e. cc)

module _ (nx : Digraph) where
  -- The sleeps so far are 0, 5, 10, … seconds, at most ten of them.
  pub record IsPaced (ex : Executor nx) : Type 0 where
    pub count : ex.backoff ≤ 10
    pub total : 2 * ex.slept + 5 * ex.backoff ≡ 5 * ex.backoff * ex.backoff

  paced_step :
      (b s : ℕ) → 2 * s + 5 * b ≡ 5 * b * b → 2 * (s + 5 * b) + 5 * (b + 1) ≡ 5 * (b + 1) * (b + 1)
  paced_step b s h = omega arith

  back_off-IsPaced : (ex ex' : Executor nx) → back_off nx ex ≡ return ex' → IsPaced ex → IsPaced ex'
  unfolding back_off
  back_off-IsPaced ex ex' h p = elim (Bool-cases (ltb ex.backoff 10)) [
    | inl q ↦
        let e : record ex { backoff = ex.backoff + 1; slept = ex.slept + 5 * ex.backoff } ≡ ex' =
          ground arith in
        rw (← e) (record { count = ground arith; total = paced_step ex.backoff ex.slept p.total })
    | inr q ↦ ground arith
  ]

  same-IsPaced :
      (ex ex' : Executor nx)
      → ex'.backoff ≡ ex.backoff
      → ex'.slept ≡ ex.slept
      → IsPaced ex
      → IsPaced ex'
  same-IsPaced ex ex' b s p = ground (arith, p.count, p.total)

  send_report-IsPaced :
      (r : Reply (Unit {0})) (ex ex' : Executor nx)
      → send_report nx r ex ≡ return ex'
      → IsPaced ex
      → IsPaced ex'
  unfolding send_report
  send_report-IsPaced timed_out ex ex' h p = back_off-IsPaced ex ex' h p
  send_report-IsPaced refused ex ex' h p = let q : ex ≡ ex' = cc in rw (← q) p
  send_report-IsPaced (answered r) ex ex' h p = same-IsPaced ex ex' (ground arith) (ground arith) p
  send_report-IsPaced (broken r) ex ex' h p = cc

  report_results-IsPaced :
      (w : World nx) (ex ex' : Executor nx)
      → report_results nx w ex ≡ return ex'
      → IsPaced ex
      → IsPaced ex'
  unfolding report_results
  report_results-IsPaced w ex ex' h p = elim (Bool-cases (wants_report nx ex.execution_graph)) [
    | inl q ↦ send_report-IsPaced w.report_reply ex ex' (rw q at h) p
    | inr q ↦ same-IsPaced ex ex' (ground arith) (ground arith) p
  ]

  find_graph-IsPaced :
      (own file : Option (ExecutionGraph nx)) (r : Reply (ExecutionGraph nx)) (ex ex' : Executor nx)
      → find_graph nx own file r ex ≡ return ex'
      → IsPaced ex
      → IsPaced ex'
  unfolding find_graph download
  find_graph-IsPaced (some own) file r ex ex' h p =
      same-IsPaced ex ex' (ground arith) (ground arith) p
  find_graph-IsPaced none (some g) r ex ex' h p =
      same-IsPaced ex ex' (ground arith) (ground arith) p
  find_graph-IsPaced none none timed_out ex ex' h p = back_off-IsPaced ex ex' h p
  find_graph-IsPaced none none refused ex ex' h p =
      same-IsPaced ex ex' (ground arith) (ground arith) p
  find_graph-IsPaced none none (answered g) ex ex' h p =
      same-IsPaced ex ex' (ground arith) (ground arith) p
  find_graph-IsPaced none none (broken x) ex ex' h p = cc

  after_execute-IsPaced :
      (r : Executed nx) (ex : Executor nx) → IsPaced ex → IsPaced (after_execute nx r ex)
  unfolding after_execute
  after_execute-IsPaced (rejected steps) ex p = same-IsPaced ex _ refl refl p
  after_execute-IsPaced (ran completed s) ex p = same-IsPaced ex _ refl refl p
  after_execute-IsPaced (ran stopped s) ex p = same-IsPaced ex _ refl refl p
  after_execute-IsPaced (ran deadlocked s) ex p = same-IsPaced ex _ refl refl p
  after_execute-IsPaced (ran pending s) ex p = p

  module _ (a : Analysis nx) (name : ℕ → String) where
    advance-IsPaced :
        (state : ExecutorState) (w : World nx) (ex ex' : Executor nx)
        → advance nx a name state w ex ≡ return ex'
        → IsPaced ex
        → IsPaced ex'
    unfolding advance request_execution_graph
    advance-IsPaced looking_for_execution_graph w ex ex' h p =
        find_graph-IsPaced ex.execution_graph w.local_file w.graph_reply ex ex' h p
    advance-IsPaced executing w ex ex' h p =
        let (r, h1, h2) =
          >>=-eq-return (execute nx a name w.turns ex.execution_graph ex.step_results) _ h in
        let q : after_execute nx r ex ≡ ex' = ground (arith, h2) in
        rw (← q) (after_execute-IsPaced r ex p)
    advance-IsPaced reporting w ex ex' h p = report_results-IsPaced w ex ex' h p
    advance-IsPaced finished w ex ex' h p = let q : ex ≡ ex' = cc in rw (← q) p

    last_report-IsPaced :
        (ws : List (World nx)) (ex ex' : Executor nx) (b : Bool)
        → last_report nx a name ws ex ≡ return (b, ex')
        → IsPaced ex
        → IsPaced ex'
    unfolding last_report
    last_report-IsPaced [] ex ex' b h p = let q : ex ≡ ex' = ground arith in rw (← q) p
    last_report-IsPaced (w ∷ ws) ex ex' b h p =
        let (x, h1, h2) = >>=-eq-return (report_results nx w (set_state nx finished ex)) _ h in
        let q : x ≡ ex' = ground arith in
        rw (← q)
          (report_results-IsPaced w _ x h1 (same-IsPaced ex (set_state nx finished ex) refl refl p))

    call_cases :
        (w : World nx) (ws : List (World nx)) (ex ex' : Executor nx) (b : Bool)
        → call nx a name (w ∷ ws) ex ≡ return (b, ex')
        → (ex ≡ ex')
          ⊎ ((ex1 : Executor nx) × (advance nx a name ex.state w ex ≡ return ex1)
              × (call nx a name ws ex1 ≡ return (b, ex')))
          ⊎ (last_report nx a name ws ex ≡ return (b, ex'))
    unfolding call
    call_cases w ws ex ex' b h = elim (Result-cases (advance nx a name ex.state w ex)) [
      | inl (ex1, q) ↦ elim (State-cases ex.state) [
        | inl f ↦ inl (ground (arith, h, f))
        | inr g ↦ inr (inl (ex1, q, ground (arith, h, q, g)))
      ]
      | inr (e, q) ↦ elim (State-cases ex.state) [
        | inl f ↦ inl (ground (arith, h, f))
        | inr g ↦ inr (inr (ground (arith, h, q, g)))
      ]
    ]

    call-IsPaced :
        (ws : List (World nx)) (ex ex' : Executor nx) (b : Bool)
        → call nx a name ws ex ≡ return (b, ex')
        → IsPaced ex
        → IsPaced ex'
    unfolding call
    call-IsPaced [] ex ex' b h p = let q : ex ≡ ex' = ground arith in rw (← q) p
    call-IsPaced (w ∷ ws) ex ex' b h p = elim (call_cases w ws ex ex' b h) [
      | inl q ↦ rw (← q) p
      | inr (inl (ex1, h1, h2)) ↦
          call-IsPaced ws ex1 ex' b h2 (advance-IsPaced ex.state w ex ex1 h1 p)
      | inr (inr h1) ↦ last_report-IsPaced ws ex ex' b h1 p
    ]

    paced_bound : (b s : ℕ) → b ≤ 10 → 2 * s + 5 * b ≡ 5 * b * b → s ≤ 225
    paced_bound b s h e = grind arith

    -- A fresh executor sleeps 225 seconds at most between its requests, whatever it meets.
    pub slept-le :
        (ws : List (World nx)) (ex ex' : Executor nx) (b : Bool)
        → ex.backoff ≡ 0
        → ex.slept ≡ 0
        → call nx a name ws ex ≡ return (b, ex')
        → ex'.slept ≤ 225
    slept-le ws ex ex' b hb hs h =
        let p = call-IsPaced ws ex ex' b h (record { count = omega arith; total = ground arith }) in
        paced_bound ex'.backoff ex'.slept p.count p.total
