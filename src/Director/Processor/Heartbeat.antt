-- ===== src/Director/Processor/Heartbeat.antt =====
-- The gateway and the processor together: an executor that reports keeps its experiment.
use netunicorn.Common.{
  ℕ, ◌+◌, ◌*◌, ◌≤◌, String, true, false, ◌||◌, ◌&&◌, Option, some, List, [], ◌∷◌, ◌==◌, ◌≡◌, arith,
  any, keep, lookup, nat_eq, eq_iff, Bool-cases, inl, inr,
}
use netunicorn.Base.{Experiment}
use netunicorn.Director.Db.{Db, ExecutorRow, is_executor, update_where}
use netunicorn.Director.Gateway.{receive_result, reporting_value, finished_value}
use netunicorn.Director.Processor.{
  Stored, local_time, timeouts, is_timed_out, is_unfinished, has_error, update_experiment_status,
}
use netunicorn.Director.Processor.Statuses.{status_of}
use netunicorn.Director.Processor.Status.{is_alive, status_of-update_experiment_status}

-- The executor's row after the two statements of the gateway.
abbrev reported : ℕ → String → ℕ → ExecutorRow → ExecutorRow
reported at_ results state r = record r {
  result = some results;
  finished = nat_eq state finished_value || nat_eq state reporting_value;
  state = some state;
  keepalive = some at_;
}

module _ (now t at_ m : ℕ) (x id results : String) (state : ℕ) (minutes : List (String × ℕ))
    (known : lookup x minutes ≡ some m) (soon : now ≤ at_ + 60 * m)
    (executing : (nat_eq state finished_value || nat_eq state reporting_value) ≡ false) where
  reported-is_alive :
      (r : ExecutorRow)
      → is_executor id x r ≡ true
      → (is_unfinished id (reported at_ results state r)
          && is_alive now t minutes (reported at_ results state r))
        ≡ true
  reported-is_alive r h =
      let e = (eq_iff r.executor_id x).0 (ground (arith, h)) in
      let late : is_timed_out now t m (some at_) ≡ false = ground (arith, soon) in
      let found : lookup r.executor_id minutes ≡ some m = rw e known in
      ground (arith, h, found, late, executing)

  any-reported :
      (rs : List ExecutorRow)
      → any (is_executor id x) rs ≡ true
      → any (is_alive now t minutes) (
          keep (is_unfinished id) (
            update_where
              (λ (r : ExecutorRow). r.executor_id == x)
              (λ r. record r { keepalive = some at_ })
              (update_where
                (λ (r : ExecutorRow). r.executor_id == x)
                (λ r. record r {
                  result = some results;
                  finished = nat_eq state finished_value || nat_eq state reporting_value;
                  state = some state;
                })
                rs)))
        ≡ true
  unfolding update_where
  any-reported [] h = cc
  any-reported (r ∷ rs) h = elim (Bool-cases (is_executor id x r)) [
    | inl q ↦ ground (arith, q, reported-is_alive r q)
    | inr q ↦ ground (arith, q, any-reported rs (ground (arith, q, h)))
  ]

-- If an executor of an experiment without an error reports that it goes on, then a turn of the
-- processor that returns keeps the status of the experiment, as long as the executor's timeout is
-- not over since the report by the processor's clock, which is that of its time zone while the report
-- has the time of UTC; whatever the other executors do.
pub status_of-receive_result :
    (ps : List (Option String)) (first second : Stored) (ahead behind utc at_ m state : ℕ)
    (x id results : String) (e : Experiment) (t : ℕ) (db db' : Db)
    → any (is_executor id x) db.executors ≡ true
    → lookup x (timeouts e.deployment_map []) ≡ some m
    → utc + ahead ≤ at_ + 60 * m + behind
    → (nat_eq state finished_value || nat_eq state reporting_value) ≡ false
    → has_error id db ≡ false
    → update_experiment_status ps first second
        (local_time ahead behind utc)
        id
        e
        t
        (receive_result at_ x results (some state) db)
      ≡ some db'
    → status_of id db' ≡ status_of id db
unfolding receive_result
status_of-receive_result ps first second ahead behind utc at_ m state x id results e t db db' a k l
      s n h =
    let now = local_time ahead behind utc in
    let soon : now ≤ at_ + 60 * m = omega (arith, l) in
    let db1 = receive_result at_ x results (some state) db in
    let alive =
      any-reported now t at_ m x id results state (timeouts e.deployment_map []) k soon s
        db.executors a in
    let no_error : has_error id db1 ≡ false = n in
    let here : any (is_alive now t (timeouts e.deployment_map []))
          (keep (is_unfinished id) db1.executors)
        ≡ true =
      alive in
    let after = status_of-update_experiment_status ps first second now id e t db1 db' h in
    ground (arith, after, no_error, here)
