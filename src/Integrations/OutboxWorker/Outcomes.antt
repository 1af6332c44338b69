-- ===== src/Integrations/OutboxWorker/Outcomes.antt =====
-- Every claimed message is accounted for by exactly one counter, and which failures let an exception
-- out of the worker.
use langgraph_refund_agent.Base.{
  ℕ, ◌+◌, ◌≤◌, ◌≡◌, ◌≢◌, ◌↔◌, ◌⊎◌, true, false, List, [], ◌∷◌, length, ok, err, arith,
}
use langgraph_refund_agent.Integrations.Models.{is_retryable}
use langgraph_refund_agent.Integrations.Retry.{
  Seconds, ProviderError, timeout_error, connection_error, http_status_error, lease_conflict_error,
  attempts_exhausted_error, RetrySettings, RetryDecision, classify_failure, classify_http_status,
  decide_retry, max_attempts_default,
}
use langgraph_refund_agent.Integrations.Retry.Delay.{decide_retry-retryable_iff}
use langgraph_refund_agent.Integrations.OutboxWorker.{
  WorkerRunResult, merge, failure_kind, retry_after_of, repository_error, WorkerError,
  overflow_error, claimed_only, Answers, end_terminally, schedule, by_decision, handle_failure,
  dispatch, process, gather_batch, merge_all, run_once,
}

-- A time-out, a connection failure, or an HTTP status that promises that a later call may succeed.
abbrev pub IsTransient : {C : Type 0} → ProviderError C → Type 0
IsTransient timeout_error = Unit
IsTransient connection_error = Unit
IsTransient (http_status_error n _) = (n ≡ 408) ⊎ (n ≡ 429) ⊎ ((500 ≤ n) × (n ≤ 599))
IsTransient _ = ⊥

-- The kind the worker gives a failure is retryable exactly when the failure is a time-out, a connection
-- failure, or an HTTP status 408, 429 or 500 to 599.
pub failure_kind-retryable_iff :
    {C : Type 0} (e : ProviderError C) → (is_retryable (failure_kind e) ≡ true) ↔ IsTransient e
unfolding failure_kind classify_failure classify_http_status
failure_kind-retryable_iff e = ground arith

-- The messages of a result that some counter names.
abbrev pub accounted : WorkerRunResult → ℕ
accounted r = r.published + r.retried + r.dead + r.lease_conflicts + r.failed

module _ (S : Seconds) where
  process-accounted :
      (settings : RetrySettings S) (n : ℕ) (a : Answers S) (r : WorkerRunResult)
      → process S settings n a ≡ ok r
      → accounted r ≡ 1
  unfolding process dispatch handle_failure by_decision schedule end_terminally
  process-accounted settings n a r e = ground arith

  gather_batch-cons :
      (settings : RetrySettings S) (c : ℕ × Answers S) (cs : List (ℕ × Answers S))
      (rs : List WorkerRunResult)
      → gather_batch S settings (c ∷ cs) ≡ ok rs
      → (r : WorkerRunResult) × ((rest : List WorkerRunResult) × ((rs ≡ r ∷ rest)
            × ((process S settings c.0 c.1 ≡ ok r) × (gather_batch S settings cs ≡ ok rest))))
  unfolding gather_batch
  gather_batch-cons settings c cs rs e = ground arith

  gather_batch-accounted :
      (settings : RetrySettings S) (batch : List (ℕ × Answers S)) (rs : List WorkerRunResult)
      (start : WorkerRunResult)
      → gather_batch S settings batch ≡ ok rs
      → (accounted (merge_all S start rs) ≡ accounted start + length batch)
        × ((merge_all S start rs).claimed ≡ start.claimed)
  unfolding gather_batch merge_all merge
  gather_batch-accounted settings [] rs start e = ground arith
  gather_batch-accounted settings (c ∷ cs) rs start e =
      let g = gather_batch-cons settings c cs rs e in
      let r = g.0 in
      let ih = gather_batch-accounted settings cs g.1.0 (merge start r) g.1.1.1.1 in
      let one = process-accounted settings c.0 c.1 r g.1.1.1.0 in
      rw g.1.1.0 (ground (arith, ih, one))

  -- When a batch returns, it claims all of it, and the other counters add up to what it claims: every
  -- message is published, retried, dead, lost to another worker's lease or failed, exactly once.
  pub run_once-accounted :
      (settings : RetrySettings S) (batch : List (ℕ × Answers S)) (result : WorkerRunResult)
      → run_once S settings batch ≡ ok result
      → (result.claimed ≡ length batch) × (accounted result ≡ length batch)
  unfolding run_once
  run_once-accounted settings batch result e =
      let g : (rs : List WorkerRunResult) × ((gather_batch S settings batch ≡ ok rs)
            × (merge_all S (claimed_only (length batch)) rs ≡ result)) =
        ground arith in
      ground (
        arith,
        gather_batch-accounted settings batch g.0 (claimed_only (length batch)) g.1.0,
        g.1.1,
      )

  -- When a dispatch fails with an exception other than a lease conflict and `decide_retry` returns, an
  -- exception leaves `_process` exactly when the decision is to retry and either it is the overflow of
  -- the retry's time, which is out of the range of a date, or that time is in range and the call that
  -- schedules the retry raises it, and it is neither a lease conflict nor exhausted attempts.
  pub process_raises_iff :
      (settings : RetrySettings S) (n : ℕ) (a : Answers S) (e : ProviderError S.Carrier)
      (x : WorkerError S.Carrier) (d : RetryDecision S)
      → dispatch S a ≡ err e
      → e ≢ lease_conflict_error
      → decide_retry S settings (failure_kind e) n max_attempts_default (retry_after_of e) ≡ ok d
      → (process S settings n a ≡ err x) ↔ (
          (d.retryable ≡ true)
          × (((a.retry_time_in_range ≡ false) × (x ≡ overflow_error))
              ⊎ ((a.retry_time_in_range ≡ true)
                  × ((y : ProviderError S.Carrier) × ((x ≡ repository_error y)
                        × (a.schedule_retry ≡ err y)
                        × (y ≢ lease_conflict_error)
                        × (y ≢ attempts_exhausted_error))))))
  unfolding process handle_failure by_decision schedule end_terminally
  process_raises_iff settings n a e x d f u v = ground (
    arith,
    decide_retry-retryable_iff S settings (failure_kind e) n max_attempts_default (retry_after_of e)
        d v,
  )
