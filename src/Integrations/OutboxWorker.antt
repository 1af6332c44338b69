-- ===== src/Integrations/OutboxWorker.antt =====
-- One iteration of the outbox dispatch worker (src/agent/integrations/outbox_worker.py). What the
-- repository, the connection lookup, the provider and the finalizer answer is a parameter: each call
-- either returns or raises one of the exceptions the worker tells apart.
pub mod Outcomes
use langgraph_refund_agent.Base.{
  ℕ, ◌+◌, Bool, true, false, not, ◌||◌, ◌&&◌, Option, none, some, List, [], ◌∷◌, length, Result, ok,
  err, if◌then◌else◌, is_some,
}
use langgraph_refund_agent.Integrations.Models.{
  ProviderCommandExecutionStatus, ProviderFailureKind, validation_error,
}
use langgraph_refund_agent.Integrations.Retry.{
  Seconds, ProviderError, http_status_error, value_error, lease_conflict_error,
  attempts_exhausted_error, RetryError, RetrySettings, RetryDecision, classify_failure,
  decide_retry, max_attempts_default,
}

-- `WorkerRunResult`
pub record WorkerRunResult : Type 0 where
  pub claimed : ℕ
  pub published : ℕ
  pub retried : ℕ
  pub dead : ℕ
  pub lease_conflicts : ℕ
  pub failed : ℕ

-- `WorkerRunResult(claimed=...)`
abbrev pub claimed_only : ℕ → WorkerRunResult
claimed_only n = record {
  claimed = n;
  published = 0;
  retried = 0;
  dead = 0;
  lease_conflicts = 0;
  failed = 0;
}

abbrev pub published_one : WorkerRunResult
published_one = record {
  claimed = 0;
  published = 1;
  retried = 0;
  dead = 0;
  lease_conflicts = 0;
  failed = 0;
}

abbrev pub retried_one : WorkerRunResult
retried_one = record {
  claimed = 0;
  published = 0;
  retried = 1;
  dead = 0;
  lease_conflicts = 0;
  failed = 0;
}

abbrev pub dead_one : WorkerRunResult
dead_one = record {
  claimed = 0;
  published = 0;
  retried = 0;
  dead = 1;
  lease_conflicts = 0;
  failed = 0;
}

abbrev pub lease_conflict_one : WorkerRunResult
lease_conflict_one = record {
  claimed = 0;
  published = 0;
  retried = 0;
  dead = 0;
  lease_conflicts = 1;
  failed = 0;
}

abbrev pub failed_one : WorkerRunResult
failed_one = record {
  claimed = 0;
  published = 0;
  retried = 0;
  dead = 0;
  lease_conflicts = 0;
  failed = 1;
}

-- `_merge`: the counters add up, the number claimed is the left one's.
unfoldable pub merge : WorkerRunResult → WorkerRunResult → WorkerRunResult
merge left right = record {
  claimed = left.claimed;
  published = left.published + right.published;
  retried = left.retried + right.retried;
  dead = left.dead + right.dead;
  lease_conflicts = left.lease_conflicts + right.lease_conflicts;
  failed = left.failed + right.failed;
}

-- `kind` of `_handle_failure`: what cannot be classified counts as a validation error.
unfoldable pub failure_kind : {C : Type 0} → ProviderError C → ProviderFailureKind
failure_kind error = elim (classify_failure error) [ ok kind ↦ kind | err _ ↦ validation_error ]

-- `getattr(error, "retry_after_seconds", None)`
unfoldable pub retry_after_of : {C : Type 0} → ProviderError C → Option C
retry_after_of (http_status_error _ retry_after) = retry_after
retry_after_of _ = none

-- What escapes `_process`: an exception of the repository, one raised by `decide_retry`, or the
-- `OverflowError` of the time of the retry, where the clock and the delay leave the range of a date.
pub data WorkerError (C : Type 0) : Type 0 where
  repository_error : ProviderError C → WorkerError C
  retry_error : RetryError → WorkerError C
  overflow_error : WorkerError C

module _ (S : Seconds) where
  -- What the collaborators answer while one claimed message, which has a lease, is processed: whether
  -- the connection matches the command, or why the command or its connection cannot be had; the
  -- provider's status or the failure to get one; whether each database call returns; and whether the
  -- clock and the delay add up to a date.
  pub record Answers : Type 0 where
    pub connection_matches : Result (ProviderError S.Carrier) Bool
    pub response : Result (ProviderError S.Carrier) ProviderCommandExecutionStatus
    pub finalize_accepted : Result (ProviderError S.Carrier) (Unit {0})
    pub finalize_rejected : Result (ProviderError S.Carrier) (Unit {0})
    pub retry_time_in_range : Bool
    pub schedule_retry : Result (ProviderError S.Carrier) (Unit {0})
    pub terminal_failure : Result (ProviderError S.Carrier) (Unit {0})

  -- `_handle_failure`, from `terminal_failure`.
  unfoldable pub end_terminally : Answers → WorkerRunResult
  end_terminally a = elim a.terminal_failure [
    | ok _ ↦ dead_one
    | err lease_conflict_error ↦ lease_conflict_one
    | err _ ↦ failed_one
  ]

  -- `_handle_failure`, the time of the retry, the call of `schedule_outbox_retry` and its two handlers.
  unfoldable pub schedule : Answers → Result (WorkerError S.Carrier) WorkerRunResult
  schedule a = if not a.retry_time_in_range then err overflow_error else elim a.schedule_retry [
    | ok _ ↦ ok retried_one
    | err attempts_exhausted_error ↦ ok (end_terminally a)
    | err lease_conflict_error ↦ ok lease_conflict_one
    | err e ↦ err (repository_error e)
  ]

  -- `_handle_failure`, after `decide_retry`.
  unfoldable pub by_decision :
      Answers → Result RetryError (RetryDecision S) → Result (WorkerError S.Carrier) WorkerRunResult
  by_decision a (err e) = err (retry_error e)
  by_decision a (ok decision) =
      if decision.retryable && is_some decision.delay_seconds
      then schedule a
      else ok (end_terminally a)

  -- `_handle_failure`
  unfoldable pub handle_failure :
      RetrySettings S
      → ℕ
      → Answers
      → ProviderError S.Carrier
      → Result (WorkerError S.Carrier) WorkerRunResult
  handle_failure settings attempt_number a error = by_decision a (
      decide_retry S settings (failure_kind error) attempt_number max_attempts_default
        (retry_after_of error))

  -- `_process`, the body of its `try`.
  unfoldable pub dispatch : Answers → Result (ProviderError S.Carrier) WorkerRunResult
  dispatch a = elim a.connection_matches [
    | err e ↦ err e
    | ok false ↦ err value_error
    | ok true ↦ elim a.response [
      | err e ↦ err e
      | ok ProviderCommandExecutionStatus.accepted ↦ elim a.finalize_accepted [
        | ok _ ↦ ok published_one
        | err e ↦ err e
      ]
      | ok _ ↦ elim a.finalize_rejected [ ok _ ↦ ok dead_one | err e ↦ err e ]
    ]
  ]

  -- `_process`
  unfoldable pub process :
      RetrySettings S → ℕ → Answers → Result (WorkerError S.Carrier) WorkerRunResult
  process settings attempt_number a = elim (dispatch a) [
    | ok r ↦ ok r
    | err lease_conflict_error ↦ ok lease_conflict_one
    | err e ↦ handle_failure settings attempt_number a e
  ]

  -- `_gather_batch`: the results in claim order, or the first exception that escaped a task.
  unfoldable pub gather_batch :
      RetrySettings S → List (ℕ × Answers) → Result (WorkerError S.Carrier) (List WorkerRunResult)
  gather_batch settings [] = ok []
  gather_batch settings (c ∷ cs) = elim (process settings c.0 c.1) [
    | err e ↦ err e
    | ok r ↦ elim (gather_batch settings cs) [ err e ↦ err e | ok rs ↦ ok (r ∷ rs) ]
  ]

  -- `run_once`: the loop that merges.
  unfoldable pub merge_all : WorkerRunResult → List WorkerRunResult → WorkerRunResult
  merge_all result [] = result
  merge_all result (r ∷ rs) = merge_all (merge result r) rs

  -- `run_once`, on a claimed batch of messages with their attempt numbers.
  unfoldable pub run_once :
      RetrySettings S → List (ℕ × Answers) → Result (WorkerError S.Carrier) WorkerRunResult
  run_once settings batch = elim (gather_batch settings batch) [
    | err e ↦ err e
    | ok results ↦ ok (merge_all (claimed_only (length batch)) results)
  ]
