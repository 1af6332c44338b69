-- ===== src/Integrations/DispatchTests.antt =====
-- Retries, with whole seconds, and dispatches of the outbox worker, and
-- a batch of the inbox worker, on concrete values.
use langgraph_refund_agent.Base.{
  ℕ, ◌+◌, ◌*◌, ◌^◌, ◌≤◌, ◌<◌, ◌≡◌, ◌≢◌, ◌↔◌, ◌⊎◌, refl, true, false, none, some, List, [], ◌∷◌, ok,
  err, ltb, leb, arith,
}
use langgraph_refund_agent.Integrations.Models.{
  ProviderCommandExecutionStatus, ProviderFailureKind, is_retryable,
}
use langgraph_refund_agent.Integrations.Retry.{
  ProviderError, Seconds, RetrySettings, RetryDecision, decide_retry, retry_delay_seconds,
  validate_retry_parameters, capped, at_least, timeout_error, other_error, lease_conflict_error,
  attempts_exhausted_error, classify_failure, max_attempts_default,
}
use langgraph_refund_agent.Integrations.Retry.Delay.{
  decide_retry-retryable_iff, delay_respects_retry_after, delay_capped,
}
use langgraph_refund_agent.Integrations.OutboxWorker.{
  Answers, WorkerRunResult, process, handle_failure, by_decision, schedule, end_terminally, merge,
  merge_all, gather_batch, run_once, dispatch, failure_kind, retry_after_of, repository_error,
  WorkerError, overflow_error,
}
use langgraph_refund_agent.Integrations.Commands.{order_operation, support_case}
use langgraph_refund_agent.Integrations.InboxWorker.{
  ClaimedItem, InboxFinalizationResult, InboxWorkerRunResult, Wait, InboxFinalizationAction, waits,
  run_inbox_once,
}
use langgraph_refund_agent.Integrations.InboxWorker.Reported.{
  count_of, inbox_accounted, IsReportedBy,
}
use langgraph_refund_agent.Integrations.InboxWorker.Batches.{run_inbox_once_counts}
use langgraph_refund_agent.Integrations.OutboxWorker.Outcomes.{
  accounted, run_once-accounted, process_raises_iff,
}

abbrev whole_seconds : Seconds
whole_seconds = record {
  Carrier = ℕ;
  zero = 0;
  one = 1;
  lt = ltb;
  le = leb;
  is_finite = λ x. true;
  add = λ x y. x + y;
  mul = λ x y. x * y;
  power = λ x n. some (x ^ n);
}

ltb-irreflexive : (x : ℕ) → ltb x x ≡ false
ltb-irreflexive x = ground arith

abbrev settings : RetrySettings whole_seconds
settings = record {
  base_delay = 1;
  multiplier = 2;
  jitter = 0;
  max_delay = some 3;
  random_source = none;
}

abbrev retried : RetryDecision whole_seconds
retried = record {
  retryable = true;
  kind = ProviderFailureKind.timeout;
  attempts_so_far = 3;
  max_attempts = 8;
  delay_seconds = some 3;
  retry_after_seconds = none;
  exhausted = false;
}

abbrev retried_later : RetryDecision whole_seconds
retried_later = record retried { delay_seconds = some 60; retry_after_seconds = some 60 }

is_retried : decide_retry whole_seconds settings ProviderFailureKind.timeout 3 8 none ≡ ok retried
unfolding decide_retry retry_delay_seconds validate_retry_parameters capped at_least
is_retried = refl

is_retried_later :
    decide_retry whole_seconds settings ProviderFailureKind.timeout 3 8 (some 60) ≡ ok retried_later
unfolding decide_retry retry_delay_seconds validate_retry_parameters capped at_least
is_retried_later = refl

decide_retry-retryable_iff_example :
    ((true ≡ true) ↔ ((is_retryable ProviderFailureKind.timeout ≡ true) × (3 < 8)))
    × ((false ≡ true) ↔ (8 ≤ 3))
    × ((retried.delay_seconds ≢ none) ↔ (true ≡ true))
decide_retry-retryable_iff_example =
    decide_retry-retryable_iff whole_seconds settings ProviderFailureKind.timeout 3 8 none retried
      is_retried

delay_respects_retry_after_example : ltb 60 60 ≡ false
delay_respects_retry_after_example =
    delay_respects_retry_after whole_seconds ltb-irreflexive settings ProviderFailureKind.timeout 3
      8 60 retried_later 60 is_retried_later refl

delay_capped_example : ltb 3 3 ≡ false
delay_capped_example =
    delay_capped whole_seconds ltb-irreflexive settings ProviderFailureKind.timeout 3 8 3 retried 3
      refl is_retried refl

abbrev timed_out : Answers whole_seconds
timed_out = record {
  connection_matches = ok true;
  response = err timeout_error;
  finalize_accepted = ok tt;
  finalize_rejected = ok tt;
  retry_time_in_range = true;
  schedule_retry = err other_error;
  terminal_failure = ok tt;
}

timed_out-dispatch : dispatch whole_seconds timed_out ≡ err timeout_error
unfolding dispatch
timed_out-dispatch = refl

timed_out_decision :
    decide_retry whole_seconds settings
      (failure_kind {C = ℕ} timeout_error)
      3
      max_attempts_default
      (retry_after_of {C = ℕ} timeout_error)
    ≡ ok retried
unfolding decide_retry retry_delay_seconds validate_retry_parameters capped at_least failure_kind
    retry_after_of classify_failure
timed_out_decision = refl

abbrev delivered : Answers whole_seconds
delivered = record timed_out { response = ok ProviderCommandExecutionStatus.accepted }

abbrev batch : List (ℕ × Answers whole_seconds)
batch = (1, delivered) ∷ (8, timed_out) ∷ []

abbrev batch_result : WorkerRunResult
batch_result = record {
  claimed = 2;
  published = 1;
  retried = 0;
  dead = 1;
  lease_conflicts = 0;
  failed = 0;
}

batch_run : run_once whole_seconds settings batch ≡ ok batch_result
unfolding run_once gather_batch process dispatch handle_failure by_decision schedule end_terminally
    merge_all merge decide_retry retry_delay_seconds validate_retry_parameters capped at_least
    failure_kind retry_after_of classify_failure
batch_run = refl

run_once-accounted_example : (batch_result.claimed ≡ 2) × (accounted batch_result ≡ 2)
run_once-accounted_example = run_once-accounted whole_seconds settings batch batch_result batch_run

process_raises_iff_example :
    (process whole_seconds settings 3 timed_out ≡ err (repository_error other_error)) ↔ (
      (retried.retryable ≡ true)
      × (((timed_out.retry_time_in_range ≡ false)
            × (◌≡◌ {A = WorkerError ℕ} (repository_error other_error) overflow_error))
          ⊎ ((timed_out.retry_time_in_range ≡ true)
              × ((y : ProviderError ℕ) × ((◌≡◌ {A = WorkerError ℕ}
                      (repository_error other_error)
                      (repository_error y))
                    × (timed_out.schedule_retry ≡ err y)
                    × (y ≢ lease_conflict_error)
                    × (y ≢ attempts_exhausted_error))))))
process_raises_iff_example =
    process_raises_iff whole_seconds settings 3 timed_out timeout_error
      (repository_error other_error) retried timed_out-dispatch (λ e. cc e) timed_out_decision

-- A callback of an order operation that is applied while the renewal is refused, and one of a case whose
-- lease is lost.
abbrev finalized : InboxFinalizationResult
finalized = record {
  action = InboxFinalizationAction.applied;
  aggregate_type = order_operation;
  previous_status = none;
  current_status = none;
  safe_error_code = none;
}

abbrev inbox_batch : List ClaimedItem
inbox_batch =
    record {
      aggregate_type = order_operation;
      finalize_order_operation = Wait.renewed ∷ Wait.not_renewed (some (ok finalized)) ∷ [];
      finalize_support_case = [];
    }
    ∷ record {
      aggregate_type = support_case;
      finalize_order_operation = [];
      finalize_support_case = Wait.not_renewed none ∷ [];
    }
    ∷ []

run_inbox_once_counts_example :
    (result : InboxWorkerRunResult) × ((run_inbox_once inbox_batch ≡ some result)
      × (result.claimed ≡ 2)
      × (inbox_accounted result ≡ 2)
      × IsReportedBy InboxFinalizationAction.applied inbox_batch
          (count_of InboxFinalizationAction.applied result))
unfolding waits
run_inbox_once_counts_example =
    run_inbox_once_counts InboxFinalizationAction.applied inbox_batch (tt, (tt, tt))
