-- ===== src/Integrations/InboxWorker.antt =====
-- The inbox worker (src/agent/integrations/inbox_worker.py and inbox_finalizer.py). What the finalizer,
-- the sleep and the renewal of the lease answer is a parameter, as the sequence of what the worker waits
-- for; the time of the retry is only handed to the finalizer, and is taken to be in the range of a date.
pub mod Reported
pub mod Batches
use langgraph_refund_agent.Base.{
  ℕ, ◌+◌, String, Bool, true, false, not, Option, none, some, List, [], ◌∷◌, length, Result, ok,
  err, if◌then◌else◌, ◌>>=◌,
}
use langgraph_refund_agent.Operations.Lifecycle.{OperationRecordStatus}
use langgraph_refund_agent.Integrations.Commands.{
  ProviderAggregateType, order_operation, support_case,
}

-- `InboxWorkerRunResult`
pub record InboxWorkerRunResult : Type 0 where
  pub claimed : ℕ
  pub applied : ℕ
  pub duplicates : ℕ
  pub stale : ℕ
  pub retried : ℕ
  pub failed : ℕ
  pub lease_conflicts : ℕ
  pub errors : ℕ

-- The defaults of `InboxWorkerRunResult`, but for the number claimed.
abbrev pub inbox_claimed : ℕ → InboxWorkerRunResult
inbox_claimed n = record {
  claimed = n;
  applied = 0;
  duplicates = 0;
  stale = 0;
  retried = 0;
  failed = 0;
  lease_conflicts = 0;
  errors = 0;
}

abbrev pub inbox_lease_conflict : InboxWorkerRunResult
inbox_lease_conflict = record (inbox_claimed 0) { lease_conflicts = 1 }

abbrev pub inbox_error : InboxWorkerRunResult
inbox_error = record (inbox_claimed 0) { errors = 1 }

-- `InboxFinalizationAction`
pub data InboxFinalizationAction : Type 0 where
  applied duplicate stale retry_scheduled failed : InboxFinalizationAction

-- `InboxFinalizationResult`
pub record InboxFinalizationResult : Type 0 where
  pub action : InboxFinalizationAction
  pub aggregate_type : ProviderAggregateType
  pub previous_status : Option OperationRecordStatus
  pub current_status : Option OperationRecordStatus
  pub safe_error_code : Option String

-- The exceptions that `_process` tells apart.
pub data InboxError : Type 0 where
  lease_conflict_error other_error : InboxError

-- How the task of the finalizer ends.
abbrev pub Finalization : Type 0
Finalization = Result InboxError InboxFinalizationResult

-- What one round of the loop of `_finalize_with_lease_renewal` meets: the finalizer is done; or the
-- sleep is over, by an exception or else with the answer of `renew_inbox_lease`, which is an exception,
-- or a renewed lease, or none, and then the finalizer may be done meanwhile.
pub data Wait : Type 0 where
  finalizer_done : Finalization → Wait
  sleep_raised : InboxError → Wait
  renewal_raised : InboxError → Wait
  renewed : Wait
  not_renewed : Option Finalization → Wait

-- `_finalize_with_lease_renewal`; none stands for a wait that does not end.
unfoldable pub finalize_with_lease_renewal : List Wait → Option Finalization
finalize_with_lease_renewal [] = none
finalize_with_lease_renewal (finalizer_done r ∷ ws) = some r
finalize_with_lease_renewal (sleep_raised e ∷ ws) = some (err e)
finalize_with_lease_renewal (renewal_raised e ∷ ws) = some (err e)
finalize_with_lease_renewal (renewed ∷ ws) = finalize_with_lease_renewal ws
finalize_with_lease_renewal (not_renewed (some r) ∷ ws) = some r
finalize_with_lease_renewal (not_renewed none ∷ ws) = some (err lease_conflict_error)

unfoldable pub same_aggregate : ProviderAggregateType → ProviderAggregateType → Bool
same_aggregate order_operation order_operation = true
same_aggregate support_case support_case = true
same_aggregate _ _ = false

-- The table of `_result_counter`.
unfoldable pub counter : InboxFinalizationAction → InboxWorkerRunResult
counter applied = record (inbox_claimed 0) { applied = 1 }
counter duplicate = record (inbox_claimed 0) { duplicates = 1 }
counter stale = record (inbox_claimed 0) { stale = 1 }
counter retry_scheduled = record (inbox_claimed 0) { retried = 1 }
counter failed = record (inbox_claimed 0) { failed = 1 }

-- `_result_counter`
unfoldable pub result_counter :
    ProviderAggregateType → InboxFinalizationResult → InboxWorkerRunResult
unfolding same_aggregate counter
result_counter claimed result =
    if not (same_aggregate result.aggregate_type claimed)
    then inbox_error
    else counter result.action

-- A claimed message, with what the worker waits for where it calls either finalizer.
pub record ClaimedItem : Type 0 where
  pub aggregate_type : ProviderAggregateType
  pub finalize_order_operation : List Wait
  pub finalize_support_case : List Wait

-- The finalizer that `_process` calls.
unfoldable pub waits : ClaimedItem → List Wait
waits item = elim item.aggregate_type [
  | order_operation ↦ item.finalize_order_operation
  | support_case ↦ item.finalize_support_case
]

-- `_process`, after the finalizer.
unfoldable pub of_finalization : ProviderAggregateType → Finalization → InboxWorkerRunResult
unfolding result_counter
of_finalization claimed (ok result) = result_counter claimed result
of_finalization claimed (err lease_conflict_error) = inbox_lease_conflict
of_finalization claimed (err other_error) = inbox_error

-- `_process`
unfoldable pub process_inbox : ClaimedItem → Option InboxWorkerRunResult
unfolding waits finalize_with_lease_renewal of_finalization
process_inbox item = elim (finalize_with_lease_renewal (waits item)) [
  | none ↦ none
  | some r ↦ some (of_finalization item.aggregate_type r)
]

-- `_gather_batch`: the results in claim order, once all of them are there.
unfoldable pub gather_inbox : List ClaimedItem → Option (List InboxWorkerRunResult)
unfolding process_inbox
gather_inbox [] = some []
gather_inbox (item ∷ items) = elim (process_inbox item) [
  | none ↦ none
  | some r ↦ elim (gather_inbox items) [ none ↦ none | some rs ↦ some (r ∷ rs) ]
]

-- `_merge`: the counters add up, the number claimed is the left one's.
unfoldable pub merge_inbox : InboxWorkerRunResult → InboxWorkerRunResult → InboxWorkerRunResult
merge_inbox left right = record {
  claimed = left.claimed;
  applied = left.applied + right.applied;
  duplicates = left.duplicates + right.duplicates;
  stale = left.stale + right.stale;
  retried = left.retried + right.retried;
  failed = left.failed + right.failed;
  lease_conflicts = left.lease_conflicts + right.lease_conflicts;
  errors = left.errors + right.errors;
}

-- `run_once`: the loop that merges.
unfoldable pub merge_all_inbox :
    InboxWorkerRunResult → List InboxWorkerRunResult → InboxWorkerRunResult
unfolding merge_inbox
merge_all_inbox result [] = result
merge_all_inbox result (r ∷ rs) = merge_all_inbox (merge_inbox result r) rs

-- `run_once`, on a claimed batch.
unfoldable pub run_inbox_once : List ClaimedItem → Option InboxWorkerRunResult
unfolding gather_inbox merge_all_inbox
run_inbox_once batch = elim (gather_inbox batch) [
  | none ↦ none
  | some results ↦ some (merge_all_inbox (inbox_claimed (length batch)) results)
]
