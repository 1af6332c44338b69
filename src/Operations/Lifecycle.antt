-- ===== src/Operations/Lifecycle.antt =====
-- The lifecycle of a persisted order operation: `OperationRecordStatus` of
-- src/agent/operations/models.py and the transition table of src/agent/operations/service.py.
pub mod Reachability
use langgraph_refund_agent.Base.{Bool, true, false}

pub data OperationRecordStatus : Type 0 where
  pending_confirmation queued submitted processing : OperationRecordStatus
  manual_review completed rejected cancelled_by_customer : OperationRecordStatus

-- `target in _ALLOWED_STATUS_TRANSITIONS[current]`
unfoldable pub transition_allowed : OperationRecordStatus → OperationRecordStatus → Bool
transition_allowed pending_confirmation queued = true
transition_allowed pending_confirmation submitted = true
transition_allowed pending_confirmation manual_review = true
transition_allowed pending_confirmation rejected = true
transition_allowed pending_confirmation cancelled_by_customer = true
transition_allowed queued submitted = true
transition_allowed queued manual_review = true
transition_allowed queued rejected = true
transition_allowed submitted processing = true
transition_allowed submitted completed = true
transition_allowed submitted rejected = true
transition_allowed processing completed = true
transition_allowed processing rejected = true
transition_allowed manual_review processing = true
transition_allowed manual_review completed = true
transition_allowed manual_review rejected = true
transition_allowed _ _ = false

pub OperationRecordStatus-discrete : Discrete OperationRecordStatus
OperationRecordStatus-discrete = hlevel

-- `a == b` on statuses.
unfoldable pub status_eq : OperationRecordStatus → OperationRecordStatus → Bool
unfolding OperationRecordStatus-discrete
status_eq a b = elim (OperationRecordStatus-discrete a b) [ yes _ ↦ true | no _ ↦ false ]
