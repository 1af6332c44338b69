-- ===== src/Operations/Decisions.antt =====
-- The lifecycle checks and the result builders that the two policies of
-- src/agent/operations/policy.py share.
use langgraph_refund_agent.Base.{
  ℕ, String, Bool, true, false, not, ◌&&◌, Option, none, some, List, [], ◌∷◌, is_none, is_some, ltb,
  if◌then◌else◌,
}
use langgraph_refund_agent.Operations.Types.{
  OrderStatus, FulfillmentStatus, OperationType, OperationStatus, DeliveryIssueType,
  OperationOutcome, DeliveryOutcome, RecommendedCaseType, CasePriority, ExistingOperation,
  OrderSnapshot, OperationDecision, DeliveryDecision,
}

-- The errors that the policies raise, all of them a `ValueError`.
pub data PolicyError : Type 0 where
  order_id_mismatch naive_now : PolicyError

abbrev pub is_delivered : FulfillmentStatus → Bool
is_delivered FulfillmentStatus.delivered = true
is_delivered _ = false

abbrev pub is_unfulfilled : FulfillmentStatus → Bool
is_unfulfilled FulfillmentStatus.unfulfilled = true
is_unfulfilled _ = false

-- `fulfillment_status in ("shipped", "delivered")`
abbrev pub is_shipped_or_delivered : FulfillmentStatus → Bool
is_shipped_or_delivered FulfillmentStatus.shipped = true
is_shipped_or_delivered FulfillmentStatus.delivered = true
is_shipped_or_delivered _ = false

abbrev pub is_pending_payment : OrderStatus → Bool
is_pending_payment OrderStatus.pending_payment = true
is_pending_payment _ = false

abbrev pub is_cancelled : OrderStatus → Bool
is_cancelled OrderStatus.cancelled = true
is_cancelled _ = false

-- `o is not None and o < t`
abbrev pub is_before : Option ℕ → ℕ → Bool
is_before none t = false
is_before (some d) t = ltb d t

-- `_has_contradictory_lifecycle`
unfoldable pub has_contradictory_lifecycle : OrderSnapshot → Bool
has_contradictory_lifecycle s =
    if is_delivered s.fulfillment_status && is_none s.delivered_at
    then true
    else if not (is_delivered s.fulfillment_status) && is_some s.delivered_at
    then true
    else if is_unfulfilled s.fulfillment_status && is_some s.shipped_at
    then true
    else if is_shipped_or_delivered s.fulfillment_status && is_none s.shipped_at
    then true
    else if is_pending_payment s.order_status && not (is_unfulfilled s.fulfillment_status)
    then true
    else if is_cancelled s.order_status && not (is_unfulfilled s.fulfillment_status)
    then true
    else is_before s.delivered_at s.created_at

-- `_ACTIVE_OPERATION_STATUSES`; its "queued" is no `OperationStatus`.
abbrev pub is_active_status : OperationStatus → Bool
is_active_status OperationStatus.rejected = false
is_active_status _ = true

-- `_conflicting_operation` on the existing operations of a snapshot.
unfoldable pub conflicting_operation : List ExistingOperation → Option ExistingOperation
conflicting_operation [] = none
conflicting_operation (o ∷ os) =
    if is_active_status o.status then some o else conflicting_operation os

-- `_eligible`
abbrev pub eligible : OperationType → String → String → OperationDecision
eligible operation_type reason_code display_reason = record {
  outcome = OperationOutcome.eligible;
  operation_type = operation_type;
  requires_confirmation = true;
  reason_codes = reason_code ∷ [];
  display_reason = display_reason;
  existing_operation = none;
  case_recommendation = none;
}

-- `_manual`
abbrev pub manual : OperationType → String → String → CasePriority → OperationDecision
manual operation_type reason_code display_reason priority = record {
  outcome = OperationOutcome.manual_review;
  operation_type = operation_type;
  requires_confirmation = true;
  reason_codes = reason_code ∷ [];
  display_reason = display_reason;
  existing_operation = none;
  case_recommendation = some (record {
    case_type = RecommendedCaseType.order_operation_review;
    priority = priority;
    reason_codes = reason_code ∷ [];
  });
}

-- `_rejected`
abbrev pub rejected : OperationType → String → String → OperationDecision
rejected operation_type reason_code display_reason = record {
  outcome = OperationOutcome.rejected;
  operation_type = operation_type;
  requires_confirmation = false;
  reason_codes = reason_code ∷ [];
  display_reason = display_reason;
  existing_operation = none;
  case_recommendation = none;
}

-- `_existing`
abbrev pub existing : OperationType → ExistingOperation → OperationDecision
existing operation_type existing_operation = record {
  outcome = OperationOutcome.existing_operation;
  operation_type = operation_type;
  requires_confirmation = false;
  reason_codes = "operation_already_exists" ∷ [];
  display_reason = "An existing order operation is already being handled.";
  existing_operation = some existing_operation;
  case_recommendation = none;
}

-- `_delivery_manual`
abbrev pub delivery_manual : DeliveryIssueType → String → String → CasePriority → DeliveryDecision
delivery_manual issue_type reason_code display_reason priority = record {
  outcome = DeliveryOutcome.manual_review;
  issue_type = issue_type;
  reason_codes = reason_code ∷ [];
  display_reason = display_reason;
  case_recommendation = some (record {
    case_type = RecommendedCaseType.delivery_investigation;
    priority = priority;
    reason_codes = reason_code ∷ [];
  });
}

-- `_delivery_self_service`
abbrev pub delivery_self_service : DeliveryIssueType → String → String → DeliveryDecision
delivery_self_service issue_type reason_code display_reason = record {
  outcome = DeliveryOutcome.self_service;
  issue_type = issue_type;
  reason_codes = reason_code ∷ [];
  display_reason = display_reason;
  case_recommendation = none;
}
