-- ===== src/Operations/Types.antt =====
-- The domain models of src/agent/operations/models.py. A `Literal` type is an enumeration. An aware
-- datetime is its instant in microseconds, an amount with two decimal places is its cents.
use langgraph_refund_agent.Base.{
  ℕ, String, str_eq, Bool, true, false, not, ◌&&◌, ◌||◌, Option, none, some, List, is_none, is_some,
  is_empty,
}

pub data OrderStatus : Type 0 where
  pending_payment confirmed cancelled completed : OrderStatus

pub data PaymentStatus : Type 0 where
  unpaid paid refund_pending partially_refunded refunded : PaymentStatus

pub data FulfillmentStatus : Type 0 where
  unfulfilled processing shipped delivered : FulfillmentStatus

pub data OperationType : Type 0 where
  cancellation return exchange : OperationType

-- `OperationStatus`, the status of an operation that the order system reports.
pub data OperationStatus : Type 0 where
  submitted processing manual_review completed rejected : OperationStatus

pub data ExistingOperationType : Type 0 where
  refund cancellation return exchange : ExistingOperationType

pub data DeliveryIssueType : Type 0 where
  delayed tracking_stalled delivery_failed marked_delivered_not_received : DeliveryIssueType
  package_damaged wrong_item_or_missing_parts other_delivery_issue : DeliveryIssueType

pub data OperationOutcome : Type 0 where
  eligible manual_review rejected existing_operation already_completed : OperationOutcome

pub data DeliveryOutcome : Type 0 where
  self_service manual_review offer_return_exchange : DeliveryOutcome

pub data RecommendedCaseType : Type 0 where
  order_operation_review delivery_investigation : RecommendedCaseType

pub data CasePriority : Type 0 where
  p0 p1 p2 p3 : CasePriority

-- `CancellationReason | ReturnExchangeReason`; the reason "other" belongs to both.
pub data OperationReason : Type 0 where
  ordered_by_mistake no_longer_needed incorrect_item_or_quantity : OperationReason
  delivery_too_slow payment_issue changed_mind wrong_item_received damaged_item : OperationReason
  defective_item missing_parts not_as_described size_or_variant_issue other : OperationReason

-- An operation already recorded by an order system.
pub record ExistingOperation : Type 0 where
  pub operation_id : String
  pub operation_type : ExistingOperationType
  pub status : OperationStatus
  pub provider_reference : Option String

-- The read-only facts that the policy uses.
pub record OrderSnapshot : Type 0 where
  pub order_id : String
  pub version : ℕ
  pub amount : ℕ
  pub currency : String
  pub order_status : OrderStatus
  pub payment_status : PaymentStatus
  pub fulfillment_status : FulfillmentStatus
  pub created_at : ℕ
  pub shipped_at : Option ℕ
  pub delivered_at : Option ℕ
  pub promised_delivery_at : Option ℕ
  pub last_tracking_event_at : Option ℕ
  pub return_eligible : Option Bool
  pub exchange_eligible : Option Bool
  pub existing_operations : List ExistingOperation
  pub customer_id : Option String
  pub tenant_id : Option String

-- One normalized cancellation, return or exchange request.
pub record OrderOperationRequest : Type 0 where
  pub thread_id : String
  pub source_message_id : String
  pub order_id : String
  pub operation_type : OperationType
  pub reason : OperationReason
  pub replacement_variant_id : Option String
  pub customer_id : String
  pub tenant_id : String

pub record DeliveryIssueRequest : Type 0 where
  pub thread_id : String
  pub source_message_id : String
  pub order_id : String
  pub issue_type : DeliveryIssueType
  pub investigation_requested : Bool

pub record CaseRecommendation : Type 0 where
  pub case_type : RecommendedCaseType
  pub priority : CasePriority
  pub reason_codes : List String

pub record OperationDecision : Type 0 where
  pub outcome : OperationOutcome
  pub operation_type : OperationType
  pub requires_confirmation : Bool
  pub reason_codes : List String
  pub display_reason : String
  pub existing_operation : Option ExistingOperation
  pub case_recommendation : Option CaseRecommendation

pub record DeliveryDecision : Type 0 where
  pub outcome : DeliveryOutcome
  pub issue_type : DeliveryIssueType
  pub reason_codes : List String
  pub display_reason : String
  pub case_recommendation : Option CaseRecommendation

-- A `datetime` argument may be naive; one that is aware has an instant.
pub data Datetime : Type 0 where
  naive : ℕ → Datetime
  aware : ℕ → Datetime

-- `is_aware`
abbrev pub is_aware : Datetime → Bool
is_aware (naive _) = false
is_aware (aware _) = true

-- `_CANCELLATION_REASONS`
abbrev pub is_cancellation_reason : OperationReason → Bool
is_cancellation_reason OperationReason.ordered_by_mistake = true
is_cancellation_reason OperationReason.no_longer_needed = true
is_cancellation_reason OperationReason.incorrect_item_or_quantity = true
is_cancellation_reason OperationReason.delivery_too_slow = true
is_cancellation_reason OperationReason.payment_issue = true
is_cancellation_reason OperationReason.other = true
is_cancellation_reason _ = false

-- `_CANCELLATION_REASONS - {"other"}`
abbrev pub is_cancellation_only_reason : OperationReason → Bool
is_cancellation_only_reason OperationReason.other = false
is_cancellation_only_reason r = is_cancellation_reason r

-- `OrderOperationRequest.validate_operation_specific_fields`: false where it raises.
unfoldable pub request_fields_valid : OperationType → OperationReason → Option String → Bool
request_fields_valid OperationType.cancellation reason variant =
    is_cancellation_reason reason && is_none variant
request_fields_valid OperationType.exchange reason variant =
    not (is_cancellation_only_reason reason) && is_some variant
request_fields_valid OperationType.return reason variant =
    not (is_cancellation_only_reason reason) && is_none variant

-- `OperationDecision.validate_outcome_fields`, with the lengths of the fields: false where it raises.
decision_shape_valid :
    OperationOutcome → Bool → Option ExistingOperation → Option CaseRecommendation → Bool
decision_shape_valid OperationOutcome.existing_operation confirm existing case =
    is_some existing && not (confirm || is_some case)
decision_shape_valid OperationOutcome.eligible confirm existing case =
    is_none existing && confirm && is_none case
decision_shape_valid OperationOutcome.manual_review confirm existing case =
    is_none existing && confirm && is_some case
decision_shape_valid OperationOutcome.rejected confirm existing case =
    is_none existing && not confirm && is_none case
decision_shape_valid OperationOutcome.already_completed confirm existing case =
    is_none existing && not confirm && is_none case

-- `CaseRecommendation.reason_codes` has at least one element.
recommendation_valid : Option CaseRecommendation → Bool
recommendation_valid none = true
recommendation_valid (some r) = not (is_empty r.reason_codes)

unfoldable pub decision_valid : OperationDecision → Bool
unfolding decision_shape_valid recommendation_valid
decision_valid d =
    not (is_empty d.reason_codes)
    && not (str_eq d.display_reason "")
    && recommendation_valid d.case_recommendation
    && decision_shape_valid d.outcome d.requires_confirmation d.existing_operation
        d.case_recommendation

delivery_shape_valid : DeliveryOutcome → Option CaseRecommendation → Bool
delivery_shape_valid DeliveryOutcome.manual_review case = is_some case
delivery_shape_valid DeliveryOutcome.self_service case = is_none case
delivery_shape_valid DeliveryOutcome.offer_return_exchange case = is_none case

-- `DeliveryDecision.validate_outcome_fields`, with the lengths of the fields.
unfoldable pub delivery_decision_valid : DeliveryDecision → Bool
unfolding delivery_shape_valid recommendation_valid
delivery_decision_valid d =
    not (is_empty d.reason_codes)
    && not (str_eq d.display_reason "")
    && recommendation_valid d.case_recommendation
    && delivery_shape_valid d.outcome d.case_recommendation
