-- ===== src/Operations/Policy.antt =====
-- `evaluate_operation` of src/agent/operations/policy.py and what it calls.
pub mod Shape
pub mod Eligibility
use langgraph_refund_agent.Base.{
  ℕ, ◌+◌, ◌*◌, String, str_eq, Bool, true, false, not, Option, none, some, List, [], ◌∷◌, Result,
  ok, err, ltb, leb, if◌then◌else◌,
}
use langgraph_refund_agent.Operations.Types.{
  OrderStatus, PaymentStatus, FulfillmentStatus, OperationType, OperationOutcome, CasePriority,
  ExistingOperation, OrderSnapshot, OrderOperationRequest, OperationDecision, Datetime, naive,
  aware,
}
use langgraph_refund_agent.Operations.Decisions.{
  PolicyError, order_id_mismatch, naive_now, is_delivered, is_shipped_or_delivered,
  has_contradictory_lifecycle, conflicting_operation, eligible, manual, rejected, existing,
}

-- `timedelta(days=RETURN_WINDOW_DAYS)` in microseconds.
abbrev pub return_window : ℕ
return_window = 7 * 86400000000

-- `CurrencyThresholds`: amounts, in cents, keyed by currency.
abbrev pub CurrencyThresholds : Type 0
CurrencyThresholds = List (String × ℕ)

unfoldable pub threshold_for : CurrencyThresholds → String → Option ℕ
threshold_for [] currency = none
threshold_for ((c, t) ∷ ts) currency =
    if str_eq c currency then some t else threshold_for ts currency

-- `payment_status in ("refund_pending", "refunded")`
abbrev pub is_refund_started : PaymentStatus → Bool
is_refund_started PaymentStatus.refund_pending = true
is_refund_started PaymentStatus.refunded = true
is_refund_started _ = false

abbrev pub is_processing : FulfillmentStatus → Bool
is_processing FulfillmentStatus.processing = true
is_processing _ = false

-- `_evaluate_cancellation`, from the test on `order_status in ("pending_payment", "confirmed")`.
cancellation_by_order_status : OrderStatus → OperationDecision
cancellation_by_order_status OrderStatus.pending_payment =
    eligible OperationType.cancellation "cancellation_eligible" "This order can be cancelled."
cancellation_by_order_status OrderStatus.confirmed =
    eligible OperationType.cancellation "cancellation_eligible" "This order can be cancelled."
cancellation_by_order_status _ =
    manual OperationType.cancellation "cancellation_state_invalid"
      "This cancellation needs manual review." CasePriority.p1

already_cancelled : OperationDecision
already_cancelled = record {
  outcome = OperationOutcome.already_completed;
  operation_type = OperationType.cancellation;
  requires_confirmation = false;
  reason_codes = "order_already_cancelled" ∷ [];
  display_reason = "This order has already been cancelled.";
  existing_operation = none;
  case_recommendation = none;
}

-- `_evaluate_cancellation`, after the test on `order_status == "cancelled"`.
cancellation_of_open_order : OrderSnapshot → OperationDecision
unfolding cancellation_by_order_status
cancellation_of_open_order s =
    if is_refund_started s.payment_status
    then rejected OperationType.cancellation "cancellation_payment_already_refunded"
        "This order already has a refund in progress or completed."
    else if is_shipped_or_delivered s.fulfillment_status
    then rejected OperationType.cancellation "cancellation_fulfillment_started"
        "This order can no longer be cancelled after fulfillment has started."
    else if is_processing s.fulfillment_status
    then manual OperationType.cancellation "cancellation_fulfillment_processing"
        "This cancellation needs warehouse review." CasePriority.p1
    else cancellation_by_order_status s.order_status

cancellation_of : OrderStatus → OrderSnapshot → OperationDecision
unfolding cancellation_of_open_order already_cancelled
cancellation_of OrderStatus.cancelled s = already_cancelled
cancellation_of _ s = cancellation_of_open_order s

-- `_evaluate_cancellation`
unfoldable pub evaluate_cancellation : OrderSnapshot → OperationDecision
unfolding cancellation_of
evaluate_cancellation s = cancellation_of s.order_status s

abbrev is_return : OperationType → Bool
is_return OperationType.return = true
is_return _ = false

-- The codes and texts that the source formats with the operation type.
abbrev not_eligible_code : OperationType → String
not_eligible_code OperationType.cancellation = "cancellation_not_eligible"
not_eligible_code OperationType.return = "return_not_eligible"
not_eligible_code OperationType.exchange = "exchange_not_eligible"

abbrev not_eligible_text : OperationType → String
not_eligible_text OperationType.cancellation = "This order is not eligible for cancellation."
not_eligible_text OperationType.return = "This order is not eligible for return."
not_eligible_text OperationType.exchange = "This order is not eligible for exchange."

abbrev eligibility_unknown_code : OperationType → String
eligibility_unknown_code OperationType.cancellation = "cancellation_eligibility_unknown"
eligibility_unknown_code OperationType.return = "return_eligibility_unknown"
eligibility_unknown_code OperationType.exchange = "exchange_eligibility_unknown"

abbrev eligibility_unknown_text : OperationType → String
eligibility_unknown_text OperationType.cancellation =
    "Cancellation eligibility needs manual review."
eligibility_unknown_text OperationType.return = "Return eligibility needs manual review."
eligibility_unknown_text OperationType.exchange = "Exchange eligibility needs manual review."

abbrev eligible_code : OperationType → String
eligible_code OperationType.cancellation = "cancellation_eligible"
eligible_code OperationType.return = "return_eligible"
eligible_code OperationType.exchange = "exchange_eligible"

abbrev eligible_text : OperationType → String
eligible_text OperationType.cancellation = "This order is eligible for cancellation."
eligible_text OperationType.return = "This order is eligible for return."
eligible_text OperationType.exchange = "This order is eligible for exchange."

-- `_evaluate_return_or_exchange`, from the test on the currency's threshold.
by_threshold : OperationType → ℕ → Option ℕ → OperationDecision
by_threshold type amount none =
    manual type "currency_threshold_unconfigured" "This currency needs manual review."
      CasePriority.p1
by_threshold OperationType.return amount (some threshold) =
    if leb threshold amount
    then manual OperationType.return "return_manual_amount_review"
        "This return amount needs manual review." CasePriority.p1
    else eligible OperationType.return (eligible_code OperationType.return)
        (eligible_text OperationType.return)
by_threshold type amount (some threshold) = eligible type (eligible_code type) (eligible_text type)

-- `_evaluate_return_or_exchange`, from the test on the order's own eligibility.
by_eligibility :
    OperationType → OrderSnapshot → CurrencyThresholds → Option Bool → OperationDecision
unfolding by_threshold
by_eligibility type s thresholds (some false) =
    rejected type (not_eligible_code type) (not_eligible_text type)
by_eligibility type s thresholds none =
    manual type (eligibility_unknown_code type) (eligibility_unknown_text type) CasePriority.p1
by_eligibility type s thresholds (some true) =
    by_threshold type s.amount (threshold_for thresholds s.currency)

eligibility : OperationType → OrderSnapshot → Option Bool
eligibility type s = if is_return type then s.return_eligible else s.exchange_eligible

-- `_evaluate_return_or_exchange`, from the tests on the delivery date.
by_delivery_date :
    OperationType → OrderSnapshot → ℕ → CurrencyThresholds → Option ℕ → OperationDecision
unfolding by_eligibility eligibility
by_delivery_date type s now thresholds none =
    manual type "operation_delivery_date_invalid" "Delivery timing needs manual review."
      CasePriority.p1
by_delivery_date type s now thresholds (some delivered_at) =
    if ltb now delivered_at
    then manual type "operation_delivery_date_invalid" "Delivery timing needs manual review."
        CasePriority.p1
    else if ltb (delivered_at + return_window) now
    then rejected type "operation_return_window_expired"
        "This order is past the return and exchange deadline."
    else by_eligibility type s thresholds (eligibility type s)

-- `_evaluate_return_or_exchange`
unfoldable pub evaluate_return_or_exchange :
    OperationType → OrderSnapshot → ℕ → CurrencyThresholds → OperationDecision
unfolding by_delivery_date
evaluate_return_or_exchange type s now thresholds =
    if is_refund_started s.payment_status
    then rejected type "operation_payment_already_refunded"
        "This order already has a refund in progress or completed."
    else if not (is_delivered s.fulfillment_status)
    then rejected type "operation_not_delivered"
        "This order must be delivered before a return or exchange can be requested."
    else by_delivery_date type s now thresholds s.delivered_at

-- `_evaluate_exchange`, from the tests on the replacement.
by_replacement : Option Bool → OperationDecision
by_replacement (some false) =
    rejected OperationType.exchange "exchange_replacement_unavailable"
      "The requested replacement is unavailable."
by_replacement none =
    manual OperationType.exchange "exchange_inventory_unknown"
      "Replacement availability needs manual review." CasePriority.p2
by_replacement (some true) =
    eligible OperationType.exchange "exchange_eligible" "This order is eligible for exchange."

abbrev is_eligible : OperationOutcome → Bool
is_eligible OperationOutcome.eligible = true
is_eligible _ = false

-- `_evaluate_exchange`
unfoldable pub evaluate_exchange :
    OrderSnapshot → ℕ → CurrencyThresholds → Option Bool → OperationDecision
unfolding by_replacement
evaluate_exchange s now thresholds replacement_available =
    let base_decision = evaluate_return_or_exchange OperationType.exchange s now thresholds in
    if not (is_eligible base_decision.outcome)
    then base_decision
    else by_replacement replacement_available

-- The dispatch of `evaluate_operation` on the operation type.
evaluate_type :
    OperationType → OrderSnapshot → ℕ → CurrencyThresholds → Option Bool → OperationDecision
evaluate_type OperationType.cancellation s now thresholds replacement = evaluate_cancellation s
evaluate_type OperationType.return s now thresholds replacement =
    evaluate_return_or_exchange OperationType.return s now thresholds
evaluate_type OperationType.exchange s now thresholds replacement =
    evaluate_exchange s now thresholds replacement

-- `evaluate_operation`, from the test on conflicting operations.
unless_conflicting :
    Option ExistingOperation → OperationType → OperationDecision → OperationDecision
unless_conflicting none type decision = decision
unless_conflicting (some o) type decision = existing type o

-- `evaluate_operation`, after `_validate_request_context`.
unfoldable pub decide :
    OperationType → OrderSnapshot → ℕ → CurrencyThresholds → Option Bool → OperationDecision
unfolding evaluate_type unless_conflicting
decide type s now thresholds replacement =
    if has_contradictory_lifecycle s
    then manual type "order_state_invalid" "Order state needs manual review." CasePriority.p1
    else unless_conflicting (conflicting_operation s.existing_operations) type
        (evaluate_type type s now thresholds replacement)

-- `evaluate_operation`
unfoldable pub evaluate_operation :
    OrderOperationRequest
    → OrderSnapshot
    → Datetime
    → CurrencyThresholds
    → Option Bool
    → Result PolicyError OperationDecision
evaluate_operation request s now thresholds replacement =
    if not (str_eq request.order_id s.order_id) then err order_id_mismatch else elim now [
      | naive _ ↦ err naive_now
      | aware t ↦ ok (decide request.operation_type s t thresholds replacement)
    ]
