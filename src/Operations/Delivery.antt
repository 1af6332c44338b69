-- ===== src/Operations/Delivery.antt =====
-- `evaluate_delivery_issue` of src/agent/operations/policy.py and what it calls.
pub mod Assessment
use langgraph_refund_agent.Base.{
  ℕ, ◌-◌, ◌*◌, str_eq, Bool, true, false, not, ◌||◌, Option, none, some, [], ◌∷◌, Result, ok, err,
  ltb, leb, is_none, if◌then◌else◌,
}
use langgraph_refund_agent.Operations.Types.{
  FulfillmentStatus, DeliveryIssueType, DeliveryOutcome, CasePriority, OrderSnapshot,
  DeliveryIssueRequest, DeliveryDecision, Datetime, naive, aware,
}
use langgraph_refund_agent.Operations.Decisions.{
  PolicyError, order_id_mismatch, naive_now, is_delivered, has_contradictory_lifecycle,
  delivery_manual, delivery_self_service,
}

-- `timedelta(hours=TRACKING_STALLED_HOURS)` in microseconds.
abbrev pub tracking_stalled_after : ℕ
tracking_stalled_after = 72 * 3600000000

abbrev is_shipped : FulfillmentStatus → Bool
is_shipped FulfillmentStatus.shipped = true
is_shipped _ = false

tracking_data_invalid : DeliveryDecision
tracking_data_invalid =
    delivery_manual DeliveryIssueType.tracking_stalled "delivery_data_invalid"
      "Tracking data needs investigation." CasePriority.p1

-- `_evaluate_tracking_stalled`, on the last tracking event.
tracking_stalled_since : Option ℕ → ℕ → DeliveryDecision
unfolding tracking_data_invalid
tracking_stalled_since none now = tracking_data_invalid
tracking_stalled_since (some event_at) now =
    if ltb now event_at
    then tracking_data_invalid
    else if leb tracking_stalled_after (now - event_at)
    then delivery_manual DeliveryIssueType.tracking_stalled "delivery_tracking_stalled"
        "Tracking has not updated for 72 hours." CasePriority.p1
    else delivery_self_service DeliveryIssueType.tracking_stalled "delivery_tracking_recent"
        "Tracking is still updating."

-- `_evaluate_tracking_stalled`
evaluate_tracking_stalled : OrderSnapshot → ℕ → DeliveryDecision
unfolding tracking_stalled_since
evaluate_tracking_stalled s now =
    if not (is_shipped s.fulfillment_status)
    then tracking_data_invalid
    else tracking_stalled_since s.last_tracking_event_at now

-- `_evaluate_delayed`, on the promised date.
delayed_since : Option ℕ → OrderSnapshot → ℕ → Bool → DeliveryDecision
delayed_since none s now investigation_requested =
    delivery_manual DeliveryIssueType.delayed "delivery_data_invalid"
      "Delivery timing needs investigation." CasePriority.p1
delayed_since (some promised_at) s now investigation_requested =
    if is_delivered s.fulfillment_status || leb now promised_at
    then delivery_self_service DeliveryIssueType.delayed "delivery_not_overdue"
        "The order is not confirmed as overdue."
    else if investigation_requested || is_none s.last_tracking_event_at
    then delivery_manual DeliveryIssueType.delayed "delivery_overdue_investigation"
        "The delayed delivery needs investigation." CasePriority.p2
    else delivery_self_service DeliveryIssueType.delayed "delivery_overdue"
        "The order is delayed; current tracking is available."

-- `_evaluate_delayed`
evaluate_delayed : OrderSnapshot → ℕ → Bool → DeliveryDecision
unfolding delayed_since
evaluate_delayed s now investigation_requested =
    delayed_since s.promised_delivery_at s now investigation_requested

-- The dispatch of `evaluate_delivery_issue` on the issue type.
by_issue_type : DeliveryIssueType → OrderSnapshot → ℕ → Bool → DeliveryDecision
unfolding evaluate_tracking_stalled evaluate_delayed
by_issue_type DeliveryIssueType.tracking_stalled s now asked = evaluate_tracking_stalled s now
by_issue_type DeliveryIssueType.delayed s now asked = evaluate_delayed s now asked
by_issue_type DeliveryIssueType.delivery_failed s now asked =
    delivery_manual DeliveryIssueType.delivery_failed "delivery_failed"
      "Delivery needs a redelivery or address review." CasePriority.p2
by_issue_type DeliveryIssueType.marked_delivered_not_received s now asked =
    delivery_manual DeliveryIssueType.marked_delivered_not_received
      "delivery_marked_received_dispute" "Your delivery report needs investigation." CasePriority.p1
by_issue_type DeliveryIssueType.package_damaged s now asked =
    delivery_manual DeliveryIssueType.package_damaged "delivery_damage_claim"
      "Your damage report needs review." CasePriority.p1
by_issue_type DeliveryIssueType.wrong_item_or_missing_parts s now asked = record {
  outcome = DeliveryOutcome.offer_return_exchange;
  issue_type = DeliveryIssueType.wrong_item_or_missing_parts;
  reason_codes = "delivery_wrong_item_or_missing_parts_claim" ∷ [];
  display_reason = "We can evaluate a return or exchange request.";
  case_recommendation = none;
}
by_issue_type DeliveryIssueType.other_delivery_issue s now asked =
    delivery_manual DeliveryIssueType.other_delivery_issue "delivery_other_issue"
      "Your delivery report needs review." CasePriority.p2

-- `evaluate_delivery_issue`, after its checks on the request.
unfoldable pub assess : DeliveryIssueType → OrderSnapshot → ℕ → Bool → DeliveryDecision
unfolding by_issue_type
assess issue_type s now asked =
    if has_contradictory_lifecycle s
    then delivery_manual issue_type "delivery_data_invalid" "Delivery data needs investigation."
        CasePriority.p1
    else by_issue_type issue_type s now asked

-- `evaluate_delivery_issue`
unfoldable pub evaluate_delivery_issue :
    DeliveryIssueRequest → OrderSnapshot → Datetime → Result PolicyError DeliveryDecision
evaluate_delivery_issue request s now =
    if not (str_eq request.order_id s.order_id) then err order_id_mismatch else elim now [
      | naive _ ↦ err naive_now
      | aware t ↦ ok (assess request.issue_type s t request.investigation_requested)
    ]
