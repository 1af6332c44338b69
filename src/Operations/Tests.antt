-- ===== src/Operations/Tests.antt =====
-- The operation and delivery policies on concrete orders.
use langgraph_refund_agent.Base.{◌+◌, ◌≤◌, ◌<◌, ◌≡◌, ◌↔◌, ℕ, ◌∷◌, [], refl, true, false, none, some}
use langgraph_refund_agent.Operations.Types.{
  OrderStatus, PaymentStatus, FulfillmentStatus, OperationType, OrderSnapshot, DeliveryIssueType,
  DeliveryOutcome, decision_valid, delivery_decision_valid,
}
use langgraph_refund_agent.Operations.Decisions.{has_contradictory_lifecycle}
use langgraph_refund_agent.Operations.Policy.{CurrencyThresholds, decide}
use langgraph_refund_agent.Operations.Policy.Shape.{
  IsBacked, decide-decision_valid, decide-IsBacked,
}
use langgraph_refund_agent.Operations.Delivery.{assess, tracking_stalled_after}
use langgraph_refund_agent.Operations.Delivery.Assessment.{
  IsFiled, assess-IsFiled, tracking_stalled_iff,
}
use langgraph_refund_agent.Operations.Lifecycle.{
  transition_allowed, pending_confirmation, queued, cancelled_by_customer, submitted,
}
use langgraph_refund_agent.Operations.Lifecycle.Reachability.{
  Moves, by_table, to_review, redriven, changes, redrives, lifecycle_bounded, Reaches, here, next,
}

abbrev delivered_order : OrderSnapshot
delivered_order = record {
  order_id = "ORD-10001";
  version = 1;
  amount = 2500;
  currency = "USD";
  order_status = OrderStatus.completed;
  payment_status = PaymentStatus.paid;
  fulfillment_status = FulfillmentStatus.delivered;
  created_at = 100;
  shipped_at = some 200;
  delivered_at = some 300;
  promised_delivery_at = some 400;
  last_tracking_event_at = some 300;
  return_eligible = some true;
  exchange_eligible = none;
  existing_operations = [];
  customer_id = none;
  tenant_id = none;
}

abbrev shipped_order : OrderSnapshot
shipped_order = record delivered_order {
  fulfillment_status = FulfillmentStatus.shipped;
  delivered_at = none;
}

abbrev dollars : CurrencyThresholds
dollars = ("USD", 10000) ∷ []

decide-decision_valid_example :
    decision_valid (decide OperationType.return delivered_order 400 dollars none) ≡ true
decide-decision_valid_example =
    decide-decision_valid OperationType.return delivered_order 400 dollars none

decide-IsBacked_example :
    IsBacked (decide OperationType.exchange delivered_order 400 dollars none).case_recommendation
decide-IsBacked_example = decide-IsBacked OperationType.exchange delivered_order 400 dollars none

assess-IsFiled_example :
    (delivery_decision_valid (assess DeliveryIssueType.delivery_failed shipped_order 400 true)
      ≡ true)
    × IsFiled (assess DeliveryIssueType.delivery_failed shipped_order 400 true).case_recommendation
assess-IsFiled_example = assess-IsFiled DeliveryIssueType.delivery_failed shipped_order 400 true

shipped_order_consistent : has_contradictory_lifecycle shipped_order ≡ false
unfolding has_contradictory_lifecycle
shipped_order_consistent = refl

tracking_stalled_iff_example :
    ((assess DeliveryIssueType.tracking_stalled shipped_order 400 false).outcome
      ≡ DeliveryOutcome.self_service)
    ↔ ((shipped_order.fulfillment_status ≡ FulfillmentStatus.shipped)
        × ((t : ℕ) × (shipped_order.last_tracking_event_at ≡ some t)
            × (t ≤ 400)
            × (400 < t + tracking_stalled_after)))
tracking_stalled_iff_example = tracking_stalled_iff shipped_order 400 false shipped_order_consistent

queued_change : Reaches pending_confirmation queued
unfolding transition_allowed
queued_change = next here refl

cancelled_change : Reaches pending_confirmation cancelled_by_customer
unfolding transition_allowed
cancelled_change = next here refl

-- An operation is queued, fails, is redriven and submitted.
abbrev redriven_once : Moves pending_confirmation false submitted false
unfolding transition_allowed
redriven_once =
    by_table {u = submitted} (redriven (to_review (by_table {u = queued} Moves.here refl) refl))
      refl

lifecycle_bounded_example : changes redriven_once ≤ 4 + redrives redriven_once
lifecycle_bounded_example = lifecycle_bounded redriven_once
