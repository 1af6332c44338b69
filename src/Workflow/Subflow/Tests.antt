-- ===== src/Workflow/Subflow/Tests.antt =====
-- The subflow on a concrete turn.
use langgraph_refund_agent.Base.{
  ◌≡◌, refl, true, false, Option, none, some, [], ◌∷◌, Result, ok, err,
}
use langgraph_refund_agent.Base.Actions.{raise, raise_when, lift, ◌>>=◌}
use langgraph_refund_agent.Operations.Types.{
  OrderStatus, PaymentStatus, FulfillmentStatus, OperationType, OperationReason, OrderSnapshot,
  OperationOutcome,
}
use langgraph_refund_agent.Operations.Policy.{decide, evaluate_cancellation}
use langgraph_refund_agent.Operations.Decisions.{has_contradictory_lifecycle, conflicting_operation}
use langgraph_refund_agent.Operations.Lifecycle.{OperationRecordStatus}
use langgraph_refund_agent.Operations.Record.{OperationServiceAction, operation_valid}
use langgraph_refund_agent.Operations.Repository.Tables.{
  OperationError, persistence_error, find_row, value_error,
}
use langgraph_refund_agent.Operations.Service.World.{World}
use langgraph_refund_agent.Operations.Service.Samples.{
  alone_env, customer_scope, pending, reviewed, holding,
}
use langgraph_refund_agent.Workflow.Subflow.State.{
  SubflowState, SubflowAnswers, OperationRequestExtraction, yes_submit, no_cancel, decided,
  of_operation,
}
use langgraph_refund_agent.Workflow.Subflow.Nodes.{evaluate_operation_request}
use langgraph_refund_agent.Workflow.Subflow.Confirmation.{
  operation_subflow, confirm_and_act, needs_confirmation,
}
use langgraph_refund_agent.Workflow.Subflow.Graph.{no_command_without_yes}
use langgraph_refund_agent.Workflow.Subflow.Offers.{IsOffered, asks_only-IsOffered}
use langgraph_refund_agent.Workflow.Subflow.Mismatch.{mismatched_confirmation_raises}

abbrev open_order : OrderSnapshot
open_order = record {
  order_id = "ORD-10001";
  version = 1;
  amount = 2500;
  currency = "USD";
  order_status = OrderStatus.confirmed;
  payment_status = PaymentStatus.paid;
  fulfillment_status = FulfillmentStatus.unfulfilled;
  created_at = 100;
  shipped_at = none;
  delivered_at = none;
  promised_delivery_at = none;
  last_tracking_event_at = none;
  return_eligible = none;
  exchange_eligible = none;
  existing_operations = [];
  customer_id = none;
  tenant_id = none;
}

abbrev new_turn : SubflowState
new_turn = record {
  order_id = none;
  last_order_id = none;
  order_id_valid = false;
  snapshot = none;
  lookup_success = false;
  extraction = none;
  outcome = none;
  policy_reason_codes = [];
  display_reason = "";
  domain_case_reason_codes = [];
  operation_id = none;
  operation_status = none;
  service_action = none;
  provider_reference = none;
  provider_failure_case_persisted = false;
}

abbrev cancellation : OperationRequestExtraction
cancellation = record {
  operation_type = some OperationType.cancellation;
  reason = some OperationReason.no_longer_needed;
  delivery_issue_type = none;
  replacement_variant_id = none;
  investigation_requested = false;
  ambiguous = false;
}

abbrev cancel_order_turn : SubflowAnswers
cancel_order_turn = record {
  detection = some (record { has_order_id = true; order_id = some "ORD-10001" });
  references_previous = false;
  order_for_customer = λ id customer tenant. some open_order;
  extraction = some cancellation;
  metadata = some (record { thread_id = "t2"; message_id = "m2"; excerpt = "Cancel it." });
  now = 200;
  replacement_availability = none;
  confirmation = yes_submit;
  connection_id = some "c";
  fallback = λ id request_id. raise persistence_error;
}

abbrev declined_turn : SubflowAnswers
declined_turn = record cancel_order_turn { confirmation = no_cancel }

-- The state with which the subflow comes to the confirmation of an earlier operation under review.
abbrev mismatched : SubflowState
mismatched = record new_turn {
  operation_id = some "op-1";
  operation_status = some (of_operation OperationRecordStatus.pending_confirmation);
  outcome = some (decided OperationOutcome.eligible);
}

abbrev declining : Result OperationError SubflowState × World
declining =
    operation_subflow alone_env customer_scope declined_turn (λ s. true) new_turn (holding pending)

no_command_without_yes_example : declining.1.database.commands ≡ []
no_command_without_yes_example =
    no_command_without_yes alone_env customer_scope declined_turn (λ s. true) new_turn
      (holding pending) (λ n d. refl) (λ e. cc (e))

mismatched_confirmation_raises_example :
    (e : OperationError) × ((confirm_and_act alone_env customer_scope cancel_order_turn mismatched
        (holding reviewed)).0
      ≡ err e)
unfolding find_row
mismatched_confirmation_raises_example =
    mismatched_confirmation_raises alone_env customer_scope cancel_order_turn mismatched
      (holding reviewed) "op-1" "c" (λ n d h. h) (reviewed, (refl, refl)) refl refl refl refl

-- What a run returned, or its error, without the world.
abbrev failed : Result OperationError SubflowState × World → Option OperationError
failed (ok s, w) = none
failed (err e, w) = some e

-- A new cancellation that is eligible meets an operation on the same order that awaits its confirmation
-- and needs a review: the customer's yes makes the turn fail.
mismatch_fails :
    failed (
      operation_subflow alone_env customer_scope cancel_order_turn
        (λ s. true)
        new_turn
        (holding reviewed))
    ≡ some (value_error "manual-review operations must not enter the provider outbox")
unfolding operation_subflow ◌>>=◌ raise_when lift decide has_contradictory_lifecycle
    conflicting_operation evaluate_cancellation operation_valid
mismatch_fails = refl

abbrev loaded_turn : SubflowState
loaded_turn = record new_turn {
  order_id = some "ORD-10001";
  snapshot = some open_order;
  lookup_success = true;
  extraction = some cancellation;
}

abbrev evaluated_turn : SubflowState
evaluated_turn = record loaded_turn {
  outcome = some (decided OperationOutcome.eligible);
  policy_reason_codes = "cancellation_eligible" ∷ [];
  display_reason = "This order can be cancelled.";
  operation_id = some "op-1";
  operation_status = some (of_operation OperationRecordStatus.pending_confirmation);
  service_action = some OperationServiceAction.duplicate_ignored;
}

asks_only-IsOffered_example :
    IsOffered alone_env customer_scope cancel_order_turn loaded_turn evaluated_turn
unfolding evaluate_operation_request needs_confirmation ◌>>=◌ raise_when lift decide
    has_contradictory_lifecycle conflicting_operation evaluate_cancellation operation_valid
asks_only-IsOffered_example =
    asks_only-IsOffered alone_env customer_scope cancel_order_turn loaded_turn evaluated_turn
      (holding reviewed) refl refl refl refl
