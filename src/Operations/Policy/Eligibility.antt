-- ===== src/Operations/Policy/Eligibility.antt =====
-- When `evaluate_operation` finds an operation eligible, by conditions on the order alone.
use langgraph_refund_agent.Base.{ℕ, ◌+◌, ◌≤◌, ◌≡◌, ◌≢◌, ◌⊎◌, none, some, List, All}
use langgraph_refund_agent.Operations.Types.{
  OrderStatus, PaymentStatus, FulfillmentStatus, ExistingOperation, OperationStatus, OrderSnapshot,
}
use langgraph_refund_agent.Operations.Policy.{return_window}

-- No recorded operation but rejected ones.
abbrev pub HasNoActive : List ExistingOperation → Type 0
HasNoActive = All (λ o. o.status ≡ OperationStatus.rejected)

-- An order that may still be cancelled.
pub record IsCancellable (s : OrderSnapshot) : Type 0 where
  pub no_active : HasNoActive s.existing_operations
  pub not_fulfilled : s.fulfillment_status ≡ FulfillmentStatus.unfulfilled
  pub never_shipped : s.shipped_at ≡ none
  pub never_delivered : s.delivered_at ≡ none
  pub open_order :
      (s.order_status ≡ OrderStatus.pending_payment) ⊎ (s.order_status ≡ OrderStatus.confirmed)
  pub not_refunding : s.payment_status ≢ PaymentStatus.refund_pending
  pub not_refunded : s.payment_status ≢ PaymentStatus.refunded

-- A delivered order with consistent facts, no refund and nothing else under way, at a time within
-- seven days of its delivery, both ends included.
pub record IsWithinWindow (s : OrderSnapshot) (now : ℕ) : Type 0 where
  pub no_active : HasNoActive s.existing_operations
  pub arrived : s.fulfillment_status ≡ FulfillmentStatus.delivered
  pub was_shipped : s.shipped_at ≢ none
  pub delivery :
      (d : ℕ) × (s.delivered_at ≡ some d)
      × (s.created_at ≤ d)
      × (d ≤ now)
      × (now ≤ d + return_window)
  pub not_pending : s.order_status ≢ OrderStatus.pending_payment
  pub not_cancelled : s.order_status ≢ OrderStatus.cancelled
  pub not_refunding : s.payment_status ≢ PaymentStatus.refund_pending
  pub not_refunded : s.payment_status ≢ PaymentStatus.refunded
