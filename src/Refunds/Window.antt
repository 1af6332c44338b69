-- ===== src/Refunds/Window.antt =====
-- When a refund is automatic, and when it needs a manual review.
use langgraph_refund_agent.Base.{
  ℕ, ◌+◌, ◌≤◌, ◌<◌, ◌≡◌, ◌↔◌, true, false, Option, none, some, eq_iff, arith,
}
use langgraph_refund_agent.Refunds.{OrderInfo, check_order, check_refund_policy}

-- A valid order that was delivered, not refunded, at most seven days ago.
pub record IsRefundable (order : OrderInfo) (today : ℕ) : Type 0 where
  pub arrived : order.status ≡ "delivered"
  pub not_refunded : order.refunded ≡ false
  pub in_the_past : order.delivery_date ≤ today
  pub within_deadline : today ≤ order.delivery_date + 7

-- A refund of a valid order is eligible exactly within seven days of the delivery of a delivered
-- order that is not refunded yet; it then needs a manual review exactly from one hundred on, and the
-- result names the order exactly when it needs none. Without a valid order nothing is eligible.
pub check_refund_policy-eligible_iff :
    (order : OrderInfo) (today : ℕ)
    → (((check_refund_policy (some order) today).eligible ≡ true) ↔ IsRefundable order today)
      × (((check_refund_policy (some order) today).requires_manual_review ≡ true)
          ↔ (IsRefundable order today × (10000 ≤ order.amount)))
      × (((check_refund_policy (some order) today).order_id ≡ some order.order_id)
          ↔ (IsRefundable order today × (order.amount < 10000)))
      × ((check_refund_policy none today).eligible ≡ false)
unfolding check_refund_policy check_order
check_refund_policy-eligible_iff order today = ground (arith, eq_iff order.status "delivered")

-- The refund of a valid order that is made without a manual review.
abbrev pub IsAutomatic : Option OrderInfo → ℕ → Type 0
IsAutomatic none today = ⊥
IsAutomatic (some order) today = IsRefundable order today × (order.amount < 10000)

pub eligible-IsAutomatic :
    (order : Option OrderInfo) (today : ℕ)
    → (check_refund_policy order today).eligible ≡ true
    → (check_refund_policy order today).requires_manual_review ≡ false
    → IsAutomatic order today
unfolding check_refund_policy
eligible-IsAutomatic none today e m = ground arith
eligible-IsAutomatic (some order) today e m =
    ground (arith, check_refund_policy-eligible_iff order today)
