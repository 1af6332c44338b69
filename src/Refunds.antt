-- ===== src/Refunds.antt =====
-- The refund policy tool (src/agent/tools/check_refund_policy.py). A date is its day number, the amount
-- is its cents, and an order that fails the validation of `OrderInfo` is none.
pub mod Window
mod Tests
use langgraph_refund_agent.Base.{
  ℕ, ◌+◌, String, str_eq, Bool, true, false, not, Option, none, some, ltb, leb, if◌then◌else◌,
}

-- `OrderInfo`
pub record OrderInfo : Type 0 where
  pub order_id : String
  pub delivery_date : ℕ
  pub status : String
  pub refunded : Bool
  pub amount : ℕ

-- The dictionary that `_result` builds; a missing `order_id` is none.
pub record RefundResult : Type 0 where
  pub eligible : Bool
  pub reason : String
  pub requires_manual_review : Bool
  pub order_id : Option String

-- `_result(eligible=False, ...)`
abbrev pub not_eligible : String → RefundResult
not_eligible reason = record {
  eligible = false;
  reason = reason;
  requires_manual_review = false;
  order_id = none;
}

-- `check_refund_policy`, on a valid order.
unfoldable pub check_order : OrderInfo → ℕ → RefundResult
check_order order today =
    if ltb today order.delivery_date
    then not_eligible "The delivery date is invalid."
    else if ltb (order.delivery_date + 7) today
    then not_eligible "This order is past the refund deadline."
    else if not (str_eq order.status "delivered")
    then not_eligible "This order is not in a refundable status."
    else if order.refunded
    then not_eligible "This order has already been refunded."
    else if leb 10000 order.amount
    then record {
      eligible = true;
      reason =
          "This order is eligible for a refund, but the amount exceeds the automatic processing limit.";
      requires_manual_review = true;
      order_id = none;
    }
    else record {
      eligible = true;
      reason = "The order is eligible for a refund.";
      requires_manual_review = false;
      order_id = some order.order_id;
    }

-- `check_refund_policy`
unfoldable pub check_refund_policy : Option OrderInfo → ℕ → RefundResult
check_refund_policy none today = not_eligible "The order data is incomplete or invalid."
check_refund_policy (some order) today = check_order order today
