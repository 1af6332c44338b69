-- ===== src/Refunds/Tests.antt =====
-- The refund policy on a concrete order.
use langgraph_refund_agent.Base.{◌≤◌, ◌<◌, ◌≡◌, ◌↔◌, true, false, none, some}
use langgraph_refund_agent.Refunds.{OrderInfo, check_refund_policy}
use langgraph_refund_agent.Refunds.Window.{IsRefundable, check_refund_policy-eligible_iff}

abbrev lamp : OrderInfo
lamp = record {
  order_id = "ORD-10001";
  delivery_date = 739000;
  status = "delivered";
  refunded = false;
  amount = 2500;
}

check_refund_policy-eligible_iff_example :
    (((check_refund_policy (some lamp) 739007).eligible ≡ true) ↔ IsRefundable lamp 739007)
    × (((check_refund_policy (some lamp) 739007).requires_manual_review ≡ true)
        ↔ (IsRefundable lamp 739007 × (10000 ≤ 2500)))
    × (((check_refund_policy (some lamp) 739007).order_id ≡ some "ORD-10001")
        ↔ (IsRefundable lamp 739007 × (2500 < 10000)))
    × ((check_refund_policy none 739007).eligible ≡ false)
check_refund_policy-eligible_iff_example = check_refund_policy-eligible_iff lamp 739007
