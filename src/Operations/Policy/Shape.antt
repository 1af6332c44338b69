-- ===== src/Operations/Policy/Shape.antt =====
-- The shape of the decisions of `evaluate_operation`, and what they recommend to the handoff policy.
use langgraph_refund_agent.Base.{
  ℕ, ◌+◌, ◌≡◌, refl, Bool, true, false, not, Option, none, some, [], ◌∷◌, ltb, leb, if_intro,
}
use langgraph_refund_agent.Cases.Types.{CaseType, HandoffReason}
use langgraph_refund_agent.Cases.Reasons.{reason_policy, reason_name}
use langgraph_refund_agent.Operations.Types.{
  OrderStatus, OperationType, ExistingOperation, OrderSnapshot, OperationDecision, decision_valid,
  CaseRecommendation, RecommendedCaseType, CasePriority,
}
use langgraph_refund_agent.Operations.Decisions.{
  is_delivered, is_shipped_or_delivered, has_contradictory_lifecycle, conflicting_operation, manual,
}
use langgraph_refund_agent.Operations.Policy.{
  CurrencyThresholds, threshold_for, is_refund_started, is_processing, return_window, is_eligible,
  cancellation_by_order_status, cancellation_of_open_order, cancellation_of, by_threshold,
  by_eligibility, eligibility, by_delivery_date, by_replacement, evaluate_type, unless_conflicting,
  evaluate_cancellation, evaluate_return_or_exchange, evaluate_exchange, decide,
}

-- A recommendation that the tables of the handoff policy back: its one reason code is that of a
-- handoff reason with its case type and its priority.
abbrev pub IsBacked : Option CaseRecommendation → Type 0
IsBacked none = Unit
IsBacked (some c) =
    (r : HandoffReason) × (c.reason_codes ≡ reason_name r ∷ [])
    × (c.case_type ≡ RecommendedCaseType.order_operation_review)
    × ((reason_policy r).case_type ≡ CaseType.order_operation_review)
    × ((reason_policy r).priority ≡ c.priority)

abbrev IsSound : OperationDecision → Type 0
IsSound d = (decision_valid d ≡ true) × IsBacked d.case_recommendation

cancellation_by_order_status-IsSound :
    (status : OrderStatus) → IsSound (cancellation_by_order_status status)
unfolding decision_valid reason_name reason_policy cancellation_by_order_status
cancellation_by_order_status-IsSound OrderStatus.pending_payment = (refl, tt)
cancellation_by_order_status-IsSound OrderStatus.confirmed = (refl, tt)
cancellation_by_order_status-IsSound _ =
    (refl, (HandoffReason.cancellation_state_invalid, refl, refl, refl, refl))

cancellation_of_open_order-IsSound : (s : OrderSnapshot) → IsSound (cancellation_of_open_order s)
unfolding decision_valid reason_name reason_policy cancellation_of_open_order
cancellation_of_open_order-IsSound s =
    if_intro IsSound (is_refund_started s.payment_status) (refl, tt)
      (if_intro IsSound (is_shipped_or_delivered s.fulfillment_status) (refl, tt)
        (if_intro IsSound (is_processing s.fulfillment_status)
          (refl, (HandoffReason.cancellation_fulfillment_processing, refl, refl, refl, refl))
          (cancellation_by_order_status-IsSound s.order_status)))

cancellation_of-IsSound :
    (status : OrderStatus) (s : OrderSnapshot) → IsSound (cancellation_of status s)
unfolding decision_valid reason_name reason_policy cancellation_of
cancellation_of-IsSound OrderStatus.cancelled s = (refl, tt)
cancellation_of-IsSound _ s = cancellation_of_open_order-IsSound s

by_threshold-IsSound :
    (type : OperationType) (amount : ℕ) (threshold : Option ℕ)
    → IsSound (by_threshold type amount threshold)
unfolding decision_valid reason_name reason_policy by_threshold
by_threshold-IsSound OperationType.return amount none =
    (refl, (HandoffReason.currency_threshold_unconfigured, refl, refl, refl, refl))
by_threshold-IsSound OperationType.return amount (some t) =
    if_intro IsSound (leb t amount)
      (refl, (HandoffReason.return_manual_amount_review, refl, refl, refl, refl)) (refl, tt)
by_threshold-IsSound OperationType.cancellation amount none =
    (refl, (HandoffReason.currency_threshold_unconfigured, refl, refl, refl, refl))
by_threshold-IsSound OperationType.cancellation amount (some t) = (refl, tt)
by_threshold-IsSound OperationType.exchange amount none =
    (refl, (HandoffReason.currency_threshold_unconfigured, refl, refl, refl, refl))
by_threshold-IsSound OperationType.exchange amount (some t) = (refl, tt)

-- `_evaluate_return_or_exchange` is called for a return and for an exchange.
abbrev IsReturnOrExchange : OperationType → Type 0
IsReturnOrExchange OperationType.cancellation = ⊥
IsReturnOrExchange _ = Unit

by_eligibility-IsSound :
    (type : OperationType) (s : OrderSnapshot) (thresholds : CurrencyThresholds) (e : Option Bool)
    → IsReturnOrExchange type
    → IsSound (by_eligibility type s thresholds e)
unfolding decision_valid reason_name reason_policy by_eligibility
by_eligibility-IsSound type s thresholds (some true) h =
    by_threshold-IsSound type s.amount (threshold_for thresholds s.currency)
by_eligibility-IsSound OperationType.return s thresholds (some false) h = (refl, tt)
by_eligibility-IsSound OperationType.return s thresholds none h =
    (refl, (HandoffReason.return_eligibility_unknown, refl, refl, refl, refl))
by_eligibility-IsSound OperationType.exchange s thresholds (some false) h = (refl, tt)
by_eligibility-IsSound OperationType.exchange s thresholds none h =
    (refl, (HandoffReason.exchange_eligibility_unknown, refl, refl, refl, refl))
by_eligibility-IsSound OperationType.cancellation s thresholds _ h = absurd h

delivery_date_invalid : OperationType → OperationDecision
delivery_date_invalid type =
    manual type "operation_delivery_date_invalid" "Delivery timing needs manual review."
      CasePriority.p1

delivery_date_invalid-IsSound : (type : OperationType) → IsSound (delivery_date_invalid type)
unfolding decision_valid reason_name reason_policy delivery_date_invalid
delivery_date_invalid-IsSound type =
    (refl, (HandoffReason.operation_delivery_date_invalid, refl, refl, refl, refl))

by_delivery_date-IsSound :
    (type : OperationType) (s : OrderSnapshot) (now : ℕ) (thresholds : CurrencyThresholds)
    (delivered_at : Option ℕ)
    → IsReturnOrExchange type
    → IsSound (by_delivery_date type s now thresholds delivered_at)
unfolding decision_valid by_delivery_date delivery_date_invalid
by_delivery_date-IsSound type s now thresholds none h = delivery_date_invalid-IsSound type
by_delivery_date-IsSound type s now thresholds (some d) h =
    if_intro IsSound (ltb now d) (delivery_date_invalid-IsSound type) (
      if_intro IsSound (ltb (d + return_window) now) (refl, tt)
        (by_eligibility-IsSound type s thresholds (eligibility type s) h))

evaluate_return_or_exchange-IsSound :
    (type : OperationType) (s : OrderSnapshot) (now : ℕ) (thresholds : CurrencyThresholds)
    → IsReturnOrExchange type
    → IsSound (evaluate_return_or_exchange type s now thresholds)
unfolding decision_valid evaluate_return_or_exchange
evaluate_return_or_exchange-IsSound type s now thresholds h =
    if_intro IsSound (is_refund_started s.payment_status) (refl, tt)
      (if_intro IsSound (not (is_delivered s.fulfillment_status)) (refl, tt)
        (by_delivery_date-IsSound type s now thresholds s.delivered_at h))

by_replacement-IsSound : (available : Option Bool) → IsSound (by_replacement available)
unfolding decision_valid reason_name reason_policy by_replacement
by_replacement-IsSound (some true) = (refl, tt)
by_replacement-IsSound (some false) = (refl, tt)
by_replacement-IsSound none =
    (refl, (HandoffReason.exchange_inventory_unknown, refl, refl, refl, refl))

evaluate_exchange-IsSound :
    (s : OrderSnapshot) (now : ℕ) (thresholds : CurrencyThresholds) (available : Option Bool)
    → IsSound (evaluate_exchange s now thresholds available)
unfolding evaluate_exchange
evaluate_exchange-IsSound s now thresholds available =
    if_intro IsSound
      (not
        (is_eligible (evaluate_return_or_exchange OperationType.exchange s now thresholds).outcome))
      (evaluate_return_or_exchange-IsSound OperationType.exchange s now thresholds tt)
      (by_replacement-IsSound available)

evaluate_type-IsSound :
    (type : OperationType) (s : OrderSnapshot) (now : ℕ) (thresholds : CurrencyThresholds)
    (available : Option Bool)
    → IsSound (evaluate_type type s now thresholds available)
unfolding evaluate_type evaluate_cancellation
evaluate_type-IsSound OperationType.cancellation s now thresholds available =
    cancellation_of-IsSound s.order_status s
evaluate_type-IsSound OperationType.return s now thresholds available =
    evaluate_return_or_exchange-IsSound OperationType.return s now thresholds tt
evaluate_type-IsSound OperationType.exchange s now thresholds available =
    evaluate_exchange-IsSound s now thresholds available

unless_conflicting-IsSound :
    (o : Option ExistingOperation) (type : OperationType) (d : OperationDecision)
    → IsSound d
    → IsSound (unless_conflicting o type d)
unfolding decision_valid reason_name reason_policy unless_conflicting
unless_conflicting-IsSound none type d h = h
unless_conflicting-IsSound (some o) type d h = (refl, tt)

decide-IsSound :
    (type : OperationType) (s : OrderSnapshot) (now : ℕ) (thresholds : CurrencyThresholds)
    (available : Option Bool)
    → IsSound (decide type s now thresholds available)
unfolding decision_valid reason_name reason_policy decide
decide-IsSound type s now thresholds available =
    if_intro IsSound (has_contradictory_lifecycle s)
      (refl, (HandoffReason.order_state_invalid, refl, refl, refl, refl))
      (unless_conflicting-IsSound (conflicting_operation s.existing_operations) type _
        (evaluate_type-IsSound type s now thresholds available))

-- Whatever the request, the snapshot, the time, the thresholds and the availability of a
-- replacement, the decision satisfies the validator of `OperationDecision`: an existing operation is
-- carried exactly by the outcome that names it, a case recommendation exactly by a manual review, and
-- a confirmation is required exactly of an eligible or a manually reviewed operation.
pub decide-decision_valid :
    (type : OperationType) (s : OrderSnapshot) (now : ℕ) (thresholds : CurrencyThresholds)
    (available : Option Bool)
    → decision_valid (decide type s now thresholds available) ≡ true
decide-decision_valid type s now thresholds available =
    (decide-IsSound type s now thresholds available).0

-- Whenever the policy recommends a case, the one reason code that it gives is a reason that the
-- handoff policy knows, and the table of that policy files this reason as an order-operation review
-- of exactly the recommended priority.
pub decide-IsBacked :
    (type : OperationType) (s : OrderSnapshot) (now : ℕ) (thresholds : CurrencyThresholds)
    (available : Option Bool)
    → IsBacked (decide type s now thresholds available).case_recommendation
decide-IsBacked type s now thresholds available = (decide-IsSound type s now thresholds available).1
