-- ===== src/Cases/Reasons.antt =====
-- The tables of src/agent/cases/policy.py: what each handoff reason means, and the ranks.
use langgraph_refund_agent.Base.{ℕ, String}
use langgraph_refund_agent.Operations.Types.{CasePriority, p0, p1, p2, p3}
use langgraph_refund_agent.Cases.Types.{
  CaseType, SemanticRiskCategory, StaffComplaintSeverity, HandoffReason, safety_review,
  business_escalation, refund_review, general_support, staff_conduct_complaint, other_complaint,
  order_operation_review, delivery_investigation,
}

-- `_ReasonPolicy`
pub record ReasonPolicy : Type 0 where
  pub case_type : CaseType
  pub priority : CasePriority
  pub description : String

abbrev reason_policy_of : CaseType → CasePriority → String → ReasonPolicy
reason_policy_of case_type priority description = record {
  case_type = case_type;
  priority = priority;
  description = description;
}

-- `_REASON_POLICIES`
unfoldable pub reason_policy : HandoffReason → ReasonPolicy
reason_policy HandoffReason.hard_critical_self_harm =
    reason_policy_of safety_review p0 "A hard-critical self-harm rule matched."
reason_policy HandoffReason.hard_critical_violence =
    reason_policy_of safety_review p0 "A hard-critical violence rule matched."
reason_policy HandoffReason.hard_critical_legal =
    reason_policy_of business_escalation p1 "A hard-critical legal rule matched."
reason_policy HandoffReason.hard_critical_regulatory =
    reason_policy_of business_escalation p1 "A hard-critical regulatory rule matched."
reason_policy HandoffReason.hard_critical_reputation =
    reason_policy_of business_escalation p1 "A hard-critical reputation rule matched."
reason_policy HandoffReason.hard_critical_other =
    reason_policy_of business_escalation p1 "An uncategorized hard-critical rule matched."
reason_policy HandoffReason.semantic_critical_self_harm =
    reason_policy_of safety_review p0 "Semantic classification found critical self-harm risk."
reason_policy HandoffReason.semantic_critical_violence =
    reason_policy_of safety_review p0 "Semantic classification found critical violence risk."
reason_policy HandoffReason.semantic_critical_legal =
    reason_policy_of business_escalation p1 "Semantic classification found critical legal risk."
reason_policy HandoffReason.semantic_critical_regulatory =
    reason_policy_of business_escalation p1
      "Semantic classification found critical regulatory risk."
reason_policy HandoffReason.semantic_critical_reputation =
    reason_policy_of business_escalation p1
      "Semantic classification found critical reputation risk."
reason_policy HandoffReason.semantic_critical_other =
    reason_policy_of business_escalation p1
      "Semantic classification found an uncategorized critical risk."
reason_policy HandoffReason.semantic_high_self_harm =
    reason_policy_of safety_review p0 "Semantic classification found high self-harm risk."
reason_policy HandoffReason.semantic_high_violence =
    reason_policy_of safety_review p0 "Semantic classification found high violence risk."
reason_policy HandoffReason.semantic_high_legal =
    reason_policy_of business_escalation p1 "Semantic classification found high legal risk."
reason_policy HandoffReason.semantic_high_regulatory =
    reason_policy_of business_escalation p1 "Semantic classification found high regulatory risk."
reason_policy HandoffReason.semantic_high_reputation =
    reason_policy_of business_escalation p1 "Semantic classification found high reputation risk."
reason_policy HandoffReason.semantic_high_other =
    reason_policy_of business_escalation p1
      "Semantic classification found an uncategorized high risk."
reason_policy HandoffReason.semantic_medium_self_harm =
    reason_policy_of safety_review p2 "Semantic classification found medium self-harm risk."
reason_policy HandoffReason.semantic_medium_violence =
    reason_policy_of safety_review p2 "Semantic classification found medium violence risk."
reason_policy HandoffReason.semantic_medium_legal =
    reason_policy_of business_escalation p2 "Semantic classification found medium legal risk."
reason_policy HandoffReason.semantic_medium_regulatory =
    reason_policy_of business_escalation p2 "Semantic classification found medium regulatory risk."
reason_policy HandoffReason.semantic_medium_reputation =
    reason_policy_of business_escalation p2 "Semantic classification found medium reputation risk."
reason_policy HandoffReason.semantic_medium_other =
    reason_policy_of business_escalation p2
      "Semantic classification found an uncategorized medium risk."
reason_policy HandoffReason.refund_manual_review =
    reason_policy_of refund_review p1 "The refund requires manual review."
reason_policy HandoffReason.confirmed_human_request =
    reason_policy_of general_support p2 "The user confirmed a request for human support."
reason_policy HandoffReason.staff_conduct_critical =
    reason_policy_of staff_conduct_complaint p0 "The user reported critical staff conduct."
reason_policy HandoffReason.staff_conduct_high =
    reason_policy_of staff_conduct_complaint p1 "The user reported serious staff conduct."
reason_policy HandoffReason.staff_conduct_medium =
    reason_policy_of staff_conduct_complaint p1 "The user reported material staff misconduct."
reason_policy HandoffReason.staff_conduct_low =
    reason_policy_of staff_conduct_complaint p2 "The user reported a staff service issue."
reason_policy HandoffReason.explicit_other_complaint =
    reason_policy_of other_complaint p3 "The user explicitly made another formal complaint."
reason_policy HandoffReason.order_state_invalid =
    reason_policy_of order_operation_review p1 "The order state needs manual review."
reason_policy HandoffReason.cancellation_fulfillment_processing =
    reason_policy_of order_operation_review p1 "Cancellation needs warehouse review."
reason_policy HandoffReason.cancellation_state_invalid =
    reason_policy_of order_operation_review p1 "Cancellation state needs manual review."
reason_policy HandoffReason.operation_delivery_date_invalid =
    reason_policy_of order_operation_review p1 "Delivery timing needs manual review."
reason_policy HandoffReason.return_eligibility_unknown =
    reason_policy_of order_operation_review p1 "Return eligibility needs manual review."
reason_policy HandoffReason.exchange_eligibility_unknown =
    reason_policy_of order_operation_review p1 "Exchange eligibility needs manual review."
reason_policy HandoffReason.currency_threshold_unconfigured =
    reason_policy_of order_operation_review p1 "Currency threshold needs manual review."
reason_policy HandoffReason.return_manual_amount_review =
    reason_policy_of order_operation_review p1 "Return amount needs manual review."
reason_policy HandoffReason.exchange_inventory_unknown =
    reason_policy_of order_operation_review p2 "Replacement inventory needs manual review."
reason_policy HandoffReason.provider_delivery_failed =
    reason_policy_of order_operation_review p1 "Provider delivery failed and requires human review."
reason_policy HandoffReason.delivery_data_invalid =
    reason_policy_of delivery_investigation p1 "Delivery data needs investigation."
reason_policy HandoffReason.delivery_tracking_stalled =
    reason_policy_of delivery_investigation p1 "Tracking has stalled."
reason_policy HandoffReason.delivery_overdue_investigation =
    reason_policy_of delivery_investigation p2 "Delivery delay needs investigation."
reason_policy HandoffReason.delivery_failed =
    reason_policy_of delivery_investigation p1 "Delivery failure needs investigation."
reason_policy HandoffReason.delivery_marked_received_dispute =
    reason_policy_of delivery_investigation p1 "Marked-delivered dispute needs investigation."
reason_policy HandoffReason.delivery_damage_claim =
    reason_policy_of delivery_investigation p1 "Damage claim needs investigation."
reason_policy HandoffReason.delivery_other_issue =
    reason_policy_of delivery_investigation p2 "Delivery issue needs investigation."

-- `_CASE_TYPE_RANK`
unfoldable pub case_type_rank : CaseType → ℕ
case_type_rank safety_review = 0
case_type_rank staff_conduct_complaint = 1
case_type_rank business_escalation = 2
case_type_rank refund_review = 3
case_type_rank order_operation_review = 4
case_type_rank delivery_investigation = 5
case_type_rank general_support = 6
case_type_rank other_complaint = 7

-- `_PRIORITY_RANK`
unfoldable pub priority_rank : CasePriority → ℕ
priority_rank p0 = 0
priority_rank p1 = 1
priority_rank p2 = 2
priority_rank p3 = 3

-- `_HARD_REASON_BY_CATEGORY`
unfoldable pub hard_reason : SemanticRiskCategory → HandoffReason
hard_reason SemanticRiskCategory.self_harm = HandoffReason.hard_critical_self_harm
hard_reason SemanticRiskCategory.violence = HandoffReason.hard_critical_violence
hard_reason SemanticRiskCategory.legal = HandoffReason.hard_critical_legal
hard_reason SemanticRiskCategory.regulatory = HandoffReason.hard_critical_regulatory
hard_reason SemanticRiskCategory.reputation = HandoffReason.hard_critical_reputation
hard_reason SemanticRiskCategory.other = HandoffReason.hard_critical_other

-- `_SEMANTIC_REASON_BY_LEVEL["critical"]`
unfoldable pub critical_reason : SemanticRiskCategory → HandoffReason
critical_reason SemanticRiskCategory.self_harm = HandoffReason.semantic_critical_self_harm
critical_reason SemanticRiskCategory.violence = HandoffReason.semantic_critical_violence
critical_reason SemanticRiskCategory.legal = HandoffReason.semantic_critical_legal
critical_reason SemanticRiskCategory.regulatory = HandoffReason.semantic_critical_regulatory
critical_reason SemanticRiskCategory.reputation = HandoffReason.semantic_critical_reputation
critical_reason SemanticRiskCategory.other = HandoffReason.semantic_critical_other

-- `_SEMANTIC_REASON_BY_LEVEL["high"]`
unfoldable pub high_reason : SemanticRiskCategory → HandoffReason
high_reason SemanticRiskCategory.self_harm = HandoffReason.semantic_high_self_harm
high_reason SemanticRiskCategory.violence = HandoffReason.semantic_high_violence
high_reason SemanticRiskCategory.legal = HandoffReason.semantic_high_legal
high_reason SemanticRiskCategory.regulatory = HandoffReason.semantic_high_regulatory
high_reason SemanticRiskCategory.reputation = HandoffReason.semantic_high_reputation
high_reason SemanticRiskCategory.other = HandoffReason.semantic_high_other

-- `_SEMANTIC_REASON_BY_LEVEL["medium"]`
unfoldable pub medium_reason : SemanticRiskCategory → HandoffReason
medium_reason SemanticRiskCategory.self_harm = HandoffReason.semantic_medium_self_harm
medium_reason SemanticRiskCategory.violence = HandoffReason.semantic_medium_violence
medium_reason SemanticRiskCategory.legal = HandoffReason.semantic_medium_legal
medium_reason SemanticRiskCategory.regulatory = HandoffReason.semantic_medium_regulatory
medium_reason SemanticRiskCategory.reputation = HandoffReason.semantic_medium_reputation
medium_reason SemanticRiskCategory.other = HandoffReason.semantic_medium_other

-- `_STAFF_REASON_BY_SEVERITY`
unfoldable pub staff_reason : StaffComplaintSeverity → HandoffReason
staff_reason StaffComplaintSeverity.critical = HandoffReason.staff_conduct_critical
staff_reason StaffComplaintSeverity.high = HandoffReason.staff_conduct_high
staff_reason StaffComplaintSeverity.medium = HandoffReason.staff_conduct_medium
staff_reason StaffComplaintSeverity.low = HandoffReason.staff_conduct_low

-- The text of a `HandoffReason`, which a reason code has to be for `HandoffPolicyInput` to accept it.
unfoldable pub reason_name : HandoffReason → String
reason_name HandoffReason.hard_critical_self_harm = "hard_critical_self_harm"
reason_name HandoffReason.hard_critical_violence = "hard_critical_violence"
reason_name HandoffReason.hard_critical_legal = "hard_critical_legal"
reason_name HandoffReason.hard_critical_regulatory = "hard_critical_regulatory"
reason_name HandoffReason.hard_critical_reputation = "hard_critical_reputation"
reason_name HandoffReason.hard_critical_other = "hard_critical_other"
reason_name HandoffReason.semantic_critical_self_harm = "semantic_critical_self_harm"
reason_name HandoffReason.semantic_critical_violence = "semantic_critical_violence"
reason_name HandoffReason.semantic_critical_legal = "semantic_critical_legal"
reason_name HandoffReason.semantic_critical_regulatory = "semantic_critical_regulatory"
reason_name HandoffReason.semantic_critical_reputation = "semantic_critical_reputation"
reason_name HandoffReason.semantic_critical_other = "semantic_critical_other"
reason_name HandoffReason.semantic_high_self_harm = "semantic_high_self_harm"
reason_name HandoffReason.semantic_high_violence = "semantic_high_violence"
reason_name HandoffReason.semantic_high_legal = "semantic_high_legal"
reason_name HandoffReason.semantic_high_regulatory = "semantic_high_regulatory"
reason_name HandoffReason.semantic_high_reputation = "semantic_high_reputation"
reason_name HandoffReason.semantic_high_other = "semantic_high_other"
reason_name HandoffReason.semantic_medium_self_harm = "semantic_medium_self_harm"
reason_name HandoffReason.semantic_medium_violence = "semantic_medium_violence"
reason_name HandoffReason.semantic_medium_legal = "semantic_medium_legal"
reason_name HandoffReason.semantic_medium_regulatory = "semantic_medium_regulatory"
reason_name HandoffReason.semantic_medium_reputation = "semantic_medium_reputation"
reason_name HandoffReason.semantic_medium_other = "semantic_medium_other"
reason_name HandoffReason.refund_manual_review = "refund_manual_review"
reason_name HandoffReason.confirmed_human_request = "confirmed_human_request"
reason_name HandoffReason.staff_conduct_critical = "staff_conduct_critical"
reason_name HandoffReason.staff_conduct_high = "staff_conduct_high"
reason_name HandoffReason.staff_conduct_medium = "staff_conduct_medium"
reason_name HandoffReason.staff_conduct_low = "staff_conduct_low"
reason_name HandoffReason.explicit_other_complaint = "explicit_other_complaint"
reason_name HandoffReason.order_state_invalid = "order_state_invalid"
reason_name HandoffReason.cancellation_fulfillment_processing =
    "cancellation_fulfillment_processing"
reason_name HandoffReason.cancellation_state_invalid = "cancellation_state_invalid"
reason_name HandoffReason.operation_delivery_date_invalid = "operation_delivery_date_invalid"
reason_name HandoffReason.return_eligibility_unknown = "return_eligibility_unknown"
reason_name HandoffReason.exchange_eligibility_unknown = "exchange_eligibility_unknown"
reason_name HandoffReason.currency_threshold_unconfigured = "currency_threshold_unconfigured"
reason_name HandoffReason.return_manual_amount_review = "return_manual_amount_review"
reason_name HandoffReason.exchange_inventory_unknown = "exchange_inventory_unknown"
reason_name HandoffReason.delivery_data_invalid = "delivery_data_invalid"
reason_name HandoffReason.delivery_tracking_stalled = "delivery_tracking_stalled"
reason_name HandoffReason.delivery_overdue_investigation = "delivery_overdue_investigation"
reason_name HandoffReason.delivery_failed = "delivery_failed"
reason_name HandoffReason.delivery_marked_received_dispute = "delivery_marked_received_dispute"
reason_name HandoffReason.delivery_damage_claim = "delivery_damage_claim"
reason_name HandoffReason.delivery_other_issue = "delivery_other_issue"
reason_name HandoffReason.provider_delivery_failed = "provider_delivery_failed"
