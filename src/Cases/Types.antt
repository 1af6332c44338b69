-- ===== src/Cases/Types.antt =====
-- The domain models of src/agent/cases/models.py and the risk vocabulary of src/agent/schemas.py. A
-- `Literal` type is an enumeration.
use langgraph_refund_agent.Base.{
  String, str_eq, Bool, true, false, not, ◌&&◌, Option, none, some, List, is_none, is_some,
  is_empty, if◌then◌else◌,
}
use langgraph_refund_agent.Operations.Types.{CasePriority}

pub data CaseType : Type 0 where
  safety_review business_escalation refund_review general_support : CaseType
  staff_conduct_complaint other_complaint order_operation_review delivery_investigation : CaseType

pub data CaseStatus : Type 0 where
  opened in_progress on_hold resolved : CaseStatus

pub data SemanticRiskLevel : Type 0 where
  no_risk low medium high critical : SemanticRiskLevel

pub data SemanticRiskCategory : Type 0 where
  self_harm violence legal regulatory reputation other : SemanticRiskCategory

pub data StaffComplaintSeverity : Type 0 where
  critical high medium low : StaffComplaintSeverity

pub data HandoffReason : Type 0 where
  hard_critical_self_harm hard_critical_violence hard_critical_legal : HandoffReason
  hard_critical_regulatory hard_critical_reputation hard_critical_other : HandoffReason
  semantic_critical_self_harm semantic_critical_violence semantic_critical_legal : HandoffReason
  semantic_critical_regulatory semantic_critical_reputation : HandoffReason
  semantic_critical_other semantic_high_self_harm semantic_high_violence : HandoffReason
  semantic_high_legal semantic_high_regulatory semantic_high_reputation : HandoffReason
  semantic_high_other semantic_medium_self_harm semantic_medium_violence : HandoffReason
  semantic_medium_legal semantic_medium_regulatory semantic_medium_reputation : HandoffReason
  semantic_medium_other refund_manual_review confirmed_human_request : HandoffReason
  staff_conduct_critical staff_conduct_high staff_conduct_medium staff_conduct_low : HandoffReason
  explicit_other_complaint order_state_invalid cancellation_fulfillment_processing : HandoffReason
  cancellation_state_invalid operation_delivery_date_invalid : HandoffReason
  return_eligibility_unknown exchange_eligibility_unknown : HandoffReason
  currency_threshold_unconfigured return_manual_amount_review : HandoffReason
  exchange_inventory_unknown delivery_data_invalid delivery_tracking_stalled : HandoffReason
  delivery_overdue_investigation delivery_failed delivery_marked_received_dispute : HandoffReason
  delivery_damage_claim delivery_other_issue provider_delivery_failed : HandoffReason

-- The facts that the handoff policy reads.
pub record HandoffPolicyInput : Type 0 where
  pub hard_critical_categories : List SemanticRiskCategory
  pub semantic_risk_level : Option SemanticRiskLevel
  pub semantic_risk_categories : List SemanticRiskCategory
  pub refund_requires_manual_review : Bool
  pub human_handoff_confirmed : Bool
  pub staff_complaint_severity : Option StaffComplaintSeverity
  pub explicit_other_complaint : Bool
  pub domain_case_reason_codes : List HandoffReason

-- `level in (None, "none")`
abbrev pub is_riskless : Option SemanticRiskLevel → Bool
is_riskless none = true
is_riskless (some SemanticRiskLevel.no_risk) = true
is_riskless (some _) = false

-- `HandoffPolicyInput.validate_semantic_risk`: false where it raises.
unfoldable pub policy_input_valid : HandoffPolicyInput → Bool
policy_input_valid i =
    if is_riskless i.semantic_risk_level
    then is_empty i.semantic_risk_categories
    else not (is_empty i.semantic_risk_categories)

pub record HandoffDecision : Type 0 where
  pub should_create_case : Bool
  pub case_type : Option CaseType
  pub priority : Option CasePriority
  pub reason_codes : List HandoffReason
  pub display_reason : String

-- `HandoffDecision.validate_decision`: false where it raises.
unfoldable pub handoff_decision_valid : HandoffDecision → Bool
handoff_decision_valid d =
    if d.should_create_case
    then is_some d.case_type
      && is_some d.priority
      && not (is_empty d.reason_codes)
      && not (str_eq d.display_reason "")
    else is_none d.case_type
      && is_none d.priority
      && is_empty d.reason_codes
      && str_eq d.display_reason ""
