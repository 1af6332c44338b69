-- ===== src/Cases/Tests.antt =====
-- The handoff policy and the changes of a case on concrete values.
use langgraph_refund_agent.Base.{
  ◌≤◌, ◌≡◌, ◌↔◌, ◌⊎◌, ◌∷◌, [], refl, inr, true, false, arith, none, some, ok, suc, mem, Distinct,
}
use langgraph_refund_agent.Operations.Types.{p0, p2}
use langgraph_refund_agent.Cases.Types.{
  CaseType, CaseStatus, SemanticRiskLevel, SemanticRiskCategory, HandoffReason, HandoffPolicyInput,
  handoff_decision_valid, safety_review,
}
use langgraph_refund_agent.Cases.Reasons.{priority_rank, hard_reason}
use langgraph_refund_agent.Cases.Policy.{
  HandoffReason-discrete, SemanticRiskCategory-discrete, determine_handoff_policy,
}
use langgraph_refund_agent.Cases.Policy.Raised.{Raises, hard, handoff_reasons_iff}
use langgraph_refund_agent.Cases.Policy.Urgency.{Chosen, handoff_most_urgent, safety_first}
use langgraph_refund_agent.Cases.Policy.Shape.{determine_handoff_policy-handoff_decision_valid}
use langgraph_refund_agent.Cases.Record.{
  SupportCase, CaseTrigger, append_trigger, change_status, allowed_transition, same_status,
  validate_case_status_transition, validate_on_hold_request,
}
use langgraph_refund_agent.Cases.Record.Merge.{
  level_rank, append_merges, IsWellFormed, change_status-written,
}

abbrev violent_message : HandoffPolicyInput
violent_message = record {
  hard_critical_categories = SemanticRiskCategory.violence ∷ SemanticRiskCategory.legal ∷ [];
  semantic_risk_level = some SemanticRiskLevel.high;
  semantic_risk_categories = SemanticRiskCategory.violence ∷ [];
  refund_requires_manual_review = true;
  human_handoff_confirmed = false;
  staff_complaint_severity = none;
  explicit_other_complaint = false;
  domain_case_reason_codes = [];
}

violence_is_hard :
    mem SemanticRiskCategory-discrete SemanticRiskCategory.violence
      violent_message.hard_critical_categories
    ≡ true
unfolding mem
violence_is_hard = ground arith

violence_raised : Raises violent_message HandoffReason.hard_critical_violence
unfolding hard_reason
violence_raised = hard SemanticRiskCategory.violence violence_is_hard refl

abbrev stored_case : SupportCase
stored_case = record {
  thread_id = "thread";
  order_id = none;
  case_type = CaseType.general_support;
  priority = p2;
  status = CaseStatus.in_progress;
  risk_level = some SemanticRiskLevel.low;
  risk_categories = SemanticRiskCategory.other ∷ [];
  reason_codes = HandoffReason.confirmed_human_request ∷ [];
  display_reason = "The customer asked for a human.";
  on_hold_reason = none;
  version = 4;
}

abbrev urgent_trigger : CaseTrigger
urgent_trigger = record {
  order_id = some "ORD-10001";
  risk_level = some SemanticRiskLevel.high;
  risk_categories = SemanticRiskCategory.legal ∷ SemanticRiskCategory.other ∷ [];
  priority = p0;
  reason_codes = HandoffReason.semantic_high_legal ∷ HandoffReason.confirmed_human_request ∷ [];
}

abbrev resolved_case : SupportCase
resolved_case = record stored_case { status = CaseStatus.resolved; version = 5 }

resolves : change_status stored_case CaseStatus.resolved none ≡ ok (some resolved_case)
unfolding change_status validate_case_status_transition validate_on_hold_request same_status
resolves = ground arith

handoff_reasons_iff_example :
    ((mem HandoffReason-discrete HandoffReason.hard_critical_violence
          (determine_handoff_policy violent_message).reason_codes
        ≡ true)
      ↔ Raises violent_message HandoffReason.hard_critical_violence)
    × Distinct HandoffReason-discrete (determine_handoff_policy violent_message).reason_codes
handoff_reasons_iff_example =
    handoff_reasons_iff violent_message HandoffReason.hard_critical_violence

handoff_most_urgent_example :
    Chosen
      (Raises violent_message)
      HandoffReason.hard_critical_violence
      (determine_handoff_policy violent_message)
handoff_most_urgent_example =
    handoff_most_urgent violent_message HandoffReason.hard_critical_violence violence_raised

safety_first_example :
    ((determine_handoff_policy violent_message).case_type ≡ some safety_review)
    × ((determine_handoff_policy violent_message).priority ≡ some p0)
safety_first_example =
    safety_first violent_message SemanticRiskCategory.violence (inr refl) violence_is_hard

determine_handoff_policy-handoff_decision_valid_example :
    handoff_decision_valid (determine_handoff_policy violent_message) ≡ true
determine_handoff_policy-handoff_decision_valid_example =
    determine_handoff_policy-handoff_decision_valid violent_message

append_merges_example :
    ((priority_rank (append_trigger stored_case urgent_trigger).priority ≤ priority_rank p2)
      × (priority_rank (append_trigger stored_case urgent_trigger).priority ≤ priority_rank p0)
      × (level_rank (some SemanticRiskLevel.low)
          ≤ level_rank (append_trigger stored_case urgent_trigger).risk_level)
      × (level_rank (some SemanticRiskLevel.high)
          ≤ level_rank (append_trigger stored_case urgent_trigger).risk_level))
    × ((mem HandoffReason-discrete HandoffReason.semantic_high_legal
            (append_trigger stored_case urgent_trigger).reason_codes
          ≡ true)
        ↔ ((mem HandoffReason-discrete HandoffReason.semantic_high_legal stored_case.reason_codes
              ≡ true)
            ⊎ (mem HandoffReason-discrete HandoffReason.semantic_high_legal
                  urgent_trigger.reason_codes
                ≡ true)))
    × Distinct HandoffReason-discrete (append_trigger stored_case urgent_trigger).reason_codes
append_merges_example = append_merges stored_case urgent_trigger HandoffReason.semantic_high_legal

change_status-written_example :
    (allowed_transition CaseStatus.in_progress CaseStatus.resolved ≡ true)
    × (CaseStatus.resolved ≡ CaseStatus.resolved)
    × (resolved_case.version ≡ suc stored_case.version)
    × (resolved_case.priority ≡ stored_case.priority)
    × (resolved_case.reason_codes ≡ stored_case.reason_codes)
    × IsWellFormed resolved_case
change_status-written_example =
    change_status-written stored_case resolved_case CaseStatus.resolved none resolves
