-- ===== src/Cases/Policy.antt =====
-- `determine_handoff_policy` of src/agent/cases/policy.py and what it calls.
pub mod Raised
pub mod Urgency
pub mod Shape
use Prim.Native.String.{◌++◌ as text_append}
use langgraph_refund_agent.Base.{
  String, Bool, true, false, Option, none, some, List, [], ◌∷◌, ◌++◌, map, mem, unique, min_from,
  if◌then◌else◌,
}
use langgraph_refund_agent.Operations.Types.{CasePriority}
use langgraph_refund_agent.Cases.Types.{
  CaseType, SemanticRiskLevel, SemanticRiskCategory, StaffComplaintSeverity, HandoffReason,
  HandoffPolicyInput, HandoffDecision,
}
use langgraph_refund_agent.Cases.Reasons.{
  reason_policy, case_type_rank, priority_rank, hard_reason, critical_reason, high_reason,
  medium_reason, staff_reason,
}

pub HandoffReason-discrete : Discrete HandoffReason
HandoffReason-discrete = hlevel

pub SemanticRiskCategory-discrete : Discrete SemanticRiskCategory
SemanticRiskCategory-discrete = hlevel

abbrev risk_category_order : List SemanticRiskCategory
risk_category_order =
    SemanticRiskCategory.self_harm ∷ SemanticRiskCategory.violence ∷ SemanticRiskCategory.legal
    ∷ SemanticRiskCategory.regulatory ∷ SemanticRiskCategory.reputation ∷ SemanticRiskCategory.other
    ∷ []

-- `for category in order: if category in categories: reasons.append(reason[category])`
reasons_for :
    (SemanticRiskCategory → HandoffReason)
    → List SemanticRiskCategory
    → List SemanticRiskCategory
    → List HandoffReason
unfolding SemanticRiskCategory-discrete
reasons_for reason [] categories = []
reasons_for reason (c ∷ order) categories =
    if mem SemanticRiskCategory-discrete c categories
    then reason c ∷ reasons_for reason order categories
    else reasons_for reason order categories

semantic_reasons : Option SemanticRiskLevel → List SemanticRiskCategory → List HandoffReason
unfolding reasons_for
semantic_reasons (some SemanticRiskLevel.critical) categories =
    reasons_for critical_reason risk_category_order categories
semantic_reasons (some SemanticRiskLevel.high) categories =
    reasons_for high_reason risk_category_order categories
semantic_reasons (some SemanticRiskLevel.medium) categories =
    reasons_for medium_reason risk_category_order categories
semantic_reasons _ categories = []

staff_reasons : Option StaffComplaintSeverity → List HandoffReason
staff_reasons none = []
staff_reasons (some severity) = staff_reason severity ∷ []

reason_if : Bool → HandoffReason → List HandoffReason
reason_if true reason = reason ∷ []
reason_if false reason = []

-- The list `reasons` of `determine_handoff_policy`, before duplicates are removed.
unfoldable pub raised_reasons : HandoffPolicyInput → List HandoffReason
unfolding reasons_for semantic_reasons staff_reasons reason_if
raised_reasons i =
    reasons_for hard_reason risk_category_order i.hard_critical_categories
    ++ (semantic_reasons i.semantic_risk_level i.semantic_risk_categories
        ++ (staff_reasons i.staff_complaint_severity
            ++ (reason_if i.refund_requires_manual_review HandoffReason.refund_manual_review
                ++ (reason_if i.human_handoff_confirmed HandoffReason.confirmed_human_request
                    ++ (reason_if i.explicit_other_complaint HandoffReason.explicit_other_complaint
                        ++ i.domain_case_reason_codes)))))

-- `_deduplicate_reasons`
unfoldable pub deduplicate_reasons : List HandoffReason → List HandoffReason
unfolding HandoffReason-discrete
deduplicate_reasons = unique HandoffReason-discrete

-- `" ".join(...)`
unfoldable pub join : List String → String
join [] = ""
join (s ∷ []) = s
join (s ∷ t ∷ ts) = text_append s (text_append " " (join (t ∷ ts)))

-- `build_display_reason`
unfoldable pub build_display_reason : List HandoffReason → String
unfolding join
build_display_reason reason_codes =
    join (map (λ r. (reason_policy r).description) (deduplicate_reasons reason_codes))

reason_case_type : HandoffReason → CaseType
reason_case_type r = (reason_policy r).case_type

reason_priority : HandoffReason → CasePriority
reason_priority r = (reason_policy r).priority

-- `determine_handoff_policy`, on the reason codes without duplicates.
unfoldable pub decision_for : List HandoffReason → HandoffDecision
unfolding reason_case_type reason_priority
decision_for [] = record {
  should_create_case = false;
  case_type = none;
  priority = none;
  reason_codes = [];
  display_reason = "";
}
decision_for (r ∷ rs) = record {
  should_create_case = true;
  case_type = some (min_from case_type_rank (reason_case_type r) (map reason_case_type rs));
  priority = some (min_from priority_rank (reason_priority r) (map reason_priority rs));
  reason_codes = r ∷ rs;
  display_reason = build_display_reason (r ∷ rs);
}

-- `determine_handoff_policy`
unfoldable pub determine_handoff_policy : HandoffPolicyInput → HandoffDecision
determine_handoff_policy i = decision_for (deduplicate_reasons (raised_reasons i))

-- `select_higher_priority`
unfoldable pub select_higher_priority : CasePriority → CasePriority → CasePriority
select_higher_priority current incoming = min_from priority_rank current (incoming ∷ [])
