-- ===== src/Workflow/Routing.antt =====
-- The conditional edges of the workflow (src/agent/routing.py).
use langgraph_refund_agent.Base.{
  Bool, true, false, not, ◌||◌, Option, none, some, String, str_eq, Result, ok, err, if◌then◌else◌,
}
use langgraph_refund_agent.Cases.Types.{SemanticRiskLevel}
use langgraph_refund_agent.Workflow.Types.{Intent, RefundState, Node, RouteLabel, WorkflowError}

-- `risk_level in ("low", "medium")`
abbrev pub is_low_or_medium : Option SemanticRiskLevel → Bool
is_low_or_medium (some SemanticRiskLevel.low) = true
is_low_or_medium (some SemanticRiskLevel.medium) = true
is_low_or_medium _ = false

-- `risk_level == "none"`
abbrev pub is_none_level : Option SemanticRiskLevel → Bool
is_none_level (some SemanticRiskLevel.no_risk) = true
is_none_level _ = false

-- `decision in ("cancellation_request", "return_request", "exchange_request", "delivery_issue")`
abbrev pub is_operation : Intent → Bool
is_operation Intent.cancellation_request = true
is_operation Intent.return_request = true
is_operation Intent.exchange_request = true
is_operation Intent.delivery_issue = true
is_operation _ = false

-- `decision in ("refund_request", "order_inquiry")`
abbrev pub is_order_query : Intent → Bool
is_order_query Intent.refund_request = true
is_order_query Intent.order_inquiry = true
is_order_query _ = false

-- The truth of an optional string.
abbrev pub is_given : Option String → Bool
is_given none = false
is_given (some s) = not (str_eq s "")

-- `route_after_risk_rules`
unfoldable pub route_after_risk_rules : RefundState → RouteLabel
route_after_risk_rules s =
    if s.risk_hard_critical then RouteLabel.critical_risk else RouteLabel.semantic_risk

-- `route_after_semantic_risk`
unfoldable pub route_after_semantic_risk : RefundState → Result WorkflowError RouteLabel
route_after_semantic_risk s = elim s.semantic_risk_level [
  | none ↦ err WorkflowError.unexpected_risk_level
  | some SemanticRiskLevel.high ↦ ok RouteLabel.critical_risk
  | some SemanticRiskLevel.critical ↦ ok RouteLabel.critical_risk
  | some _ ↦ ok RouteLabel.intent
]

-- `route_by_intent_and_risk`, for an order intent.
unfoldable pub route_order : Intent → Option SemanticRiskLevel → Result WorkflowError RouteLabel
route_order decision level =
    if is_low_or_medium level
    then ok RouteLabel.confirm_order_priority
    else if is_none_level level
    then ok (if is_operation decision then RouteLabel.operation_flow else RouteLabel.order_query)
    else err WorkflowError.unexpected_intent_risk

-- `route_by_intent_and_risk`, for the intents other than a complaint.
unfoldable pub route_classified :
    Intent → Bool → Option SemanticRiskLevel → Result WorkflowError RouteLabel
route_classified decision human_handoff_requested level =
    if human_handoff_requested then ok RouteLabel.confirm_human_handoff else elim decision [
      | Intent.support_case_status ↦ ok RouteLabel.support_case_status
      | order ↦ route_order order level
    ]

-- `route_by_intent_and_risk`
unfoldable pub route_by_intent_and_risk : RefundState → Result WorkflowError RouteLabel
route_by_intent_and_risk s = elim s.decision [
  | none ↦ ok RouteLabel.finalize
  | some Intent.complaint ↦ ok RouteLabel.formal_complaint
  | some decision ↦ route_classified decision s.human_handoff_requested s.semantic_risk_level
]

-- `route_after_formal_complaint`
unfoldable pub route_after_formal_complaint : RefundState → RouteLabel
route_after_formal_complaint s =
    if s.human_handoff_requested
    then RouteLabel.confirm_human_handoff
    else if is_low_or_medium s.semantic_risk_level
    then RouteLabel.noncritical_risk
    else RouteLabel.complaint

-- `route_after_human_handoff_declined`, for the order intents.
unfoldable pub resume_order : Intent → Option SemanticRiskLevel → Result WorkflowError Node
resume_order decision level =
    if is_low_or_medium level
    then ok Node.confirm_order_priority
    else if is_none_level level
    then ok (if is_operation decision then Node.resume_order_flow else Node.detect_order)
    else err WorkflowError.cannot_resume_self_service

-- `route_after_human_handoff_declined`
unfoldable pub route_after_human_handoff_declined : RefundState → Result WorkflowError Node
route_after_human_handoff_declined s = elim s.decision [
  | none ↦ err WorkflowError.cannot_resume_self_service
  | some Intent.complaint ↦
      if is_low_or_medium s.semantic_risk_level
      then ok Node.handle_noncritical_risk
      else if is_none_level s.semantic_risk_level
      then ok Node.handle_complaint
      else err WorkflowError.cannot_resume_self_service
  | some Intent.support_case_status ↦ err WorkflowError.cannot_resume_self_service
  | some decision ↦ resume_order decision s.semantic_risk_level
]

-- `route_after_detection`
unfoldable pub route_after_detection : RefundState → RouteLabel
route_after_detection s =
    if is_given s.order_id then RouteLabel.search_node else RouteLabel.finalize

-- `route_after_order_lookup`
unfoldable pub route_after_order_lookup : RefundState → Result WorkflowError RouteLabel
route_after_order_lookup s =
    if not s.search_success then ok RouteLabel.finalize else elim s.decision [
      | some Intent.order_inquiry ↦ ok RouteLabel.order_response
      | some Intent.refund_request ↦ ok RouteLabel.check_refund_eligibility
      | _ ↦ err WorkflowError.unexpected_decision_after_lookup
    ]

-- `route_after_policy`
unfoldable pub route_after_policy : RefundState → RouteLabel
route_after_policy s =
    if not s.eligible || s.requires_manual_review
    then RouteLabel.finalize
    else RouteLabel.approval_node

-- `route_after_order_priority`
unfoldable pub route_after_order_priority : RefundState → Result WorkflowError RouteLabel
route_after_order_priority s = elim s.decision [
  | none ↦ err WorkflowError.unexpected_order_flow
  | some decision ↦
      if is_order_query decision
      then ok RouteLabel.order_query
      else if is_operation decision
      then ok RouteLabel.operation_flow
      else err WorkflowError.unexpected_order_flow
]
