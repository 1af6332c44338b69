-- ===== src/Workflow/Types.antt =====
-- The vocabularies of the workflow (src/agent/schemas.py, src/agent/state.py, src/agent/graph.py).
use langgraph_refund_agent.Base.{Bool, Option, none, false, String}
use langgraph_refund_agent.Cases.Types.{SemanticRiskLevel}

-- `Intent`
pub data Intent : Type 0 where
  refund_request order_inquiry complaint cancellation_request return_request : Intent
  exchange_request delivery_issue support_case_status : Intent

-- `RefundState`, the fields that routing reads or a node below writes.
pub record RefundState : Type 0 where
  pub decision : Option Intent
  pub order_id : Option String
  pub search_success : Bool
  pub eligible : Bool
  pub requires_manual_review : Bool
  pub risk_hard_critical : Bool
  pub semantic_risk_level : Option SemanticRiskLevel
  pub risk_requires_human_review : Bool
  pub human_handoff_requested : Bool
  pub human_handoff_confirmed : Bool

-- `new_turn_state`: the fields it resets; the risk fields stay.
unfoldable pub new_turn_state : Option Intent → RefundState → RefundState
new_turn_state decision s = record {
  decision = decision;
  order_id = none;
  search_success = false;
  eligible = false;
  requires_manual_review = false;
  risk_hard_critical = s.risk_hard_critical;
  semantic_risk_level = s.semantic_risk_level;
  risk_requires_human_review = s.risk_requires_human_review;
  human_handoff_requested = false;
  human_handoff_confirmed = false;
}

-- The nodes of `build_graph`, and `END`.
pub data Node : Type 0 where
  check_risk_rules classify_semantic_risk llm_call_router classify_formal_complaint : Node
  confirm_human_handoff acknowledge_human_handoff confirm_order_priority resume_order_flow : Node
  detect_order search_node order_response check_refund_eligibility approval_node : Node
  proceed cancel operation_subflow support_case_status handle_complaint : Node
  handle_noncritical_risk handle_critical_risk finalize_case_handoff attach_operation_case : Node
  finished : Node

-- What the routing functions answer.
pub data RouteLabel : Type 0 where
  critical_risk semantic_risk intent finalize formal_complaint confirm_human_handoff : RouteLabel
  support_case_status confirm_order_priority operation_flow order_query : RouteLabel
  noncritical_risk complaint search_node order_response check_refund_eligibility : RouteLabel
  approval_node : RouteLabel

-- What routing and the confirmation nodes raise (`ValueError`, by its message), and a label that the
-- edges of a node do not map.
pub data WorkflowError : Type 0 where
  unexpected_risk_level unexpected_intent_risk cannot_resume_self_service : WorkflowError
  unexpected_decision_after_lookup unexpected_order_flow : WorkflowError
  unexpected_handoff_choice unexpected_priority_choice unmapped_label : WorkflowError
  collaborator_raised : WorkflowError
