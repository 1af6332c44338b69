-- ===== src/Workflow/Turn.antt =====
-- The graph of `build_graph` (src/agent/graph.py) and the state updates of its nodes (src/agent/nodes).
-- What a model, a repository or the customer answers within one turn is a parameter.
pub mod Safety
pub mod Progress
use langgraph_refund_agent.Base.{
  ℕ, zero, suc, Bool, true, false, not, Option, none, some, String, Result, ok, err, ◌>>=◌,
  if◌then◌else◌,
}
use langgraph_refund_agent.Refunds.{OrderInfo, RefundResult, check_refund_policy}
use langgraph_refund_agent.Cases.Types.{SemanticRiskLevel}
use langgraph_refund_agent.Workflow.Types.{
  Intent, RefundState, new_turn_state, Node, RouteLabel, WorkflowError,
}
use langgraph_refund_agent.Workflow.Routing.{
  route_after_risk_rules, route_after_semantic_risk, route_by_intent_and_risk,
  route_after_formal_complaint, route_after_human_handoff_declined, route_after_detection,
  route_after_order_lookup, route_after_policy, route_after_order_priority,
}

-- The customer's choice at the confirmation of a human handoff, and of an order's priority.
pub data HandoffChoice : Type 0 where
  confirm_handoff continue_self_service other : HandoffChoice

pub data PriorityChoice : Type 0 where
  handle_order continue_risk other : PriorityChoice

-- The answers of one turn: whether the rules match a hard-critical one, whether the latest message is
-- text, the classifiers' results, the order number detected, whether the lookup finds the order, its
-- details (none where they are not valid), the day, the customer's choices, and the nodes in which what
-- they call - a model, a repository, a service or the subflow - raises, or gives them what they refuse.
pub record Answers : Type 0 where
  pub hard_critical : Bool
  pub is_text : Bool
  pub risk_level : SemanticRiskLevel
  pub step : Intent
  pub human_handoff_requested : Bool
  pub handoff_choice : HandoffChoice
  pub priority_choice : PriorityChoice
  pub order_id : Option String
  pub order_found : Bool
  pub order_info : Option OrderInfo
  pub today : ℕ
  pub approved : Bool
  pub raises : Node → Bool

-- `check_risk_rules`
unfoldable pub check_risk_rules : Answers → RefundState → RefundState
check_risk_rules a s = record (new_turn_state none s) {
  risk_hard_critical = a.hard_critical;
  semantic_risk_level = none;
  risk_requires_human_review = false;
}

-- `classify_semantic_risk`
unfoldable pub classify_semantic_risk : Answers → RefundState → RefundState
classify_semantic_risk a s = record s {
  semantic_risk_level = some (if a.is_text then a.risk_level else SemanticRiskLevel.no_risk);
}

-- `llm_call_router`
unfoldable pub llm_call_router : Answers → RefundState → RefundState
llm_call_router a s =
    if a.is_text
    then record (new_turn_state (some a.step) s) {
      human_handoff_requested = a.human_handoff_requested;
    }
    else new_turn_state none s

-- `check_refund_eligibility_node`, on the result of the policy tool.
unfoldable pub check_refund_eligibility : RefundResult → RefundState → RefundState
check_refund_eligibility result s =
    if not result.eligible
    then record s { eligible = false; requires_manual_review = result.requires_manual_review }
    else if result.requires_manual_review
    then record s { eligible = true; requires_manual_review = true }
    else record s { eligible = true; requires_manual_review = false; order_id = result.order_id }

-- `add_conditional_edges` of `build_graph`: the node that each label leads to.
unfoldable pub edge : Node → RouteLabel → Result WorkflowError Node
edge Node.check_risk_rules RouteLabel.critical_risk = ok Node.handle_critical_risk
edge Node.check_risk_rules RouteLabel.semantic_risk = ok Node.classify_semantic_risk
edge Node.classify_semantic_risk RouteLabel.critical_risk = ok Node.handle_critical_risk
edge Node.classify_semantic_risk RouteLabel.intent = ok Node.llm_call_router
edge Node.llm_call_router RouteLabel.formal_complaint = ok Node.classify_formal_complaint
edge Node.llm_call_router RouteLabel.confirm_human_handoff = ok Node.confirm_human_handoff
edge Node.llm_call_router RouteLabel.confirm_order_priority = ok Node.confirm_order_priority
edge Node.llm_call_router RouteLabel.order_query = ok Node.detect_order
edge Node.llm_call_router RouteLabel.operation_flow = ok Node.operation_subflow
edge Node.llm_call_router RouteLabel.support_case_status = ok Node.support_case_status
edge Node.llm_call_router RouteLabel.finalize = ok Node.finalize_case_handoff
edge Node.classify_formal_complaint RouteLabel.confirm_human_handoff = ok Node.confirm_human_handoff
edge Node.classify_formal_complaint RouteLabel.noncritical_risk = ok Node.handle_noncritical_risk
edge Node.classify_formal_complaint RouteLabel.complaint = ok Node.handle_complaint
edge Node.resume_order_flow RouteLabel.order_query = ok Node.detect_order
edge Node.resume_order_flow RouteLabel.operation_flow = ok Node.operation_subflow
edge Node.detect_order RouteLabel.finalize = ok Node.finalize_case_handoff
edge Node.detect_order RouteLabel.search_node = ok Node.search_node
edge Node.search_node RouteLabel.order_response = ok Node.order_response
edge Node.search_node RouteLabel.check_refund_eligibility = ok Node.check_refund_eligibility
edge Node.search_node RouteLabel.finalize = ok Node.finalize_case_handoff
edge Node.check_refund_eligibility RouteLabel.finalize = ok Node.finalize_case_handoff
edge Node.check_refund_eligibility RouteLabel.approval_node = ok Node.approval_node
edge _ _ = err WorkflowError.unmapped_label

-- A node that ends with a conditional edge: the state it leaves and the label of its route.
unfoldable pub follow :
    Node → RefundState → Result WorkflowError RouteLabel → Result WorkflowError (Node × RefundState)
follow n s (err e) = err e
follow n s (ok label) = elim (edge n label) [ err e ↦ err e | ok target ↦ ok (target, s) ]

-- `confirm_human_handoff`
unfoldable pub confirm_human_handoff :
    HandoffChoice → RefundState → Result WorkflowError (Node × RefundState)
confirm_human_handoff HandoffChoice.confirm_handoff s =
    ok (Node.acknowledge_human_handoff, record s { human_handoff_confirmed = true })
confirm_human_handoff HandoffChoice.continue_self_service s =
    elim (route_after_human_handoff_declined s) [
      | err e ↦ err e
      | ok target ↦
          ok (target, record s { human_handoff_requested = false; human_handoff_confirmed = false })
    ]
confirm_human_handoff HandoffChoice.other s = err WorkflowError.unexpected_handoff_choice

-- `confirm_order_priority`; its update of `risk_order_choice` is of a field that nothing here reads.
unfoldable pub confirm_order_priority :
    PriorityChoice → RefundState → Result WorkflowError (Node × RefundState)
confirm_order_priority PriorityChoice.handle_order s = ok (Node.resume_order_flow, s)
confirm_order_priority PriorityChoice.continue_risk s = ok (Node.handle_noncritical_risk, s)
confirm_order_priority PriorityChoice.other s = err WorkflowError.unexpected_priority_choice

-- One node of the graph whose calls return: its update of the state and the node that follows.
unfoldable pub step_returned :
    Answers → Node → RefundState → Result WorkflowError (Node × RefundState)
step_returned a Node.check_risk_rules s =
    let s' = check_risk_rules a s in
    follow Node.check_risk_rules s' (ok (route_after_risk_rules s'))
step_returned a Node.classify_semantic_risk s =
    let s' = classify_semantic_risk a s in
    follow Node.classify_semantic_risk s' (route_after_semantic_risk s')
step_returned a Node.llm_call_router s =
    let s' = llm_call_router a s in follow Node.llm_call_router s' (route_by_intent_and_risk s')
step_returned a Node.classify_formal_complaint s =
    follow Node.classify_formal_complaint s (ok (route_after_formal_complaint s))
step_returned a Node.confirm_human_handoff s = confirm_human_handoff a.handoff_choice s
step_returned a Node.confirm_order_priority s = confirm_order_priority a.priority_choice s
step_returned a Node.resume_order_flow s =
    follow Node.resume_order_flow s (route_after_order_priority s)
step_returned a Node.detect_order s =
    let s' = record s { order_id = a.order_id } in
    follow Node.detect_order s' (ok (route_after_detection s'))
step_returned a Node.search_node s =
    let s' = record s { search_success = a.order_found } in
    follow Node.search_node s' (route_after_order_lookup s')
step_returned a Node.check_refund_eligibility s =
    let s' = check_refund_eligibility (check_refund_policy a.order_info a.today) s in
    follow Node.check_refund_eligibility s' (ok (route_after_policy s'))
step_returned a Node.approval_node s = ok (if a.approved then Node.proceed else Node.cancel, s)
step_returned a Node.handle_critical_risk s =
    ok (Node.finalize_case_handoff, record s { risk_requires_human_review = true })
step_returned a Node.acknowledge_human_handoff s = ok (Node.finalize_case_handoff, s)
step_returned a Node.order_response s = ok (Node.finalize_case_handoff, s)
step_returned a Node.proceed s = ok (Node.finalize_case_handoff, s)
step_returned a Node.cancel s = ok (Node.finalize_case_handoff, s)
step_returned a Node.operation_subflow s = ok (Node.finalize_case_handoff, s)
step_returned a Node.support_case_status s = ok (Node.finalize_case_handoff, s)
step_returned a Node.handle_complaint s = ok (Node.finalize_case_handoff, s)
step_returned a Node.handle_noncritical_risk s = ok (Node.finalize_case_handoff, s)
step_returned a Node.finalize_case_handoff s = ok (Node.attach_operation_case, s)
step_returned a Node.attach_operation_case s = ok (Node.finished, s)
step_returned a Node.finished s = ok (Node.finished, s)

-- One node of the graph.
unfoldable pub step : Answers → Node → RefundState → Result WorkflowError (Node × RefundState)
unfolding step_returned
step a n s = if a.raises n then err WorkflowError.collaborator_raised else step_returned a n s

-- Up to `fuel` nodes from a node on.
unfoldable pub run : ℕ → Answers → Node → RefundState → Result WorkflowError (Node × RefundState)
run zero a n s = ok (n, s)
run (suc fuel) a n s = elim (step a n s) [ err e ↦ err e | ok r ↦ run fuel a r.0 r.1 ]
