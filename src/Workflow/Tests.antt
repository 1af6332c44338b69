-- ===== src/Workflow/Tests.antt =====
-- Runs of the workflow on concrete turns.
use langgraph_refund_agent.Base.{◌≡◌, ◌↔◌, refl, true, false, none, some, ok}
use langgraph_refund_agent.Refunds.{OrderInfo, check_order, check_refund_policy}
use langgraph_refund_agent.Refunds.Window.{IsAutomatic}
use langgraph_refund_agent.Cases.Types.{SemanticRiskLevel}
use langgraph_refund_agent.Workflow.Types.{Intent, RefundState, new_turn_state, Node}
use langgraph_refund_agent.Workflow.Routing.{
  route_after_risk_rules, route_after_semantic_risk, route_order, route_classified,
  route_by_intent_and_risk, route_after_formal_complaint, resume_order,
  route_after_human_handoff_declined, route_after_detection, route_after_order_lookup,
  route_after_policy, route_after_order_priority,
}
use langgraph_refund_agent.Workflow.Turn.{
  Answers, HandoffChoice, PriorityChoice, check_risk_rules, classify_semantic_risk, llm_call_router,
  check_refund_eligibility, edge, follow, confirm_human_handoff, confirm_order_priority,
  step_returned, step, run,
}
use langgraph_refund_agent.Workflow.Turn.Safety.{
  IsSelfService, IsAutomaticRefund, Reaches, begins, run-Reaches, proceed_only_approved,
  critical_never_served,
}
use langgraph_refund_agent.Workflow.Turn.Progress.{
  take_turn, IsEnded, take_turn-IsEnded, is_err, IsCaseStatusWithHandoff, take_turn_raises_iff,
}

abbrev first_state : RefundState
first_state = record {
  decision = none;
  order_id = none;
  search_success = false;
  eligible = false;
  requires_manual_review = false;
  risk_hard_critical = false;
  semantic_risk_level = none;
  risk_requires_human_review = false;
  human_handoff_requested = false;
  human_handoff_confirmed = false;
}

abbrev lamp : OrderInfo
lamp = record {
  order_id = "ORD-10001";
  delivery_date = 739000;
  status = "delivered";
  refunded = false;
  amount = 2500;
}

abbrev refund_turn : Answers
refund_turn = record {
  hard_critical = false;
  is_text = true;
  risk_level = SemanticRiskLevel.no_risk;
  step = Intent.refund_request;
  human_handoff_requested = false;
  handoff_choice = HandoffChoice.continue_self_service;
  priority_choice = PriorityChoice.handle_order;
  order_id = some "ORD-10001";
  order_found = true;
  order_info = some lamp;
  today = 739007;
  approved = true;
  raises = λ n. false;
}

abbrev threat_turn : Answers
threat_turn = record refund_turn { hard_critical = true }

abbrev case_status_turn : Answers
case_status_turn = record refund_turn {
  step = Intent.support_case_status;
  human_handoff_requested = true;
}

abbrev approved_state : RefundState
approved_state = record {
  decision = some Intent.refund_request;
  order_id = some "ORD-10001";
  search_success = true;
  eligible = true;
  requires_manual_review = false;
  risk_hard_critical = false;
  semantic_risk_level = some SemanticRiskLevel.no_risk;
  risk_requires_human_review = false;
  human_handoff_requested = false;
  human_handoff_confirmed = false;
}

refund_run : run 7 refund_turn Node.check_risk_rules first_state ≡ ok (Node.proceed, approved_state)
unfolding check_refund_policy check_order run step step_returned follow edge check_risk_rules
    new_turn_state classify_semantic_risk llm_call_router check_refund_eligibility
    confirm_human_handoff confirm_order_priority route_after_risk_rules route_after_semantic_risk
    route_order route_classified route_by_intent_and_risk route_after_formal_complaint resume_order
    route_after_human_handoff_declined route_after_detection route_after_order_lookup
    route_after_policy route_after_order_priority
refund_run = refl

abbrev threat_state : RefundState
threat_state = record first_state { risk_hard_critical = true }

threat_run :
    run 1 threat_turn Node.check_risk_rules first_state
    ≡ ok (Node.handle_critical_risk, threat_state)
unfolding run step step_returned follow edge check_risk_rules new_turn_state route_after_risk_rules
threat_run = refl

proceed_only_approved_example :
    IsSelfService refund_turn
    × IsAutomaticRefund approved_state
    × IsAutomatic (some lamp) 739007
    × (refund_turn.approved ≡ true)
proceed_only_approved_example = proceed_only_approved refund_turn first_state approved_state (
    run-Reaches 7 refund_turn first_state Node.check_risk_rules first_state Node.proceed
      approved_state begins refund_run)

critical_never_served_example : ¬ Reaches threat_turn first_state Node.operation_subflow first_state
critical_never_served_example =
    critical_never_served threat_turn first_state first_state Node.operation_subflow (λ k. cc (k.0))
      refl

take_turn-IsEnded_example : IsEnded (take_turn refund_turn first_state)
take_turn-IsEnded_example = take_turn-IsEnded refund_turn first_state

take_turn_raises_iff_example : (is_err (take_turn case_status_turn first_state) ≡ true) ↔ (
    IsSelfService case_status_turn
    × IsCaseStatusWithHandoff case_status_turn
    × (case_status_turn.handoff_choice ≡ HandoffChoice.continue_self_service))
take_turn_raises_iff_example =
    take_turn_raises_iff case_status_turn first_state (λ n. refl) (λ e. cc e) (λ e. cc e)
