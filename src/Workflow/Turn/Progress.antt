-- ===== src/Workflow/Turn/Progress.antt =====
-- A turn ends: the graph has no cycle, and the longest way through it has fourteen nodes. When it
-- ends with an exception.
use langgraph_refund_agent.Base.{
  ℕ, zero, suc, Result-cases, inl, inr, ◌≤◌, ◌≡◌, ◌≢◌, ◌↔◌, Bool, true, false, Result, ok, err,
  arith,
}
use langgraph_refund_agent.Workflow.Types.{Intent, RefundState, new_turn_state, Node, WorkflowError}
use langgraph_refund_agent.Workflow.Routing.{
  route_after_risk_rules, route_after_semantic_risk, route_order, route_classified,
  route_by_intent_and_risk, route_after_formal_complaint, resume_order,
  route_after_human_handoff_declined, route_after_detection, route_after_order_lookup,
  route_after_policy, route_after_order_priority,
}
use langgraph_refund_agent.Workflow.Turn.Safety.{IsSelfService}
use langgraph_refund_agent.Workflow.Turn.{
  Answers, HandoffChoice, PriorityChoice, check_risk_rules, classify_semantic_risk, llm_call_router,
  check_refund_eligibility, edge, follow, confirm_human_handoff, confirm_order_priority,
  step_returned, step, run,
}

-- The nodes left after a node at most.
abbrev pub nodes_left : Node → ℕ
nodes_left Node.check_risk_rules = 14
nodes_left Node.classify_semantic_risk = 13
nodes_left Node.llm_call_router = 12
nodes_left Node.classify_formal_complaint = 11
nodes_left Node.confirm_human_handoff = 10
nodes_left Node.confirm_order_priority = 9
nodes_left Node.resume_order_flow = 8
nodes_left Node.detect_order = 7
nodes_left Node.search_node = 6
nodes_left Node.check_refund_eligibility = 5
nodes_left Node.approval_node = 4
nodes_left Node.finalize_case_handoff = 2
nodes_left Node.attach_operation_case = 1
nodes_left Node.finished = 0
nodes_left _ = 3

step_descends :
    (fuel : ℕ) (a : Answers) (n : Node) (s : RefundState) (r : Node × RefundState)
    → nodes_left n ≤ suc fuel
    → step a n s ≡ ok r
    → nodes_left r.0 ≤ fuel
unfolding step step_returned follow edge confirm_human_handoff confirm_order_priority resume_order
    route_after_human_handoff_declined
step_descends fuel a n s r u e = ground arith

-- A run that does not raise has come to the end.
abbrev pub IsEnded : Result WorkflowError (Node × RefundState) → Type 0
IsEnded (ok r) = r.0 ≡ Node.finished
IsEnded (err _) = Unit

ends_within :
    (fuel : ℕ) (a : Answers) (n : Node) (s : RefundState)
    → nodes_left n ≤ fuel
    → IsEnded (run fuel a n s)
unfolding run
ends_within zero a n s h = ground arith
ends_within (suc fuel) a n s h = elim (Result-cases (step a n s)) [
  | inl (r, e) ↦ rw (e, IsEnded, run) (ends_within fuel a r.0 r.1 (step_descends fuel a n s r h e))
  | inr (x, e) ↦ rw (e, IsEnded, run) tt
]

-- A turn: fourteen nodes are as many as the longest way through the graph has.
abbrev pub take_turn : Answers → RefundState → Result WorkflowError (Node × RefundState)
take_turn a s = run 14 a Node.check_risk_rules s

-- Every turn either comes to the end of the graph or raises.
pub take_turn-IsEnded : (a : Answers) (s : RefundState) → IsEnded (take_turn a s)
take_turn-IsEnded a s = ends_within 14 a Node.check_risk_rules s (omega arith)

-- A message about the status of a support case that also asks for a human.
abbrev pub IsCaseStatusWithHandoff : Answers → Type 0
IsCaseStatusWithHandoff a =
    (a.is_text ≡ true) × (a.step ≡ Intent.support_case_status) × (a.human_handoff_requested ≡ true)

abbrev pub is_err : {E A : Type 0} → Result E A → Bool
is_err (ok _) = false
is_err (err _) = true

-- The answers with no node that raises.
abbrev quiet : Answers → Answers
quiet a = record a { raises = λ n. false }

is_quiet : (a : Answers) → ((n : Node) → a.raises n ≡ false) → a ≡ quiet a
is_quiet a silent = λ i. record a { raises = λ n. silent n i }

raises_iff :
    (a : Answers) (s : RefundState)
    → a.handoff_choice ≢ HandoffChoice.other
    → a.priority_choice ≢ PriorityChoice.other
    → (is_err (take_turn (quiet a) s) ≡ true) ↔ (
        IsSelfService a
        × IsCaseStatusWithHandoff a
        × (a.handoff_choice ≡ HandoffChoice.continue_self_service))
unfolding run step step_returned follow edge check_risk_rules new_turn_state classify_semantic_risk
    llm_call_router check_refund_eligibility confirm_human_handoff confirm_order_priority
    route_after_risk_rules route_after_semantic_risk route_order route_classified
    route_by_intent_and_risk route_after_formal_complaint resume_order
    route_after_human_handoff_declined route_after_detection route_after_order_lookup
    route_after_policy route_after_order_priority
raises_iff a s u v = ground arith

-- When nothing that a node calls raises - no model, repository, service or subflow -, and the customer
-- makes one of the choices offered, a turn raises exactly when a message on the status of a support case
-- also asks for a human, is of no high risk, and the customer then chooses to continue without one: the
-- self-service flow of that intent cannot be resumed.
pub take_turn_raises_iff :
    (a : Answers) (s : RefundState)
    → ((n : Node) → a.raises n ≡ false)
    → a.handoff_choice ≢ HandoffChoice.other
    → a.priority_choice ≢ PriorityChoice.other
    → (is_err (take_turn a s) ≡ true) ↔ (
        IsSelfService a
        × IsCaseStatusWithHandoff a
        × (a.handoff_choice ≡ HandoffChoice.continue_self_service))
take_turn_raises_iff a s silent u v = rw (is_quiet a silent) (raises_iff a s u v)
