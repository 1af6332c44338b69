-- ===== src/Workflow/Turn/Safety.antt =====
-- What has happened in a turn by the time it reaches a node.
use langgraph_refund_agent.Base.{
  ℕ, zero, suc, Result-cases, inl, inr, ◌≡◌, ◌⊎◌, Bool, true, false, some, ok, if◌then◌else◌, arith,
}
use langgraph_refund_agent.Refunds.Window.{IsAutomatic, eligible-IsAutomatic}
use langgraph_refund_agent.Cases.Types.{SemanticRiskLevel}
use langgraph_refund_agent.Workflow.Types.{Intent, RefundState, new_turn_state, Node}
use langgraph_refund_agent.Workflow.Routing.{
  route_after_risk_rules, route_after_semantic_risk, route_order, route_classified,
  route_by_intent_and_risk, route_after_formal_complaint, resume_order,
  route_after_human_handoff_declined, route_after_detection, route_after_order_lookup,
  route_after_policy, route_after_order_priority,
}
use langgraph_refund_agent.Workflow.Turn.{
  Answers, check_risk_rules, classify_semantic_risk, llm_call_router, check_refund_eligibility,
  edge, follow, confirm_human_handoff, confirm_order_priority, step_returned, step, run,
}

-- The nodes that a turn reaches, with the state on arrival.
pub data Reaches (a : Answers) (start : RefundState) : Node → RefundState → Type 0 where
  begins : Reaches a start Node.check_risk_rules start
  steps :
      (n : Node) (s : RefundState) (n' : Node) (s' : RefundState)
      → Reaches a start n s
      → step a n s ≡ ok (n', s')
      → Reaches a start n' s'

-- The level of the latest message: a message that is not text counts as free of risk.
abbrev pub level_of : Answers → SemanticRiskLevel
level_of a = if a.is_text then a.risk_level else SemanticRiskLevel.no_risk

-- No hard-critical rule matched, and the level is below high.
abbrev pub IsSelfService : Answers → Type 0
IsSelfService a =
    (a.hard_critical ≡ false)
    × ((level_of a ≡ SemanticRiskLevel.no_risk)
        ⊎ (level_of a ≡ SemanticRiskLevel.low)
        ⊎ (level_of a ≡ SemanticRiskLevel.medium))

abbrev pub IsAutomaticRefund : RefundState → Type 0
IsAutomaticRefund s =
    (s.decision ≡ some Intent.refund_request)
    × (s.search_success ≡ true)
    × (s.eligible ≡ true)
    × (s.requires_manual_review ≡ false)

-- The nodes that run whatever the risk.
abbrev pub is_common : Node → Bool
is_common Node.check_risk_rules = true
is_common Node.classify_semantic_risk = true
is_common Node.handle_critical_risk = true
is_common Node.finalize_case_handoff = true
is_common Node.attach_operation_case = true
is_common Node.finished = true
is_common _ = false

-- What holds on arrival at a node.
abbrev Fits : Answers → Node → RefundState → Type 0
Fits a Node.check_risk_rules s = Unit
Fits a Node.classify_semantic_risk s = (a.hard_critical ≡ false) × (s.risk_hard_critical ≡ false)
Fits a Node.llm_call_router s = IsSelfService a × (s.semantic_risk_level ≡ some (level_of a))
Fits a Node.check_refund_eligibility s =
    IsSelfService a × (s.decision ≡ some Intent.refund_request) × (s.search_success ≡ true)
Fits a Node.approval_node s =
    IsSelfService a × IsAutomaticRefund s × IsAutomatic a.order_info a.today
Fits a Node.proceed s =
    IsSelfService a × IsAutomaticRefund s × IsAutomatic a.order_info a.today × (a.approved ≡ true)
Fits a Node.handle_critical_risk s = ¬ IsSelfService a
Fits a Node.finalize_case_handoff s = Unit
Fits a Node.attach_operation_case s = Unit
Fits a Node.finished s = Unit
Fits a _ s = IsSelfService a

step-Fits :
    (a : Answers) (n : Node) (s : RefundState) (n' : Node) (s' : RefundState)
    → Fits a n s
    → step a n s ≡ ok (n', s')
    → Fits a n' s'
unfolding step step_returned follow edge check_risk_rules new_turn_state classify_semantic_risk
    llm_call_router check_refund_eligibility confirm_human_handoff confirm_order_priority
    route_after_risk_rules route_after_semantic_risk route_order route_classified
    route_by_intent_and_risk route_after_formal_complaint resume_order
    route_after_human_handoff_declined route_after_detection route_after_order_lookup
    route_after_policy route_after_order_priority
step-Fits a n s n' s' f e = ground (arith, eligible-IsAutomatic a.order_info a.today)

reached-Fits :
    (a : Answers) (start : RefundState) (n : Node) (s : RefundState)
    → Reaches a start n s
    → Fits a n s
reached-Fits a start n s begins = tt
reached-Fits a start n s (steps n' s' _ _ r e) =
    step-Fits a n' s' n s (reached-Fits a start n' s' r) e

-- What a run from a reached node comes to is reached.
pub run-Reaches :
    (fuel : ℕ) (a : Answers) (start : RefundState) (n : Node) (s : RefundState) (n' : Node)
    (s' : RefundState)
    → Reaches a start n s
    → run fuel a n s ≡ ok (n', s')
    → Reaches a start n' s'
unfolding run
run-Reaches zero a start n s n' s' r e =
    let there : (n ≡ n') × (s ≡ s') = ground arith in rw (← there.0, ← there.1) r
run-Reaches (suc fuel) a start n s n' s' r e = elim (Result-cases (step a n s)) [
  | inl (q, f) ↦ run-Reaches fuel a start q.0 q.1 n' s' (steps n s q.0 q.1 r f) (ground (arith, f))
  | inr (x, f) ↦ absurd (ground (arith, f))
]

-- A turn creates a refund only when the message asks for one, no hard-critical rule matched, the risk
-- level is below high, the order was found, its details are valid and show a delivery at most seven
-- days ago, no refund yet and an amount below one hundred, and the customer approved.
pub proceed_only_approved :
    (a : Answers) (start s : RefundState)
    → Reaches a start Node.proceed s
    → IsSelfService a × IsAutomaticRefund s × IsAutomatic a.order_info a.today × (a.approved ≡ true)
proceed_only_approved a start s r = reached-Fits a start Node.proceed s r

-- A turn with a hard-critical rule match, or whose latest message is of a high or critical level,
-- reaches no node that serves a request: no intent router, no confirmation, no order lookup, no order
-- operation and no refund.
pub critical_never_served :
    (a : Answers) (start s : RefundState) (n : Node)
    → ¬ IsSelfService a
    → is_common n ≡ false
    → ¬ Reaches a start n s
critical_never_served a start s n c h r =
    let f = reached-Fits a start n s r in ground (arith, c, h, f)

-- And the conservative response of `handle_critical_risk` is reached by no other turn.
pub critical_response_only :
    (a : Answers) (start s : RefundState)
    → Reaches a start Node.handle_critical_risk s
    → ¬ IsSelfService a
critical_response_only a start s r = reached-Fits a start Node.handle_critical_risk s r
