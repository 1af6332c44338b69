-- ===== src/Cases/Policy/Shape.antt =====
-- The shape of the decisions of `determine_handoff_policy`.
use text.Mathlib.TextLemmas.{append-eq-nil_iff}
use langgraph_refund_agent.Base.{
  String, eq_iff, ◌≡◌, ◌≢◌, refl, true, List, [], ◌∷◌, arith, mem, unique,
}
use langgraph_refund_agent.Cases.Types.{HandoffReason, HandoffPolicyInput, handoff_decision_valid}
use langgraph_refund_agent.Cases.Reasons.{reason_policy}
use langgraph_refund_agent.Cases.Policy.{
  raised_reasons, deduplicate_reasons, join, build_display_reason, decision_for,
  determine_handoff_policy,
}

description-ne-nil : (r : HandoffReason) → (reason_policy r).description ≢ ""
unfolding reason_policy
description-ne-nil HandoffReason.hard_critical_self_harm e = cc e
description-ne-nil _ e = cc e

join-ne-nil : (s : String) (ss : List String) → s ≢ "" → join (s ∷ ss) ≢ ""
unfolding join
join-ne-nil s [] h e = h e
join-ne-nil s (t ∷ ts) h e = h (append-eq-nil_iff.0 e).0

build_display_reason-ne-nil :
    (r : HandoffReason) (rs : List HandoffReason) → build_display_reason (r ∷ rs) ≢ ""
unfolding build_display_reason deduplicate_reasons unique mem
build_display_reason-ne-nil r rs = join-ne-nil _ _ (description-ne-nil r)

decision_for-handoff_decision_valid :
    (rs : List HandoffReason) → handoff_decision_valid (decision_for rs) ≡ true
unfolding decision_for handoff_decision_valid
decision_for-handoff_decision_valid [] = refl
decision_for-handoff_decision_valid (r ∷ rs) =
    ground (arith, build_display_reason-ne-nil r rs, eq_iff (build_display_reason (r ∷ rs)) "")

-- For every input the decision satisfies the validator of `HandoffDecision`: a positive decision
-- carries its case type, priority, reasons and text, a negative one none of them. So building the
-- decision never raises.
pub determine_handoff_policy-handoff_decision_valid :
    (i : HandoffPolicyInput) → handoff_decision_valid (determine_handoff_policy i) ≡ true
unfolding determine_handoff_policy
determine_handoff_policy-handoff_decision_valid i =
    decision_for-handoff_decision_valid (deduplicate_reasons (raised_reasons i))
