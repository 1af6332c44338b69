-- ===== src/Operations/Delivery/Assessment.antt =====
-- What `evaluate_delivery_issue` decides, and what it recommends to the handoff policy.
use langgraph_refund_agent.Base.{
  ℕ, ◌+◌, ◌≤◌, ◌<◌, ◌≡◌, ◌≢◌, ◌↔◌, refl, Bool, true, false, Option, none, some, [], ◌∷◌, ltb, leb,
  is_none, ◌-◌, ◌||◌, not, if_intro, arith,
}
use langgraph_refund_agent.Operations.Types.{
  FulfillmentStatus, DeliveryIssueType, DeliveryOutcome, RecommendedCaseType, CaseRecommendation,
  OrderSnapshot, DeliveryDecision, delivery_decision_valid,
}
use langgraph_refund_agent.Operations.Decisions.{is_delivered, has_contradictory_lifecycle}
use langgraph_refund_agent.Operations.Delivery.{
  tracking_stalled_after, is_shipped, tracking_data_invalid, tracking_stalled_since,
  evaluate_tracking_stalled, delayed_since, by_issue_type, assess,
}
use langgraph_refund_agent.Cases.Types.{CaseType, HandoffReason}
use langgraph_refund_agent.Cases.Reasons.{reason_policy, reason_name}

-- What the tables of the handoff policy make of a recommendation: its one reason code is that of a
-- handoff reason of its case type, and the table gives the recommended priority to every reason but
-- `delivery_failed`, to which it gives another.
abbrev pub IsFiled : Option CaseRecommendation → Type 0
IsFiled none = Unit
IsFiled (some c) =
    (r : HandoffReason) × (c.reason_codes ≡ reason_name r ∷ [])
    × (c.case_type ≡ RecommendedCaseType.delivery_investigation)
    × ((reason_policy r).case_type ≡ CaseType.delivery_investigation)
    × (((reason_policy r).priority ≡ c.priority) ↔ (r ≢ HandoffReason.delivery_failed))

abbrev IsSound : DeliveryDecision → Type 0
IsSound d = (delivery_decision_valid d ≡ true) × IsFiled d.case_recommendation

agrees : {A B : Type 0} → A → ¬ B → A ↔ (¬ B)
agrees a nb = (λ _. nb, λ _. a)

tracking_data_invalid-IsSound : IsSound tracking_data_invalid
unfolding delivery_decision_valid reason_name reason_policy tracking_data_invalid
tracking_data_invalid-IsSound =
    (refl, (HandoffReason.delivery_data_invalid, refl, refl, refl, agrees refl (λ e. cc e)))

tracking_stalled_since-IsSound :
    (event_at : Option ℕ) (now : ℕ) → IsSound (tracking_stalled_since event_at now)
unfolding delivery_decision_valid reason_name reason_policy tracking_stalled_since
tracking_stalled_since-IsSound none now = tracking_data_invalid-IsSound
tracking_stalled_since-IsSound (some t) now =
    if_intro IsSound (ltb now t) tracking_data_invalid-IsSound (
      if_intro IsSound (leb tracking_stalled_after (now - t))
        (refl, (HandoffReason.delivery_tracking_stalled, refl, refl, refl, agrees refl (λ e. cc e)))
        (refl, tt))

evaluate_tracking_stalled-IsSound :
    (s : OrderSnapshot) (now : ℕ) → IsSound (evaluate_tracking_stalled s now)
unfolding evaluate_tracking_stalled
evaluate_tracking_stalled-IsSound s now =
    if_intro IsSound (not (is_shipped s.fulfillment_status)) tracking_data_invalid-IsSound
      (tracking_stalled_since-IsSound s.last_tracking_event_at now)

delayed_since-IsSound :
    (promised_at : Option ℕ) (s : OrderSnapshot) (now : ℕ) (asked : Bool)
    → IsSound (delayed_since promised_at s now asked)
unfolding delivery_decision_valid reason_name reason_policy delayed_since
delayed_since-IsSound none s now asked =
    (refl, (HandoffReason.delivery_data_invalid, refl, refl, refl, agrees refl (λ e. cc e)))
delayed_since-IsSound (some t) s now asked =
    if_intro IsSound (is_delivered s.fulfillment_status || leb now t) (refl, tt)
      (if_intro IsSound (asked || is_none s.last_tracking_event_at)
        (
          refl,
          (HandoffReason.delivery_overdue_investigation, refl, refl, refl, agrees refl (λ e. cc e)),
        )
        (refl, tt))

by_issue_type-IsSound :
    (issue_type : DeliveryIssueType) (s : OrderSnapshot) (now : ℕ) (asked : Bool)
    → IsSound (by_issue_type issue_type s now asked)
unfolding delivery_decision_valid reason_name reason_policy by_issue_type
by_issue_type-IsSound DeliveryIssueType.tracking_stalled s now asked =
    evaluate_tracking_stalled-IsSound s now
by_issue_type-IsSound DeliveryIssueType.delayed s now asked =
    delayed_since-IsSound s.promised_delivery_at s now asked
by_issue_type-IsSound DeliveryIssueType.delivery_failed s now asked = (
  refl,
  (HandoffReason.delivery_failed, refl, refl, refl, (λ e. absurd (cc e), λ n. absurd (n refl))),
)
by_issue_type-IsSound DeliveryIssueType.marked_delivered_not_received s now asked = (
  refl,
  (HandoffReason.delivery_marked_received_dispute, refl, refl, refl, agrees refl (λ e. cc e)),
)
by_issue_type-IsSound DeliveryIssueType.package_damaged s now asked =
    (refl, (HandoffReason.delivery_damage_claim, refl, refl, refl, agrees refl (λ e. cc e)))
by_issue_type-IsSound DeliveryIssueType.wrong_item_or_missing_parts s now asked = (refl, tt)
by_issue_type-IsSound DeliveryIssueType.other_delivery_issue s now asked =
    (refl, (HandoffReason.delivery_other_issue, refl, refl, refl, agrees refl (λ e. cc e)))

assess-IsSound :
    (issue_type : DeliveryIssueType) (s : OrderSnapshot) (now : ℕ) (asked : Bool)
    → IsSound (assess issue_type s now asked)
unfolding delivery_decision_valid reason_name reason_policy assess
assess-IsSound issue_type s now asked =
    if_intro IsSound (has_contradictory_lifecycle s)
      (refl, (HandoffReason.delivery_data_invalid, refl, refl, refl, agrees refl (λ e. cc e)))
      (by_issue_type-IsSound issue_type s now asked)

-- Every delivery decision satisfies the validator of `DeliveryDecision`; and when it recommends a
-- case, its one reason code names a handoff reason that the handoff policy files as a delivery
-- investigation, with exactly the recommended priority unless the reason is `delivery_failed`, and
-- never with the recommended priority if it is.
pub assess-IsFiled :
    (issue_type : DeliveryIssueType) (s : OrderSnapshot) (now : ℕ) (asked : Bool)
    → (delivery_decision_valid (assess issue_type s now asked) ≡ true)
      × IsFiled (assess issue_type s now asked).case_recommendation
assess-IsFiled issue_type s now asked = assess-IsSound issue_type s now asked

-- On a snapshot without contradictory facts, a stalled-tracking report is answered by self-service
-- exactly when the order is shipped and its last tracking event is not in the future and lies less
-- than 72 hours back.
pub tracking_stalled_iff :
    (s : OrderSnapshot) (now : ℕ) (asked : Bool)
    → has_contradictory_lifecycle s ≡ false
    → ((assess DeliveryIssueType.tracking_stalled s now asked).outcome
        ≡ DeliveryOutcome.self_service)
      ↔ ((s.fulfillment_status ≡ FulfillmentStatus.shipped)
          × ((t : ℕ) × (s.last_tracking_event_at ≡ some t)
              × (t ≤ now)
              × (now < t + tracking_stalled_after)))
unfolding assess
tracking_stalled_iff s now asked h = (λ k. ground arith, λ k. ground arith)
