-- ===== src/Cases/Policy/Urgency.antt =====
-- The case type and the priority that `determine_handoff_policy` chooses.
use langgraph_refund_agent.Base.{
  ℕ, ◌≤◌, ◌≡◌, ◌↔◌, ◌⊎◌, refl, sym, inl, inr, true, some, List, [], ◌∷◌, map, arith, mem, mem-cons,
  mem-unique, min_from, min_from-le, min_from-mem, All,
}
use langgraph_refund_agent.Operations.Types.{CasePriority, p0}
use langgraph_refund_agent.Cases.Types.{
  CaseType, SemanticRiskCategory, HandoffReason, HandoffPolicyInput, HandoffDecision, safety_review,
}
use langgraph_refund_agent.Cases.Reasons.{reason_policy, case_type_rank, priority_rank, hard_reason}
use langgraph_refund_agent.Cases.Policy.{
  HandoffReason-discrete, SemanticRiskCategory-discrete, raised_reasons, deduplicate_reasons,
  reason_case_type, reason_priority, decision_for, determine_handoff_policy,
}
use langgraph_refund_agent.Cases.Policy.Raised.{
  Raises, hard, raised_reasons_sound, raised_reasons_complete,
}

abbrev Listed : HandoffReason → List HandoffReason → Type 0
Listed r rs = mem HandoffReason-discrete r rs ≡ true

CasePriority-discrete : Discrete CasePriority
CasePriority-discrete = hlevel

CaseType-discrete : Discrete CaseType
CaseType-discrete = hlevel

All-map {ℓ κ} :
    {B : Type ℓ} (P : B → Type κ) (f : HandoffReason → B) (rs : List HandoffReason)
    → All P (map f rs)
    → (r : HandoffReason) → Listed r rs
    → P (f r)
All-map P f [] h r k = absurd (unfold mem in cc)
All-map P f (s ∷ rs) h r k = elim ((mem-cons HandoffReason-discrete r s rs).0 k) [
  | inl e ↦ rw e h.0
  | inr l ↦ All-map P f rs h.1 r l
]

mem-map {ℓ} :
    {B : Type ℓ} (dec : Discrete B) (f : HandoffReason → B) (rs : List HandoffReason) (b : B)
    → mem dec b (map f rs) ≡ true
    → (r : HandoffReason) × Listed r rs × (f r ≡ b)
mem-map dec f [] b h = absurd (unfold mem in cc)
mem-map dec f (s ∷ rs) b h = elim ((mem-cons dec b (f s) (map f rs)).0 h) [
  | inl e ↦ (s, (mem-cons HandoffReason-discrete s s rs).1 (inl refl), sym e)
  | inr l ↦
      let (r, k, e) = mem-map dec f rs b l in
      (r, (mem-cons HandoffReason-discrete r s rs).1 (inr k), e)
]

module _ {ℓ} {B : Type ℓ} (dec : Discrete B) (rank : B → ℕ) (f : HandoffReason → B) where
  -- The least value over a non-empty list of reasons.
  abbrev least : HandoffReason → List HandoffReason → B
  least r rs = min_from rank (f r) (map f rs)

  least-le :
      (r : HandoffReason) (rs : List HandoffReason) (s : HandoffReason)
      → Listed s (r ∷ rs)
      → rank (least r rs) ≤ rank (f s)
  least-le r rs s k =
      All-map (λ x. rank (least r rs) ≤ rank x) f (r ∷ rs) (min_from-le rank (f r) (map f rs)) s k

  least-attained :
      (r : HandoffReason) (rs : List HandoffReason)
      → (s : HandoffReason) × Listed s (r ∷ rs) × (f s ≡ least r rs)
  least-attained r rs = mem-map dec f (r ∷ rs) _ (min_from-mem rank dec (f r) (map f rs))

-- A case type and a priority that are those of some reasons in `R`, each at least as urgent as those
-- of `r`.
abbrev pub Chosen : (HandoffReason → Type 0) → HandoffReason → HandoffDecision → Type 0
Chosen R r d =
    (case_type : CaseType) × (priority : CasePriority) × (d.should_create_case ≡ true)
    × (d.case_type ≡ some case_type)
    × (d.priority ≡ some priority)
    × (case_type_rank case_type ≤ case_type_rank (reason_policy r).case_type)
    × (priority_rank priority ≤ priority_rank (reason_policy r).priority)
    × ((s : HandoffReason) × R s × ((reason_policy s).case_type ≡ case_type))
    × ((s : HandoffReason) × R s × ((reason_policy s).priority ≡ priority))

decision_for-Chosen :
    (R : HandoffReason → Type 0) (rs : List HandoffReason)
    → ((s : HandoffReason) → R s ↔ Listed s rs)
    → (r : HandoffReason) → R r
    → Chosen R r (decision_for rs)
unfolding decision_for reason_case_type reason_priority
decision_for-Chosen R [] h r k = absurd (let l = (h r).0 k in unfold mem in cc)
decision_for-Chosen R (s ∷ rs) h r k =
    let (x, xl, xe) = least-attained CaseType-discrete case_type_rank reason_case_type s rs in
    let (y, yl, ye) = least-attained CasePriority-discrete priority_rank reason_priority s rs in
    (
      _,
      _,
      refl,
      refl,
      refl,
      least-le CaseType-discrete case_type_rank reason_case_type s rs r ((h r).0 k),
      least-le CasePriority-discrete priority_rank reason_priority s rs r ((h r).0 k),
      (x, (h x).1 xl, xe),
      (y, (h y).1 yl, ye),
    )

deduplicate_reasons-Raises :
    (i : HandoffPolicyInput) (s : HandoffReason)
    → Raises i s ↔ Listed s (deduplicate_reasons (raised_reasons i))
unfolding deduplicate_reasons
deduplicate_reasons-Raises i s =
    rw (mem-unique HandoffReason-discrete s (raised_reasons i))
      (raised_reasons_complete i s, raised_reasons_sound i s)

-- As soon as one reason is raised a case is created; its type and its priority are each at least as
-- urgent as those of the raised reason, and each is that of a raised reason.
pub handoff_most_urgent :
    (i : HandoffPolicyInput) (r : HandoffReason)
    → Raises i r
    → Chosen (Raises i) r (determine_handoff_policy i)
unfolding determine_handoff_policy
handoff_most_urgent i r h =
    decision_for-Chosen (Raises i) (deduplicate_reasons (raised_reasons i))
      (deduplicate_reasons-Raises i) r h

rank_zero_safety : (t : CaseType) → case_type_rank t ≤ 0 → t ≡ safety_review
unfolding case_type_rank
rank_zero_safety t h = ground arith

rank_zero_p0 : (p : CasePriority) → priority_rank p ≤ 0 → p ≡ p0
unfolding priority_rank
rank_zero_p0 p h = ground arith

safe_category :
    (c : SemanticRiskCategory)
    → (c ≡ SemanticRiskCategory.self_harm) ⊎ (c ≡ SemanticRiskCategory.violence)
    → (case_type_rank (reason_policy (hard_reason c)).case_type ≤ 0)
      × (priority_rank (reason_policy (hard_reason c)).priority ≤ 0)
unfolding case_type_rank priority_rank reason_policy hard_reason
safe_category c h = ground arith

-- A hard-critical match on self-harm or violence always makes the case a safety review of priority
-- p0, whatever else the message raises.
pub safety_first :
    (i : HandoffPolicyInput) (c : SemanticRiskCategory)
    → (c ≡ SemanticRiskCategory.self_harm) ⊎ (c ≡ SemanticRiskCategory.violence)
    → mem SemanticRiskCategory-discrete c i.hard_critical_categories ≡ true
    → ((determine_handoff_policy i).case_type ≡ some safety_review)
      × ((determine_handoff_policy i).priority ≡ some p0)
safety_first i c h k =
    let (t, p, _, et, ep, t_le, p_le, _, _) =
      handoff_most_urgent i (hard_reason c) (hard c k refl) in
    let low = safe_category c h in
    (
      rw (← rank_zero_safety t (omega (arith, t_le, low.0))) et,
      rw (← rank_zero_p0 p (omega (arith, p_le, low.1))) ep,
    )
