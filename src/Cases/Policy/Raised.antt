-- ===== src/Cases/Policy/Raised.antt =====
-- Which reasons `determine_handoff_policy` collects.
use langgraph_refund_agent.Base.{
  ◌≡◌, ◌↔◌, ◌⊎◌, refl, inl, inr, Bool, true, false, Option, none, some, List, [], ◌∷◌, ◌++◌, ◌||◌,
  arith, mem, mem-append, mem-cons, mem-unique, Distinct, unique-Distinct, Bool-cases,
}
use langgraph_refund_agent.Cases.Types.{
  SemanticRiskLevel, SemanticRiskCategory, StaffComplaintSeverity, HandoffReason,
  HandoffPolicyInput,
}
use langgraph_refund_agent.Cases.Reasons.{
  hard_reason, critical_reason, high_reason, medium_reason, staff_reason,
}
use langgraph_refund_agent.Cases.Policy.{
  HandoffReason-discrete, SemanticRiskCategory-discrete, risk_category_order, reasons_for,
  semantic_reasons, staff_reasons, reason_if, raised_reasons, deduplicate_reasons, decision_for,
  determine_handoff_policy,
}

abbrev Listed : HandoffReason → List HandoffReason → Type 0
Listed r rs = mem HandoffReason-discrete r rs ≡ true

abbrev Has : List SemanticRiskCategory → SemanticRiskCategory → Type 0
Has categories c = mem SemanticRiskCategory-discrete c categories ≡ true

-- The facts that call for a reason, each by itself.
pub data Raises (i : HandoffPolicyInput) (r : HandoffReason) : Type 0 where
  hard :
      (c : SemanticRiskCategory) → Has i.hard_critical_categories c → r ≡ hard_reason c → Raises i r
  critical :
      (c : SemanticRiskCategory)
      → i.semantic_risk_level ≡ some SemanticRiskLevel.critical
      → Has i.semantic_risk_categories c
      → r ≡ critical_reason c
      → Raises i r
  high :
      (c : SemanticRiskCategory)
      → i.semantic_risk_level ≡ some SemanticRiskLevel.high
      → Has i.semantic_risk_categories c
      → r ≡ high_reason c
      → Raises i r
  medium :
      (c : SemanticRiskCategory)
      → i.semantic_risk_level ≡ some SemanticRiskLevel.medium
      → Has i.semantic_risk_categories c
      → r ≡ medium_reason c
      → Raises i r
  staff :
      (s : StaffComplaintSeverity)
      → i.staff_complaint_severity ≡ some s
      → r ≡ staff_reason s
      → Raises i r
  refund :
      i.refund_requires_manual_review ≡ true → r ≡ HandoffReason.refund_manual_review → Raises i r
  human : i.human_handoff_confirmed ≡ true → r ≡ HandoffReason.confirmed_human_request → Raises i r
  complaint :
      i.explicit_other_complaint ≡ true → r ≡ HandoffReason.explicit_other_complaint → Raises i r
  domain : Listed r i.domain_case_reason_codes → Raises i r

-- A reason that the loop over `order` adds comes from a category of both lists, and each such
-- category adds its reason.
abbrev FromCategory :
    (SemanticRiskCategory → HandoffReason) → List SemanticRiskCategory → HandoffReason → Type 0
FromCategory reason categories r = (c : SemanticRiskCategory) × Has categories c × (r ≡ reason c)

reasons_for_sound :
    (reason : SemanticRiskCategory → HandoffReason) (order categories : List SemanticRiskCategory)
    (r : HandoffReason)
    → Listed r (reasons_for reason order categories)
    → FromCategory reason categories r
unfolding reasons_for
reasons_for_sound reason [] categories r h = absurd (unfold mem in cc)
reasons_for_sound reason (c ∷ order) categories r h =
    elim (Bool-cases (mem SemanticRiskCategory-discrete c categories)) [
      | inl e ↦
          elim ((mem-cons HandoffReason-discrete r (reason c)
              (reasons_for reason order categories)).0
            (rw e at h)) [
              | inl p ↦ (c, e, p)
              | inr q ↦ reasons_for_sound reason order categories r q
            ]
      | inr e ↦ reasons_for_sound reason order categories r (rw e at h)
    ]

reasons_for_complete :
    (reason : SemanticRiskCategory → HandoffReason) (order categories : List SemanticRiskCategory)
    (c : SemanticRiskCategory)
    → Has order c
    → Has categories c
    → Listed (reason c) (reasons_for reason order categories)
unfolding reasons_for
reasons_for_complete reason [] categories c h k = absurd (unfold mem in cc)
reasons_for_complete reason (d ∷ order) categories c h k = ground (
  arith,
  mem-cons SemanticRiskCategory-discrete c d order,
  mem-cons HandoffReason-discrete (reason c) (reason d) (reasons_for reason order categories),
  reasons_for_complete reason order categories c,
)

every_category : (c : SemanticRiskCategory) → Has risk_category_order c
unfolding mem SemanticRiskCategory-discrete
every_category SemanticRiskCategory.self_harm = refl
every_category _ = refl

Listed-append :
    (r : HandoffReason) (xs ys : List HandoffReason)
    → Listed r (xs ++ ys) ↔ (Listed r xs ⊎ Listed r ys)
Listed-append r xs ys = ground (arith, mem-append HandoffReason-discrete r xs ys)

not-Listed-nil : (r : HandoffReason) → ¬ Listed r []
unfolding mem
not-Listed-nil r h = cc

Listed-one : (r s : HandoffReason) → Listed r (s ∷ []) ↔ (r ≡ s)
Listed-one r s = ground (arith, mem-cons HandoffReason-discrete r s [], not-Listed-nil r)

module _ (i : HandoffPolicyInput) (r : HandoffReason) where
  semantic_reasons_sound :
      (level : Option SemanticRiskLevel)
      → i.semantic_risk_level ≡ level
      → Listed r (semantic_reasons level i.semantic_risk_categories)
      → Raises i r
  unfolding semantic_reasons
  semantic_reasons_sound (some SemanticRiskLevel.critical) e h =
      let (c, k, p) = reasons_for_sound critical_reason risk_category_order _ r h in
      Raises.critical c e k p
  semantic_reasons_sound (some SemanticRiskLevel.high) e h =
      let (c, k, p) = reasons_for_sound high_reason risk_category_order _ r h in Raises.high c e k p
  semantic_reasons_sound (some SemanticRiskLevel.medium) e h =
      let (c, k, p) = reasons_for_sound medium_reason risk_category_order _ r h in
      Raises.medium c e k p
  semantic_reasons_sound _ e h = absurd (not-Listed-nil r h)

  staff_reasons_sound :
      (severity : Option StaffComplaintSeverity)
      → i.staff_complaint_severity ≡ severity
      → Listed r (staff_reasons severity)
      → Raises i r
  unfolding staff_reasons
  staff_reasons_sound none e h = absurd (not-Listed-nil r h)
  staff_reasons_sound (some s) e h = staff s e ((Listed-one r (staff_reason s)).0 h)

  reason_if_sound : (b : Bool) (s : HandoffReason) → Listed r (reason_if b s) → (b ≡ true) × (r ≡ s)
  unfolding reason_if
  reason_if_sound true s h = (refl, (Listed-one r s).0 h)
  reason_if_sound false s h = absurd (not-Listed-nil r h)

  pub raised_reasons_sound : Listed r (raised_reasons i) → Raises i r
  unfolding raised_reasons
  raised_reasons_sound h = elim ((Listed-append r _ _).0 h) [
    | inl a ↦ let (c, k, p) = reasons_for_sound hard_reason risk_category_order _ r a in hard c k p
    | inr h1 ↦ elim ((Listed-append r _ _).0 h1) [
      | inl a ↦ semantic_reasons_sound i.semantic_risk_level refl a
      | inr h2 ↦ elim ((Listed-append r _ _).0 h2) [
        | inl a ↦ staff_reasons_sound i.staff_complaint_severity refl a
        | inr h3 ↦ flags h3
      ]
    ]
  ]
    where
      flags :
          Listed r (
            reason_if i.refund_requires_manual_review HandoffReason.refund_manual_review
            ++ (reason_if i.human_handoff_confirmed HandoffReason.confirmed_human_request
                ++ (reason_if i.explicit_other_complaint HandoffReason.explicit_other_complaint
                    ++ i.domain_case_reason_codes)))
          → Raises i r
      flags h = elim ((Listed-append r _ _).0 h) [
        | inl a ↦ let (b, p) = reason_if_sound _ _ a in refund b p
        | inr h1 ↦ elim ((Listed-append r _ _).0 h1) [
          | inl a ↦ let (b, p) = reason_if_sound _ _ a in human b p
          | inr h2 ↦ elim ((Listed-append r _ _).0 h2) [
            | inl a ↦ let (b, p) = reason_if_sound _ _ a in complaint b p
            | inr a ↦ domain a
          ]
        ]
      ]

  abbrev semantic : List HandoffReason
  semantic = semantic_reasons i.semantic_risk_level i.semantic_risk_categories

  abbrev is_in : List HandoffReason → Bool
  is_in = mem HandoffReason-discrete r

  mem-raised_reasons : mem HandoffReason-discrete r (raised_reasons i) ≡ (
      is_in (reasons_for hard_reason risk_category_order i.hard_critical_categories)
      || (is_in semantic
          || (is_in (staff_reasons i.staff_complaint_severity)
              || (is_in
                    (reason_if i.refund_requires_manual_review HandoffReason.refund_manual_review)
                  || (is_in
                        (reason_if i.human_handoff_confirmed HandoffReason.confirmed_human_request)
                      || (is_in (
                            reason_if i.explicit_other_complaint
                              HandoffReason.explicit_other_complaint)
                          || is_in i.domain_case_reason_codes))))))
  unfolding raised_reasons
  mem-raised_reasons = simp (mem-append HandoffReason-discrete)

  category_reason :
      (reason : SemanticRiskCategory → HandoffReason) (categories : List SemanticRiskCategory)
      (c : SemanticRiskCategory)
      → Has categories c
      → r ≡ reason c
      → Listed r (reasons_for reason risk_category_order categories)
  category_reason reason categories c k p =
      rw p (reasons_for_complete reason risk_category_order categories c (every_category c) k)

  reason_if_complete : (b : Bool) (s : HandoffReason) → b ≡ true → r ≡ s → Listed r (reason_if b s)
  unfolding reason_if
  reason_if_complete b s e p = rw e ((Listed-one r s).1 p)

  pub raised_reasons_complete : Raises i r → Listed r (raised_reasons i)
  unfolding semantic_reasons staff_reasons
  raised_reasons_complete (hard c k p) =
      ground (arith, mem-raised_reasons, category_reason hard_reason _ c k p)
  raised_reasons_complete (Raises.critical c e k p) =
      let h : Listed r semantic =
        rw (e, semantic_reasons) (category_reason critical_reason _ c k p) in
      ground (arith, mem-raised_reasons)
  raised_reasons_complete (Raises.high c e k p) =
      let h : Listed r semantic = rw (e, semantic_reasons) (category_reason high_reason _ c k p) in
      ground (arith, mem-raised_reasons)
  raised_reasons_complete (Raises.medium c e k p) =
      let h : Listed r semantic =
        rw (e, semantic_reasons) (category_reason medium_reason _ c k p) in
      ground (arith, mem-raised_reasons)
  raised_reasons_complete (staff s e p) =
      let h : Listed r (staff_reasons i.staff_complaint_severity) =
        rw (e, staff_reasons) ((Listed-one r (staff_reason s)).1 p) in
      ground (arith, mem-raised_reasons)
  raised_reasons_complete (refund e p) =
      ground (arith, mem-raised_reasons, reason_if_complete _ _ e p)
  raised_reasons_complete (human e p) =
      ground (arith, mem-raised_reasons, reason_if_complete _ _ e p)
  raised_reasons_complete (complaint e p) =
      ground (arith, mem-raised_reasons, reason_if_complete _ _ e p)
  raised_reasons_complete (domain h) = ground (arith, mem-raised_reasons)

decision_for-reason_codes : (rs : List HandoffReason) → (decision_for rs).reason_codes ≡ rs
unfolding decision_for
decision_for-reason_codes [] = refl
decision_for-reason_codes (r ∷ rs) = refl

-- The decision lists exactly the reasons that some fact of the input calls for (a hard-critical
-- category, a category at a medium, high or critical level, a staff complaint, a flag, or a domain
-- reason code), and lists none twice.
pub handoff_reasons_iff :
    (i : HandoffPolicyInput) (r : HandoffReason)
    → ((mem HandoffReason-discrete r (determine_handoff_policy i).reason_codes ≡ true) ↔ Raises i r)
      × Distinct HandoffReason-discrete (determine_handoff_policy i).reason_codes
unfolding determine_handoff_policy deduplicate_reasons
handoff_reasons_iff i r = rw (decision_for-reason_codes (deduplicate_reasons (raised_reasons i))) (
  rw (mem-unique HandoffReason-discrete r (raised_reasons i))
      (raised_reasons_sound i r, raised_reasons_complete i r),
  unique-Distinct HandoffReason-discrete (raised_reasons i),
)
