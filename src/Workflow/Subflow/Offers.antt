-- ===== src/Workflow/Subflow/Offers.antt =====
-- What src/agent/nodes/operations.py asks the customer to confirm.
use mathlib.Core.Path.{subst}
use langgraph_refund_agent.Base.{
  String, ◌≡◌, ◌⊎◌, inl, inr, refl, true, not, Option, none, some, [], Result, ok, err, arith,
}
use langgraph_refund_agent.Base.Actions.{
  Holds, After, Holds-pure, Holds-raise, Holds-bind, Holds-if, Holds-bind-lift, Holds-raise_when,
}
use langgraph_refund_agent.Operations.Types.{
  OperationType, OperationReason, DeliveryIssueType, DeliveryIssueRequest, DeliveryDecision, aware,
  OperationOutcome, DeliveryOutcome, OrderSnapshot, OrderOperationRequest, OperationDecision,
}
use langgraph_refund_agent.Operations.Decisions.{PolicyError}
use langgraph_refund_agent.Operations.Policy.{evaluate_operation}
use langgraph_refund_agent.Operations.Delivery.{evaluate_delivery_issue}
use langgraph_refund_agent.Operations.Record.{OperationServiceResult}
use langgraph_refund_agent.Operations.Repository.Tables.{OperationError}
use langgraph_refund_agent.Operations.Service.World.{Environment, World, Call}
use langgraph_refund_agent.Operations.Service.Pending.{create_pending_operation}
use langgraph_refund_agent.Workflow.Subflow.State.{
  OperationRequestExtraction, SubflowState, SubflowAnswers, MessageMetadata, decided, assessed,
}
use langgraph_refund_agent.Workflow.Subflow.Nodes.{
  thresholds, from_policy, availability, persist_or_respond, evaluate_order_request,
  evaluate_delivery_request, evaluate_extraction, evaluate_loaded, evaluate_extracted,
  evaluate_operation_request, outcome_is_persisted, respond_to_delivery,
}
use langgraph_refund_agent.Workflow.Subflow.Confirmation.{needs_confirmation}
use langgraph_refund_agent.Auth.{AccessScope, customer_id}

-- The policy finds the operation of a request eligible or sends it to a manual review, on the snapshot of
-- the state; the operation asked about is the one that `create_pending_operation` returns for that
-- request and that decision, a new one or one that it met; and the outcome and the reasons in the state
-- are those of the decision.
pub record IsOperationOffered (env : Environment) (scope : AccessScope) (a : SubflowAnswers)
    (s t : SubflowState) : Type 0 where
  pub request : OrderOperationRequest
  pub snapshot : OrderSnapshot
  pub decision : OperationDecision
  pub excerpt : String
  pub result : OperationServiceResult
  pub before : World
  pub after : World
  pub of_state : s.snapshot ≡ some snapshot
  pub by_policy :
      evaluate_operation request snapshot
        (aware a.now)
        thresholds
        (availability env scope a request)
      ≡ ok decision
  pub offers :
      (decision.outcome ≡ OperationOutcome.eligible)
      ⊎ (decision.outcome ≡ OperationOutcome.manual_review)
  pub kept :
      create_pending_operation env scope request snapshot decision excerpt before
      ≡ (ok result, after)
  pub outcome_is : t.outcome ≡ some (decided decision.outcome)
  pub reasons_are : t.policy_reason_codes ≡ decision.reason_codes
  pub operation_is : t.operation_id ≡ some result.operation.operation_id

-- The delivery policy sends an issue to a manual review, on the snapshot of the state; there is no
-- operation, and the outcome and the reasons in the state are those of the decision.
pub record IsDeliveryOffered (a : SubflowAnswers) (s t : SubflowState) : Type 0 where
  pub request : DeliveryIssueRequest
  pub snapshot : OrderSnapshot
  pub decision : DeliveryDecision
  pub of_state : s.snapshot ≡ some snapshot
  pub by_policy : evaluate_delivery_issue request snapshot (aware a.now) ≡ ok decision
  pub is_review : decision.outcome ≡ DeliveryOutcome.manual_review
  pub outcome_is : t.outcome ≡ some (assessed decision.outcome)
  pub reasons_are : t.domain_case_reason_codes ≡ decision.reason_codes
  pub no_operation : t.operation_id ≡ none

abbrev pub IsOffered :
    Environment → AccessScope → SubflowAnswers → SubflowState → SubflowState → Type 0
IsOffered env scope a s t = IsOperationOffered env scope a s t ⊎ IsDeliveryOffered a s t

abbrev Always : World → Type 0
Always w = Unit

-- What a call returned, from some world.
abbrev ReturnedBy : {A : Type 0} → Call A → A → World → Type 0
ReturnedBy m a after = (before : World) × (m before ≡ (ok a, after))

ran :
    {A : Type 0} (m : Call A) (w : World) (r : Result OperationError A × World)
    → m w ≡ r
    → After Always (ReturnedBy m) r
ran m w (ok a, v) e = (tt, (w, e))
ran m w (err x, v) e = tt

Holds-ran : {A : Type 0} (m : Call A) → Holds Always Always m (ReturnedBy m)
Holds-ran m = record { at = λ w i p. ran m w (m w) refl }

policy_returned : {A : Type 0} (r : Result PolicyError A) (d : A) → from_policy r ≡ ok d → r ≡ ok d
policy_returned (ok x) d h = ground arith
policy_returned (err x) d h = ground arith

module _ (env : Environment) (scope : AccessScope) (a : SubflowAnswers) (s : SubflowState)
    (fresh : s.operation_id ≡ none) (no_codes : s.domain_case_reason_codes ≡ []) where
  abbrev Offers : SubflowState → World → Type 0
  Offers t w = needs_confirmation t ≡ true → IsOffered env scope a s t

  Offers-persist_or_respond :
      (request : OrderOperationRequest) (snapshot : OrderSnapshot) (d : OperationDecision)
      (excerpt : String)
      → s.snapshot ≡ some snapshot
      → evaluate_operation request snapshot
          (aware a.now)
          thresholds
          (availability env scope a request)
        ≡ ok d
      → Holds Always Always (persist_or_respond env scope a s request snapshot d excerpt) Offers
  unfolding persist_or_respond needs_confirmation
  Offers-persist_or_respond request snapshot d excerpt here policy =
      Holds-if (not (outcome_is_persisted d.outcome))
        (λ _. Holds-pure _ (λ w i p h. ground (arith, fresh, no_codes)))
        (λ persisted.
          Holds-bind _ (Holds-ran (create_pending_operation env scope request snapshot d excerpt))
            λ result. Holds-pure _ (λ w i p h. inl (record {
              request = request;
              snapshot = snapshot;
              decision = d;
              excerpt = excerpt;
              result = result;
              before = p.0;
              after = w;
              of_state = here;
              by_policy = policy;
              offers = ground (arith, persisted);
              kept = p.1;
              outcome_is = refl;
              reasons_are = refl;
              operation_is = refl;
            })))

  Offers-evaluate_order_request :
      (customer : Option String) (snapshot : OrderSnapshot) (m : MessageMetadata)
      (o : OperationType) (r : OperationReason) (variant : Option String)
      → s.snapshot ≡ some snapshot
      → Holds Always Always
          (evaluate_order_request env scope a customer s snapshot m o r variant)
          Offers
  unfolding evaluate_order_request needs_confirmation
  Offers-evaluate_order_request none snapshot m o r variant here =
      Holds-pure _ (λ w i p h. ground (arith, fresh, no_codes))
  Offers-evaluate_order_request (some c) snapshot m o r variant here =
      Holds-bind-lift _ λ request _. Holds-bind-lift _ λ decision e.
        Offers-persist_or_respond request snapshot decision m.excerpt here
          (policy_returned _ decision e)

  Offers-respond_to_delivery :
      (request : DeliveryIssueRequest) (snapshot : OrderSnapshot) (d : DeliveryDecision)
      → s.snapshot ≡ some snapshot
      → evaluate_delivery_issue request snapshot (aware a.now) ≡ ok d
      → needs_confirmation (respond_to_delivery s d) ≡ true
      → IsDeliveryOffered a s (respond_to_delivery s d)
  unfolding respond_to_delivery needs_confirmation
  Offers-respond_to_delivery request snapshot d here policy h =
      let review : d.outcome ≡ DeliveryOutcome.manual_review = ground (arith, fresh, no_codes) in
      record {
        request = request;
        snapshot = snapshot;
        decision = d;
        of_state = here;
        by_policy = policy;
        is_review = review;
        outcome_is = refl;
        reasons_are = ground (arith, review);
        no_operation = fresh;
      }

  Offers-evaluate_extraction :
      (issue : Option DeliveryIssueType) (o : Option OperationType) (r : Option OperationReason)
      (e : OperationRequestExtraction) (snapshot : OrderSnapshot) (m : MessageMetadata)
      → s.snapshot ≡ some snapshot
      → Holds Always Always (evaluate_extraction env scope a issue o r s e snapshot m) Offers
  unfolding evaluate_extraction evaluate_delivery_request
  Offers-evaluate_extraction (some issue) o r e snapshot m here =
      Holds-bind-lift _ λ decision policy. Holds-pure _ (λ w i p h. inr (
        Offers-respond_to_delivery
          (record {
            thread_id = m.thread_id;
            source_message_id = m.message_id;
            order_id = snapshot.order_id;
            issue_type = issue;
            investigation_requested = e.investigation_requested;
          })
          snapshot decision here (policy_returned _ decision policy) h))
  Offers-evaluate_extraction none (some o) (some r) e snapshot m here =
      Offers-evaluate_order_request (customer_id scope) snapshot m o r e.replacement_variant_id here
  Offers-evaluate_extraction none none r e snapshot m here = Holds-raise _
  Offers-evaluate_extraction none (some o) none e snapshot m here = Holds-raise _

  Offers-evaluate_loaded :
      (snapshot : Option OrderSnapshot) (m : Option MessageMetadata)
      (e : OperationRequestExtraction)
      → s.snapshot ≡ snapshot
      → Holds Always Always (evaluate_loaded env scope a snapshot m s e) Offers
  unfolding evaluate_loaded
  Offers-evaluate_loaded none m e here = Holds-raise _
  Offers-evaluate_loaded (some snapshot) none e here = Holds-raise _
  Offers-evaluate_loaded (some snapshot) (some m) e here =
      Offers-evaluate_extraction e.delivery_issue_type e.operation_type e.reason e snapshot m here

  Offers-evaluate_extracted :
      (e : Option OperationRequestExtraction)
      → Holds Always Always (evaluate_extracted env scope a e s) Offers
  unfolding evaluate_extracted needs_confirmation
  Offers-evaluate_extracted none = Holds-raise _
  Offers-evaluate_extracted (some e) = Holds-raise_when _ _ λ _.
      Holds-if e.ambiguous (λ _. Holds-pure _ (λ w i p h. ground (arith, fresh, no_codes)))
        (λ _. Offers-evaluate_loaded s.snapshot a.metadata e refl)

  offered :
      (r : Result OperationError SubflowState × World) (t : SubflowState)
      → After Always Offers r
      → r.0 ≡ ok t
      → needs_confirmation t ≡ true
      → IsOffered env scope a s t
  offered (ok b, w) t (i, q) e =
      subst (λ b. needs_confirmation b ≡ true → IsOffered env scope a s b) (cc) q
  offered (err x, w) t i e = absurd (cc)

-- In a turn that begins with no operation and no case reasons, the node that evaluates the request leads
-- to the confirmation only in two ways, both on the snapshot in the state. Either the policy finds the
-- operation of a request eligible or sends it to a manual review, the state has the outcome and the
-- reasons of that decision, and its operation is the one that `create_pending_operation` returned for the
-- request and the decision; or the delivery policy sends an issue to a manual review, the state has the
-- outcome and the reasons of that decision, and no operation.
pub asks_only-IsOffered :
    (env : Environment) (scope : AccessScope) (a : SubflowAnswers) (s t : SubflowState) (w : World)
    → s.operation_id ≡ none
    → s.domain_case_reason_codes ≡ []
    → (evaluate_operation_request env scope a s w).0 ≡ ok t
    → needs_confirmation t ≡ true
    → IsOffered env scope a s t
unfolding evaluate_operation_request
asks_only-IsOffered env scope a s t w fresh no_codes e h =
    offered env scope a s fresh no_codes (evaluate_operation_request env scope a s w) t
      ((Offers-evaluate_extracted env scope a s fresh no_codes s.extraction).at w tt tt) e h
