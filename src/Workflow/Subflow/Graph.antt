-- ===== src/Workflow/Subflow/Graph.antt =====
-- What the subflow of src/agent/nodes/operations.py sends without the customer's yes.

use langgraph_refund_agent.Base.{
  ℕ, String, ◌≡◌, ◌≢◌, refl, Bool, true, false, not, Option, none, some, List, is_none,
  if◌then◌else◌,
}
use langgraph_refund_agent.Base.Actions.{
  Keeps, Keeps-bind, Keeps-lift, Keeps-pure, Keeps-raise, Keeps-if, Keeps-raise_when, pure, ◌>>=◌,
}
use langgraph_refund_agent.Operations.Types.{
  OperationType, OperationReason, DeliveryIssueType, OrderSnapshot, OrderOperationRequest,
  OperationDecision,
}
use langgraph_refund_agent.Operations.Repository.Tables.{Database}
use langgraph_refund_agent.Operations.Service.World.{Environment, World, Call}
use langgraph_refund_agent.Operations.Service.Outbox.{
  Holding, Keeps-cancel_pending_operation, Keeps-create_pending_operation,
}
use langgraph_refund_agent.Integrations.Commands.{ProviderCommandEnvelope}
use langgraph_refund_agent.Workflow.Subflow.State.{
  OperationRequestExtraction, SubflowState, SubflowAnswers, MessageMetadata, ConfirmationAnswer,
  yes_submit, no_cancel, something_else,
}
use langgraph_refund_agent.Workflow.Subflow.Nodes.{
  detect_order, load_operation_snapshot, extract_operation_request, persist_or_respond,
  evaluate_order_request, evaluate_delivery_request, evaluate_extraction, evaluate_loaded,
  evaluate_extracted, evaluate_operation_request,
}
use langgraph_refund_agent.Workflow.Subflow.Confirmation.{
  needs_confirmation, confirm_destination, with_operation_id, cancel_node, act, act_if_any,
  cancel_operation, cancel_delivery_investigation, confirm_and_act, operation_subflow,
}
use langgraph_refund_agent.Auth.{AccessScope, customer_id}

module _ (env : Environment) (cs : List ProviderCommandEnvelope)
    (others_keep : (n : ℕ) (d : Database) → (env.others n d).commands ≡ d.commands)
    (scope : AccessScope) (a : SubflowAnswers) where
  abbrev KeepsOutbox : {A : Type 0} → Call A → Type 0
  KeepsOutbox m = Keeps (Holding env cs) m

  Keeps-persist_or_respond :
      (s : SubflowState) (request : OrderOperationRequest) (snapshot : OrderSnapshot)
      (d : OperationDecision) (excerpt : String)
      → KeepsOutbox (persist_or_respond env scope a s request snapshot d excerpt)
  unfolding persist_or_respond
  Keeps-persist_or_respond s request snapshot d excerpt = Keeps-if _ _ _ (Keeps-pure _) (
      Keeps-bind _ _
        (Keeps-create_pending_operation env cs others_keep scope request snapshot d excerpt)
        λ result. Keeps-pure _)

  Keeps-evaluate_order_request :
      (customer : Option String) (s : SubflowState) (snapshot : OrderSnapshot) (m : MessageMetadata)
      (t : OperationType) (r : OperationReason) (variant : Option String)
      → KeepsOutbox (evaluate_order_request env scope a customer s snapshot m t r variant)
  unfolding evaluate_order_request
  Keeps-evaluate_order_request none s snapshot m t r variant = Keeps-pure _
  Keeps-evaluate_order_request (some customer) s snapshot m t r variant =
      Keeps-bind _ _ (Keeps-lift _) λ request.
        Keeps-bind _ _ (Keeps-lift _)
          λ decision. Keeps-persist_or_respond s request snapshot decision m.excerpt

  Keeps-evaluate_extraction :
      (issue : Option DeliveryIssueType) (t : Option OperationType) (r : Option OperationReason)
      (s : SubflowState) (e : OperationRequestExtraction) (snapshot : OrderSnapshot)
      (m : MessageMetadata)
      → KeepsOutbox (evaluate_extraction env scope a issue t r s e snapshot m)
  unfolding evaluate_extraction evaluate_delivery_request
  Keeps-evaluate_extraction (some issue) t r s e snapshot m =
      Keeps-bind _ _ (Keeps-lift _) λ decision. Keeps-pure _
  Keeps-evaluate_extraction none (some t) (some r) s e snapshot m =
      Keeps-evaluate_order_request (customer_id scope) s snapshot m t r e.replacement_variant_id
  Keeps-evaluate_extraction none none r s e snapshot m = Keeps-raise _
  Keeps-evaluate_extraction none (some t) none s e snapshot m = Keeps-raise _

  Keeps-evaluate_loaded :
      (snapshot : Option OrderSnapshot) (m : Option MessageMetadata) (s : SubflowState)
      (e : OperationRequestExtraction)
      → KeepsOutbox (evaluate_loaded env scope a snapshot m s e)
  unfolding evaluate_loaded
  Keeps-evaluate_loaded none m s e = Keeps-raise _
  Keeps-evaluate_loaded (some snapshot) none s e = Keeps-raise _
  Keeps-evaluate_loaded (some snapshot) (some m) s e =
      Keeps-evaluate_extraction e.delivery_issue_type e.operation_type e.reason s e snapshot m

  Keeps-evaluate_extracted :
      (e : Option OperationRequestExtraction) (s : SubflowState)
      → KeepsOutbox (evaluate_extracted env scope a e s)
  unfolding evaluate_extracted
  Keeps-evaluate_extracted none s = Keeps-raise _
  Keeps-evaluate_extracted (some e) s =
      Keeps-bind _ _ (Keeps-raise_when _ _)
        λ _. Keeps-if _ _ _ (Keeps-pure _) (Keeps-evaluate_loaded s.snapshot a.metadata s e)

  Keeps-cancel_node :
      (id : Option String) (s : SubflowState)
      → s.operation_id ≡ id
      → KeepsOutbox (cancel_node env scope a s)
  unfolding cancel_node with_operation_id
  Keeps-cancel_node none s e = rw e (Keeps-raise _)
  Keeps-cancel_node (some id) s e = rw e (
      Keeps-bind _ _ (Keeps-cancel_pending_operation env cs others_keep scope id _)
        λ result. Keeps-pure _)

  Keeps-declined :
      (b : Bool) (s : SubflowState)
      → KeepsOutbox
          (act env scope a (if b then cancel_delivery_investigation else cancel_operation) s)
  unfolding act
  Keeps-declined true s = Keeps-pure _
  Keeps-declined false s = Keeps-cancel_node s.operation_id s refl

  Keeps-confirm_and_act :
      (answer : ConfirmationAnswer) (s : SubflowState)
      → answer ≢ yes_submit
      → KeepsOutbox (act_if_any env scope a s (confirm_destination s answer))
  unfolding act_if_any confirm_destination
  Keeps-confirm_and_act yes_submit s h = absurd (h refl)
  Keeps-confirm_and_act no_cancel s h = Keeps-declined (is_none s.operation_id) s
  Keeps-confirm_and_act something_else s h = Keeps-raise _

  Keeps-operation_subflow :
      (is_order_id : String → Bool) (start : SubflowState)
      → a.confirmation ≢ yes_submit
      → KeepsOutbox (operation_subflow env scope a is_order_id start)
  unfolding operation_subflow evaluate_operation_request confirm_and_act
  Keeps-operation_subflow is_order_id start h =
      let detected = detect_order is_order_id a.references_previous a.detection start in
      let loaded = load_operation_snapshot a scope detected in
      let extracted = extract_operation_request a loaded in
      let decide : Keeps (Holding env cs) (
          evaluate_extracted env scope a extracted.extraction extracted >>= λ s.
          if needs_confirmation s then confirm_and_act env scope a s else pure s) =
        Keeps-bind _ _ (Keeps-evaluate_extracted extracted.extraction extracted) λ s.
          Keeps-if (needs_confirmation s) _ (pure s) (Keeps-confirm_and_act a.confirmation s h)
            (Keeps-pure s) in
      Keeps-if (is_none detected.order_id) (pure detected) _ (Keeps-pure detected)
        (Keeps-if (not loaded.lookup_success) (pure loaded) _ (Keeps-pure loaded) decide)

-- A run of the subflow in which the customer does not answer yes leaves the outbox as it was, whether it
-- returns or raises, where other processes leave it too.
pub no_command_without_yes :
    (env : Environment) (scope : AccessScope) (a : SubflowAnswers) (is_order_id : String → Bool)
    (start : SubflowState) (w : World)
    → ((n : ℕ) (d : Database) → (env.others n d).commands ≡ d.commands)
    → a.confirmation ≢ yes_submit
    → (operation_subflow env scope a is_order_id start w).1.database.commands ≡ w.database.commands
no_command_without_yes env scope a is_order_id start w others_keep h =
    (Keeps-operation_subflow env w.database.commands others_keep scope a is_order_id start h).at w
      refl
