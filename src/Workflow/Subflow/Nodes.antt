-- ===== src/Workflow/Subflow/Nodes.antt =====
-- The nodes before the confirmation: src/agent/nodes/orders.py and src/agent/nodes/operations.py. An
-- exception of pydantic is a `validation_error`.
use langgraph_refund_agent.Base.{
  String, Bool, true, false, not, ◌&&◌, Option, none, some, [], ◌∷◌, is_some, Result, ok, err,
  if◌then◌else◌,
}
use langgraph_refund_agent.Base.Actions.{pure, raise, lift, raise_when, ◌>>=◌, ◌>>◌}
use langgraph_refund_agent.Operations.Types.{
  OperationType, OperationReason, DeliveryIssueType, OperationOutcome, DeliveryOutcome,
  OrderSnapshot, OrderOperationRequest, OperationDecision, DeliveryDecision, aware,
}
use langgraph_refund_agent.Operations.Decisions.{PolicyError}
use langgraph_refund_agent.Operations.Policy.{CurrencyThresholds, evaluate_operation}
use langgraph_refund_agent.Operations.Delivery.{evaluate_delivery_issue}
use langgraph_refund_agent.Operations.Repository.Tables.{
  OperationError, value_error, validation_error,
}
use langgraph_refund_agent.Operations.Service.World.{Environment, Call, validated}
use langgraph_refund_agent.Operations.Service.Submission.{validate_request}
use langgraph_refund_agent.Operations.Service.Pending.{create_pending_operation}
use langgraph_refund_agent.Workflow.Subflow.State.{
  OperationRequestExtraction, extraction_valid, SubflowOutcome, decided, assessed, of_operation,
  SubflowState, OrderDetection, MessageMetadata, SubflowAnswers,
}
use langgraph_refund_agent.Auth.{AccessScope, customer_id}

-- `_THRESHOLDS`, in cents.
abbrev pub thresholds : CurrencyThresholds
thresholds = ("USD", 10000) ∷ []

abbrev no_order : SubflowState → SubflowState
no_order s = record s { order_id = none; last_order_id = none; order_id_valid = false }

-- `detect_order`; `is_order_id` is `ORDER_ID_PATTERN.fullmatch`.
unfoldable pub detect_order :
    (String → Bool) → Bool → Option OrderDetection → SubflowState → SubflowState
detect_order is_order_id references none s = record s { order_id = none; order_id_valid = false }
detect_order is_order_id references (some d) s = elim d.order_id [
  | none ↦
      if is_some s.last_order_id && references
      then record s { order_id = s.last_order_id; order_id_valid = true }
      else no_order s
  | some id ↦
      if not d.has_order_id
      then (if is_some s.last_order_id && references
          then record s { order_id = s.last_order_id; order_id_valid = true }
          else no_order s)
      else if is_order_id id
      then record s { order_id = some id; last_order_id = none; order_id_valid = true }
      else no_order s
]

abbrev no_snapshot : SubflowState → SubflowState
no_snapshot s = record s { snapshot = none; lookup_success = false }

-- `load_operation_snapshot`
unfoldable pub load_operation_snapshot : SubflowAnswers → AccessScope → SubflowState → SubflowState
load_operation_snapshot a scope s = elim s.order_id [
  | none ↦ no_snapshot s
  | some id ↦ elim (customer_id scope) [
    | none ↦ no_snapshot s
    | some customer ↦ elim (a.order_for_customer id customer scope.tenant_id) [
      | none ↦ no_snapshot s
      | some snapshot ↦ record s {
        snapshot = some snapshot;
        lookup_success = true;
        last_order_id = some id;
      }
    ]
  ]
]

-- `extract_operation_request`; no extraction stands for the empty one.
unfoldable pub extract_operation_request : SubflowAnswers → SubflowState → SubflowState
extract_operation_request a s = record s { extraction = a.extraction }

-- A policy raises only what `evaluate_operation` and `evaluate_delivery_issue` check first.
abbrev pub from_policy : {A : Type 0} → Result PolicyError A → Result OperationError A
from_policy (ok a) = ok a
from_policy (err e) = err (value_error "policy input is invalid")

abbrev delivery_is_review : DeliveryOutcome → Bool
delivery_is_review DeliveryOutcome.manual_review = true
delivery_is_review _ = false

abbrev pub outcome_is_persisted : OperationOutcome → Bool
outcome_is_persisted OperationOutcome.eligible = true
outcome_is_persisted OperationOutcome.manual_review = true
outcome_is_persisted _ = false

-- The update that a delivery decision makes.
unfoldable pub respond_to_delivery : SubflowState → DeliveryDecision → SubflowState
respond_to_delivery s d = record s {
  outcome = some (assessed d.outcome);
  policy_reason_codes = d.reason_codes;
  display_reason = d.display_reason;
  domain_case_reason_codes =
      if delivery_is_review d.outcome then d.reason_codes else s.domain_case_reason_codes;
}

-- The fields that `_persist_or_respond` sets from the decision.
abbrev respond_with : SubflowState → OperationDecision → SubflowState
respond_with s d = record s {
  outcome = some (decided d.outcome);
  policy_reason_codes = d.reason_codes;
  display_reason = d.display_reason;
}

module _ (env : Environment) (scope : AccessScope) (a : SubflowAnswers) where
  -- `_persist_or_respond`
  unfoldable pub persist_or_respond :
      SubflowState
      → OrderOperationRequest
      → OrderSnapshot
      → OperationDecision
      → String
      → Call SubflowState
  unfolding create_pending_operation
  persist_or_respond s request snapshot d excerpt =
      if not (outcome_is_persisted d.outcome)
      then pure (respond_with s d)
      else (create_pending_operation env scope request snapshot d excerpt >>= λ result.
          pure (record (respond_with s d) {
            service_action = some result.action;
            operation_id = some result.operation.operation_id;
            operation_status = some (of_operation result.operation.status);
          }))

  -- `get_replacement_availability` is asked for an exchange only.
  abbrev pub availability : OrderOperationRequest → Option Bool
  availability request = elim request.operation_type [
    | OperationType.exchange ↦ a.replacement_availability
    | _ ↦ none
  ]

  -- The request of a customer, or of a caller that is none: `evaluate_operation_request`, for no
  -- delivery issue.
  unfoldable pub evaluate_order_request :
      Option String
      → SubflowState
      → OrderSnapshot
      → MessageMetadata
      → OperationType
      → OperationReason
      → Option String
      → Call SubflowState
  unfolding validate_request evaluate_operation persist_or_respond
  evaluate_order_request none s snapshot m operation_type reason variant = pure (record s {
    outcome = some (decided OperationOutcome.rejected);
    policy_reason_codes = "order_not_found" ∷ [];
    display_reason = "Order not found.";
  })
  evaluate_order_request (some customer) s snapshot m operation_type reason variant =
      lift (
        validated (
          validate_request env.texts record {
            thread_id = m.thread_id;
            source_message_id = m.message_id;
            order_id = snapshot.order_id;
            operation_type = operation_type;
            reason = reason;
            replacement_variant_id = variant;
            customer_id = customer;
            tenant_id = scope.tenant_id;
          }))
      >>= λ request.
          lift (
            from_policy
              (evaluate_operation request snapshot (aware a.now) thresholds (availability request)))
          >>= λ decision. persist_or_respond s request snapshot decision m.excerpt

  -- The delivery issue of a request: `evaluate_operation_request`.
  unfoldable pub evaluate_delivery_request :
      SubflowState → OrderSnapshot → MessageMetadata → DeliveryIssueType → Bool → Call SubflowState
  unfolding evaluate_delivery_issue respond_to_delivery
  evaluate_delivery_request s snapshot m issue asked =
      lift (
        from_policy (
          evaluate_delivery_issue
            (record {
              thread_id = m.thread_id;
              source_message_id = m.message_id;
              order_id = snapshot.order_id;
              issue_type = issue;
              investigation_requested = asked;
            })
            snapshot (aware a.now)))
      >>= λ decision. pure (respond_to_delivery s decision)

  -- `evaluate_operation_request`, by what an extraction that is not ambiguous names.
  unfoldable pub evaluate_extraction :
      Option DeliveryIssueType
      → Option OperationType
      → Option OperationReason
      → SubflowState
      → OperationRequestExtraction
      → OrderSnapshot
      → MessageMetadata
      → Call SubflowState
  unfolding evaluate_delivery_request evaluate_order_request
  evaluate_extraction (some issue) operation_type reason s e snapshot m =
      evaluate_delivery_request s snapshot m issue e.investigation_requested
  evaluate_extraction none (some operation_type) (some reason) s e snapshot m =
      evaluate_order_request (customer_id scope) s snapshot m operation_type reason
        e.replacement_variant_id
  evaluate_extraction none none reason s e snapshot m = raise validation_error
  evaluate_extraction none (some operation_type) none s e snapshot m = raise validation_error

  -- `evaluate_operation_request`, with the snapshot and the metadata of the message.
  unfoldable pub evaluate_loaded :
      Option OrderSnapshot
      → Option MessageMetadata
      → SubflowState
      → OperationRequestExtraction
      → Call SubflowState
  unfolding evaluate_extraction
  evaluate_loaded none m s e = raise (value_error "operation snapshot is unavailable")
  evaluate_loaded (some snapshot) none s e =
      raise (value_error "the operation request has no metadata")
  evaluate_loaded (some snapshot) (some m) s e =
      evaluate_extraction e.delivery_issue_type e.operation_type e.reason s e snapshot m

  unfoldable pub evaluate_extracted :
      Option OperationRequestExtraction → SubflowState → Call SubflowState
  unfolding extraction_valid evaluate_loaded
  evaluate_extracted none s = raise validation_error
  evaluate_extracted (some e) s =
      raise_when (not (extraction_valid e)) validation_error
      >> (if e.ambiguous
          then pure (record s { outcome = some SubflowOutcome.ambiguous })
          else evaluate_loaded s.snapshot a.metadata s e)

  -- `evaluate_operation_request`
  unfoldable pub evaluate_operation_request : SubflowState → Call SubflowState
  unfolding evaluate_extracted
  evaluate_operation_request s = evaluate_extracted s.extraction s
