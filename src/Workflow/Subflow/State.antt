-- ===== src/Workflow/Subflow/State.antt =====
-- The state of the subflow of src/agent/nodes/operations.py, and what it asks others for.
use langgraph_refund_agent.Base.{
  ℕ, String, Bool, true, false, ◌&&◌, Option, some, List, is_none, is_some, if◌then◌else◌,
}
use langgraph_refund_agent.Operations.Types.{
  OperationType, OperationReason, DeliveryIssueType, OperationOutcome, DeliveryOutcome,
  OrderSnapshot,
}
use langgraph_refund_agent.Operations.Lifecycle.{OperationRecordStatus}
use langgraph_refund_agent.Operations.Record.{OperationServiceAction, OrderOperation}
use langgraph_refund_agent.Operations.Service.World.{Call}

pub record OperationRequestExtraction : Type 0 where
  pub operation_type : Option OperationType
  pub reason : Option OperationReason
  pub delivery_issue_type : Option DeliveryIssueType
  pub replacement_variant_id : Option String
  pub investigation_requested : Bool
  pub ambiguous : Bool

abbrev is_exchange : Option OperationType → Bool
is_exchange (some OperationType.exchange) = true
is_exchange _ = false

-- `OperationRequestExtraction.validate_shape`: false where it raises.
unfoldable pub extraction_valid : OperationRequestExtraction → Bool
extraction_valid e =
    if e.ambiguous
    then is_none e.operation_type
      && is_none e.reason
      && is_none e.delivery_issue_type
      && is_none e.replacement_variant_id
    else if is_some e.delivery_issue_type
    then is_none e.operation_type && is_none e.reason
    else is_some e.operation_type
      && is_some e.reason
      && (if is_exchange e.operation_type
          then is_some e.replacement_variant_id
          else is_none e.replacement_variant_id)

-- The values of `operation_outcome`.
pub data SubflowOutcome : Type 0 where
  ambiguous : SubflowOutcome
  decided : OperationOutcome → SubflowOutcome
  assessed : DeliveryOutcome → SubflowOutcome

-- The values of `operation_status`: that of an operation, or "cancelled" of a declined investigation.
pub data SubflowStatus : Type 0 where
  of_operation : OperationRecordStatus → SubflowStatus
  investigation_cancelled : SubflowStatus

-- The fields of `RefundState` that the subflow reads or changes, without the messages.
pub record SubflowState : Type 0 where
  pub order_id : Option String
  pub last_order_id : Option String
  pub order_id_valid : Bool
  pub snapshot : Option OrderSnapshot
  pub lookup_success : Bool
  pub extraction : Option OperationRequestExtraction
  pub outcome : Option SubflowOutcome
  pub policy_reason_codes : List String
  pub display_reason : String
  pub domain_case_reason_codes : List String
  pub operation_id : Option String
  pub operation_status : Option SubflowStatus
  pub service_action : Option OperationServiceAction
  pub provider_reference : Option String
  pub provider_failure_case_persisted : Bool

-- What the customer answers to the question: the two that the node accepts, or something else.
pub data ConfirmationAnswer : Type 0 where
  yes_submit no_cancel something_else : ConfirmationAnswer

-- What the order detector finds: `has_order_id`, and `order_id` without blanks and in capitals, if there
-- is one.
pub record OrderDetection : Type 0 where
  pub has_order_id : Bool
  pub order_id : Option String

-- The thread, the message and the excerpt of the request.
pub record MessageMetadata : Type 0 where
  pub thread_id : String
  pub message_id : String
  pub excerpt : String

-- What the language models, the order system, the resolver of connections, the clock and the customer
-- answer. Where there is no text message, there is no detection and no extraction; metadata that cannot
-- be built is missing. `fallback` is `move_to_provider_manual_review` of the service.
pub record SubflowAnswers : Type 0 where
  pub detection : Option OrderDetection
  pub references_previous : Bool
  pub order_for_customer : String → String → String → Option OrderSnapshot
  pub extraction : Option OperationRequestExtraction
  pub metadata : Option MessageMetadata
  pub now : ℕ
  pub replacement_availability : Option Bool
  pub confirmation : ConfirmationAnswer
  pub connection_id : Option String
  pub fallback : String → String → Call OrderOperation
