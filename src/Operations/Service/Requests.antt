-- ===== src/Operations/Service/Requests.antt =====
-- The public methods of `OperationService` (src/agent/operations/service.py) that change operations, as
-- one vocabulary of requests, without `move_to_provider_manual_review`, which calls the coordinator of
-- src/agent/integrations/provider_failure.py.
use langgraph_refund_agent.Base.{String, Option}
use langgraph_refund_agent.Operations.Types.{
  OrderOperationRequest, OrderSnapshot, OperationDecision,
}
use langgraph_refund_agent.Operations.Lifecycle.{OperationRecordStatus}
use langgraph_refund_agent.Operations.Record.{OperationServiceResult}
use langgraph_refund_agent.Operations.Service.World.{Environment, Call}
use langgraph_refund_agent.Operations.Service.Pending.{create_pending_operation}
use langgraph_refund_agent.Operations.Service.Changes.{
  confirm_operation, cancel_pending_operation, update_operation_status,
}
use langgraph_refund_agent.Operations.Service.CaseLink.{attach_support_case}
use langgraph_refund_agent.Operations.Service.Submission.{
  submit_confirmed_operation, queue_confirmed_operation,
}
use langgraph_refund_agent.Auth.{AccessScope}

pub data ServiceRequest : Type 0 where
  create : OrderOperationRequest → OrderSnapshot → OperationDecision → String → ServiceRequest
  confirm : String → String → ServiceRequest
  submit : String → String → ServiceRequest
  queue : String → String → String → ServiceRequest
  cancel : String → String → ServiceRequest
  update_status : String → OperationRecordStatus → String → String → Option String → ServiceRequest
  attach : String → String → String → ServiceRequest

-- The method that a request calls.
unfoldable pub serve : Environment → AccessScope → ServiceRequest → Call OperationServiceResult
unfolding create_pending_operation confirm_operation submit_confirmed_operation
    queue_confirmed_operation cancel_pending_operation update_operation_status attach_support_case
serve env scope (create request snapshot decision excerpt) =
    create_pending_operation env scope request snapshot decision excerpt
serve env scope (confirm id request_id) = confirm_operation env scope id request_id
serve env scope (submit id request_id) = submit_confirmed_operation env scope id request_id
serve env scope (queue id request_id connection_id) =
    queue_confirmed_operation env scope id request_id connection_id
serve env scope (cancel id request_id) = cancel_pending_operation env scope id request_id
serve env scope (update_status id target request_id actor reference) =
    update_operation_status env scope id target request_id actor reference
serve env scope (attach id case_id request_id) = attach_support_case env scope id case_id request_id
