-- ===== src/Workflow/Subflow/Confirmation.antt =====
-- The confirmation, the nodes that follow it, and the child graph of src/agent/nodes/operations.py.
use langgraph_refund_agent.Base.{
  String, str_eq, str_append, Bool, true, false, not, ◌&&◌, ◌||◌, Option, none, some, List, [],
  is_none, is_some, is_empty, any, if◌then◌else◌,
}
use langgraph_refund_agent.Base.Actions.{pure, raise, ◌>>=◌}
use langgraph_refund_agent.Operations.Types.{OperationOutcome, DeliveryOutcome}
use langgraph_refund_agent.Operations.Lifecycle.{OperationRecordStatus, submitted, manual_review}
use langgraph_refund_agent.Operations.Record.{OperationServiceResult}
use langgraph_refund_agent.Operations.Repository.Tables.{value_error}
use langgraph_refund_agent.Operations.Service.World.{Environment, Call}
use langgraph_refund_agent.Operations.Service.Changes.{confirm_operation, cancel_pending_operation}
use langgraph_refund_agent.Operations.Service.CaseLink.{attach_support_case}
use langgraph_refund_agent.Operations.Service.Submission.{queue_confirmed_operation}
use langgraph_refund_agent.Workflow.Subflow.State.{
  SubflowOutcome, decided, assessed, SubflowStatus, of_operation, investigation_cancelled,
  SubflowState, ConfirmationAnswer, yes_submit, no_cancel, something_else, SubflowAnswers,
}
use langgraph_refund_agent.Workflow.Subflow.Nodes.{
  detect_order, load_operation_snapshot, extract_operation_request, evaluate_operation_request,
}
use langgraph_refund_agent.Auth.{AccessScope}

pub data OperationDestination : Type 0 where
  submit_confirmed confirm_manual cancel_operation : OperationDestination
  confirm_delivery_investigation cancel_delivery_investigation : OperationDestination

-- `state.get("operation_outcome") == "manual_review"`
abbrev pub is_manual_review : Option SubflowOutcome → Bool
is_manual_review (some (decided OperationOutcome.manual_review)) = true
is_manual_review (some (assessed DeliveryOutcome.manual_review)) = true
is_manual_review _ = false

abbrev is_pending : Option SubflowStatus → Bool
is_pending (some (of_operation OperationRecordStatus.pending_confirmation)) = true
is_pending _ = false

-- The condition of the edge from `evaluate_operation_request` to the confirmation.
unfoldable pub needs_confirmation : SubflowState → Bool
needs_confirmation s =
    (is_some s.operation_id && is_pending s.operation_status)
    || (is_none s.operation_id
        && is_manual_review s.outcome
        && not (is_empty s.domain_case_reason_codes))

-- `operation_confirmation_node`; none stands for its `ValueError`.
unfoldable pub confirm_destination : SubflowState → ConfirmationAnswer → Option OperationDestination
confirm_destination s no_cancel =
    some (if is_none s.operation_id then cancel_delivery_investigation else cancel_operation)
confirm_destination s something_else = none
confirm_destination s yes_submit = some (
    if is_none s.operation_id
    then confirm_delivery_investigation
    else if is_manual_review s.outcome
    then confirm_manual
    else submit_confirmed)

-- `_operation_id`
unfoldable pub with_operation_id : Option String → (String → Call SubflowState) → Call SubflowState
with_operation_id none f = raise (value_error "operation_id is unavailable")
with_operation_id (some id) f = f id

-- The fields that a result of the service sets.
abbrev record_result : SubflowState → OperationServiceResult → SubflowState
record_result s r = record s {
  operation_status = some (of_operation r.operation.status);
  service_action = some r.action;
}

module _ (env : Environment) (scope : AccessScope) (a : SubflowAnswers) where
  -- `submit_confirmed_operation`; of what the fallback reports on its support case, the state keeps here
  -- only that it is there.
  unfoldable pub submit_node : SubflowState → Call SubflowState
  unfolding with_operation_id queue_confirmed_operation
  submit_node s = with_operation_id s.operation_id λ id. elim a.connection_id [
    | none ↦ a.fallback id (str_append "graph-provider-config-failure:" id) >>= λ operation.
        pure (record s {
          operation_status = some (of_operation operation.status);
          provider_failure_case_persisted = true;
        })
    | some connection ↦
        queue_confirmed_operation env scope id (str_append "graph-queue:" id) connection
        >>= λ result. pure (record (record_result s result) {
          provider_reference = result.operation.provider_reference;
        })
  ]

  -- `confirm_manual_operation`
  unfoldable pub confirm_manual_node : SubflowState → Call SubflowState
  unfolding with_operation_id confirm_operation
  confirm_manual_node s = with_operation_id s.operation_id λ id.
      confirm_operation env scope id (str_append "graph-manual:" id) >>= λ result.
      pure (record (record_result s result) {
        domain_case_reason_codes = result.operation.policy_reason_codes;
      })

  -- `cancel_operation`
  unfoldable pub cancel_node : SubflowState → Call SubflowState
  unfolding with_operation_id cancel_pending_operation
  cancel_node s = with_operation_id s.operation_id λ id.
      cancel_pending_operation env scope id (str_append "graph-cancel:" id) >>= λ result.
      pure (record_result s result)

  -- The node that a destination names, with `confirm_delivery_investigation_node` and
  -- `cancel_delivery_investigation_node`.
  unfoldable pub act : OperationDestination → SubflowState → Call SubflowState
  unfolding submit_node confirm_manual_node cancel_node
  act submit_confirmed s = submit_node s
  act confirm_manual s = confirm_manual_node s
  act cancel_operation s = cancel_node s
  act confirm_delivery_investigation s =
      pure (record s { operation_status = some (of_operation submitted) })
  act cancel_delivery_investigation s =
      pure (record s {
        operation_status = some investigation_cancelled;
        domain_case_reason_codes = [];
      })

  unfoldable pub act_if_any : SubflowState → Option OperationDestination → Call SubflowState
  unfolding act
  act_if_any s none = raise (value_error "Order-operation confirmation must be true or false")
  act_if_any s (some destination) = act destination s

  -- The confirmation and the node it goes to.
  unfoldable pub confirm_and_act : SubflowState → Call SubflowState
  unfolding confirm_destination act_if_any
  confirm_and_act s = act_if_any s (confirm_destination s a.confirmation)

  -- The child graph: `build_operation_subgraph`.
  unfoldable pub operation_subflow : (String → Bool) → SubflowState → Call SubflowState
  unfolding detect_order load_operation_snapshot extract_operation_request
      evaluate_operation_request needs_confirmation confirm_and_act
  operation_subflow is_order_id start =
      let detected = detect_order is_order_id a.references_previous a.detection start in
      let loaded = load_operation_snapshot a scope detected in
      if is_none detected.order_id
      then pure detected
      else if not loaded.lookup_success
      then pure loaded
      else (evaluate_operation_request env scope a (extract_operation_request a loaded) >>= λ s.
          if needs_confirmation s then confirm_and_act s else pure s)

  abbrev is_provider_failure : List String → Bool
  is_provider_failure codes = any (λ c. str_eq c "provider_delivery_failed") codes

  -- `attach_operation_case`, by the operation's and the case's identifiers, the operation's status and the
  -- reason codes of an order-operation review case.
  unfoldable pub attach_operation_case :
      Option String
      → Option SubflowStatus
      → Option String
      → Bool
      → List String
      → SubflowState
      → Call SubflowState
  unfolding attach_support_case
  attach_operation_case (some id) (some (of_operation manual_review)) (some case_id) review codes
        s =
      if review && is_provider_failure codes
      then pure s
      else (attach_support_case env scope id case_id
            (str_append "graph-case:" (str_append id (str_append ":" case_id)))
          >>= λ result. pure (record s { service_action = some result.action }))
  attach_operation_case id status case_id review codes s = pure s
