-- ===== src/Operations/Service/Changes.antt =====
-- The changes of a recorded operation by `OperationService` (src/agent/operations/service.py): the
-- customer's decision, the status updates, and the link to a support case. The loop over
-- `range(self._max_write_attempts)` recurs on the attempts left.
use langgraph_refund_agent.Base.{
  ℕ, zero, suc, String, str_eq, str_append, Bool, true, false, not, Option, none, List, [], ◌∷◌,
  if◌then◌else◌,
}
use langgraph_refund_agent.Base.Actions.{pure, raise, lift, raise_when, attempt, ◌>>=◌, ◌>>◌}
use langgraph_refund_agent.Operations.Lifecycle.{
  OperationRecordStatus, pending_confirmation, submitted, manual_review, cancelled_by_customer,
  status_eq,
}
use langgraph_refund_agent.Operations.Record.{
  OrderOperation, OrderOperationEvent, OperationEventType, OperationServiceAction, confirmed,
  cancelled, status_changed, status_unchanged, OperationServiceResult, validate_event,
}
use langgraph_refund_agent.Operations.Repository.Tables.{
  value_error, invalid_transition, concurrent_update, is_active,
}
use langgraph_refund_agent.Operations.Repository.Writes.{update_operation_with_events}
use langgraph_refund_agent.Operations.Service.World.{
  Environment, Call, validated, new_id, transact, get_operation, after_write, unless_recorded,
  build_status_update, validate_request_metadata, validate_status_transition, key_of, identity,
}
use langgraph_refund_agent.Auth.{AccessScope}

-- The actions of `_change_from_pending`.
pub data CustomerDecision : Type 0 where
  confirm cancel : CustomerDecision

-- The `action` that the two callers pass.
abbrev pub action_of : CustomerDecision → OperationServiceAction
action_of confirm = confirmed
action_of cancel = cancelled

abbrev pub action_text : CustomerDecision → String
action_text confirm = "confirmed"
action_text cancel = "cancelled"

abbrev is_confirm : CustomerDecision → Bool
is_confirm confirm = true
is_confirm cancel = false

-- `target_status`, or the one chosen for a confirmation.
abbrev pub next_status : CustomerDecision → OrderOperation → OperationRecordStatus
next_status confirm current = if current.requires_manual_review then manual_review else submitted
next_status cancel current = cancelled_by_customer

-- A decision on an operation that is not pending any more: whether it is only unchanged.
unfoldable pub already_decided : CustomerDecision → OperationRecordStatus → Bool
unfolding is_active status_eq
already_decided confirm s = is_active s
already_decided cancel s = status_eq s cancelled_by_customer

abbrev pub unchanged : OrderOperation → OperationServiceResult
unchanged o = record { action = status_unchanged; operation = o; events = [] }

module _ (env : Environment) (scope : AccessScope) where
  -- The events of a decision, and the status event with the key that each action gives it.
  unfoldable pub decision_events :
      CustomerDecision
      → String
      → OrderOperation
      → OrderOperation
      → OrderOperationEvent
      → Call (List OrderOperationEvent)
  unfolding new_id validate_event identity
  decision_events confirm key current updated status_event = do
    id ← new_id env
    decision_event ← lift (
        validated (
          validate_event env.texts record {
            event_id = id;
            idempotency_key = key;
            operation_id = current.operation_id;
            event_type = OperationEventType.confirmation_recorded;
            previous_status = none;
            current_status = none;
            provider_reference = none;
            support_case_id = none;
            actor = identity scope;
            customer_id = current.customer_id;
            tenant_id = current.tenant_id;
            created_at = updated.updated_at;
          }))
    pure (decision_event ∷ status_event ∷ [])
  decision_events cancel key current updated status_event =
      pure (record status_event { idempotency_key = key } ∷ [])

  -- The write of `_change_from_pending`, for an operation that awaits the decision.
  unfoldable pub decide_pending :
      CustomerDecision
      → String
      → OrderOperation
      → Call OperationServiceResult
      → Call OperationServiceResult
  unfolding build_status_update decision_events transact update_operation_with_events after_write
      identity
  decide_pending action key current again = do
    changed ←
        build_status_update env current (next_status action current) (str_append key ":status")
          (identity scope) none
    let updated = changed.0
    events ← decision_events action key current updated changed.1
    written ←
        attempt (transact env (update_operation_with_events scope updated events current.version))
    after_write env scope key
        (record { action = action_of action; operation = updated; events = events }) again written

  -- The loop of `_change_from_pending`.
  unfoldable pub change_attempts :
      ℕ → CustomerDecision → String → String → Call OperationServiceResult
  unfolding get_operation status_eq already_decided decide_pending
  change_attempts zero action id key = raise concurrent_update
  change_attempts (suc n) action id key =
      let again = change_attempts n action id key in
      get_operation env scope id >>= λ current.
      if not (status_eq current.status pending_confirmation)
      then (if already_decided action current.status
          then pure (unchanged current)
          else raise (invalid_transition current.status))
      else decide_pending action key current again

  -- `_change_from_pending`
  unfoldable pub change_from_pending :
      CustomerDecision → String → String → Call OperationServiceResult
  unfolding key_of unless_recorded change_attempts
  change_from_pending action id request_id =
      let request = env.texts.strip request_id in
      let key = key_of id (action_text action) request in
      raise_when (str_eq request "") (value_error "request_id must not be empty")
      >> unless_recorded env scope key (change_attempts env.max_write_attempts action id key)

  -- `confirm_operation`
  unfoldable pub confirm_operation : String → String → Call OperationServiceResult
  unfolding get_operation change_from_pending
  confirm_operation id request_id = get_operation env scope id >>= λ operation.
      raise_when (not operation.requires_manual_review)
        (value_error "automatic operations must use submit_confirmed_operation")
      >> change_from_pending confirm id request_id

  -- `cancel_pending_operation`
  unfoldable pub cancel_pending_operation : String → String → Call OperationServiceResult
  unfolding change_from_pending
  cancel_pending_operation id request_id = change_from_pending cancel id request_id

  -- The write of `update_operation_status`.
  unfoldable pub write_status :
      OperationRecordStatus
      → String
      → String
      → Option String
      → OrderOperation
      → Call OperationServiceResult
      → Call OperationServiceResult
  unfolding build_status_update transact update_operation_with_events after_write
  write_status target key actor reference current again = do
    changed ← build_status_update env current target key actor reference
    written ← attempt (
        transact env
          (update_operation_with_events scope changed.0 (changed.1 ∷ []) current.version))
    after_write env scope key
        (record { action = status_changed; operation = changed.0; events = changed.1 ∷ [] }) again
        written

  -- The loop of `update_operation_status`.
  unfoldable pub update_attempts :
      ℕ
      → String
      → OperationRecordStatus
      → String
      → String
      → Option String
      → Call OperationServiceResult
  unfolding get_operation status_eq validate_status_transition write_status
  update_attempts zero id target key actor reference = raise concurrent_update
  update_attempts (suc n) id target key actor reference =
      let again = update_attempts n id target key actor reference in
      get_operation env scope id >>= λ current.
      if status_eq current.status target
      then pure (unchanged current)
      else (lift (validate_status_transition current.status target) >>= λ _.
          write_status target key actor reference current again)

  -- `update_operation_status`
  unfoldable pub update_operation_status :
      String → OperationRecordStatus → String → String → Option String → Call OperationServiceResult
  unfolding validate_request_metadata status_eq key_of unless_recorded update_attempts
  update_operation_status id target request_id actor reference =
      lift (validate_request_metadata env request_id actor) >>= λ metadata.
      raise_when (status_eq target pending_confirmation) (invalid_transition target)
      >> (let key = key_of id "status" metadata.0 in
          unless_recorded env scope key
            (update_attempts env.max_write_attempts id target key metadata.1 reference))
