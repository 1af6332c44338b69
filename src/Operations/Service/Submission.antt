-- ===== src/Operations/Service/Submission.antt =====
-- `submit_confirmed_operation` and `queue_confirmed_operation` of src/agent/operations/service.py: the
-- two ways of an automatic operation to the order system, by a call or by the outbox.
use langgraph_refund_agent.Base.{
  ℕ, zero, suc, String, str_eq, str_append, not, ◌&&◌, Option, none, some, [], ◌∷◌, is_some, Result,
  ok, err, if◌then◌else◌,
}
use langgraph_refund_agent.Base.Actions.{pure, raise, lift, raise_when, attempt, ◌>>=◌, ◌>>◌}
use langgraph_refund_agent.Operations.Types.{ExistingOperation, OrderOperationRequest}
use langgraph_refund_agent.Operations.Lifecycle.{pending_confirmation, queued, submitted, status_eq}
use langgraph_refund_agent.Operations.Record.{
  Texts, OrderOperation, OrderOperationEvent, OperationEventType, OperationServiceAction,
  OperationServiceResult, validate_event, request_of, request_valid, strip_option,
}
use langgraph_refund_agent.Operations.Repository.Tables.{
  value_error, invalid_transition, concurrent_update, provider_error, OperationError,
}
use langgraph_refund_agent.Operations.Repository.Writes.{
  update_operation_with_events, queue_operation_with_events_and_command,
}
use langgraph_refund_agent.Operations.Service.World.{
  Environment, Call, Submission, validated, now, new_id, transact, get_operation, after_write,
  unless_recorded, build_status_update, validate_request_metadata, key_of, identity,
}
use langgraph_refund_agent.Operations.Service.Changes.{unchanged}
use langgraph_refund_agent.Integrations.Commands.{for_order_operation}
use langgraph_refund_agent.Auth.{AccessScope}

-- `OrderOperationRequest(...)`; none stands for the `ValidationError`.
unfoldable pub validate_request : Texts → OrderOperationRequest → Option OrderOperationRequest
unfolding request_valid
validate_request texts r =
    let stripped : OrderOperationRequest = record r {
      thread_id = texts.strip r.thread_id;
      source_message_id = texts.strip r.source_message_id;
      order_id = texts.strip r.order_id;
      replacement_variant_id = strip_option texts r.replacement_variant_id;
      customer_id = texts.strip r.customer_id;
      tenant_id = texts.strip r.tenant_id;
    } in
    if request_valid texts stripped then some stripped else none

-- `provider_operation.provider_reference or provider_operation.operation_id`
abbrev pub reference_of : ExistingOperation → String
reference_of o = elim o.provider_reference [
  | none ↦ o.operation_id
  | some r ↦ if str_eq r "" then o.operation_id else r
]

-- What the order system raises, as an error of the service.
abbrev pub from_provider : Result String ExistingOperation → Result OperationError ExistingOperation
from_provider (ok o) = ok o
from_provider (err e) = err (provider_error e)

module _ (env : Environment) where
  -- `provider.submit_operation(...)`: whatever the answer, the order system has been called.
  unfoldable pub submit_operation : Submission → Call ExistingOperation
  submit_operation s w =
      (from_provider (env.provider w.calls s), record w { submissions = s ∷ w.submissions })

  module _ (scope : AccessScope) where
    -- The event `confirmation_recorded` of an operation.
    unfoldable pub confirmation_event : String → OrderOperation → ℕ → Call OrderOperationEvent
    unfolding new_id validate_event identity
    confirmation_event key current time = do
      id ← new_id env
      lift (
          validated (
            validate_event env.texts record {
              event_id = id;
              idempotency_key = key;
              operation_id = current.operation_id;
              event_type = OperationEventType.confirmation_recorded;
              previous_status = none;
              current_status = none;
              provider_reference = none;
              support_case_id = none;
              actor = identity scope;
              customer_id = current.customer_id;
              tenant_id = current.tenant_id;
              created_at = time;
            }))

    -- The submission of a pending operation and the write after it.
    unfoldable pub submit_pending :
        String → String → OrderOperation → Call OperationServiceResult → Call OperationServiceResult
    unfolding validate_request submit_operation build_status_update confirmation_event transact
        update_operation_with_events after_write identity
    submit_pending id key current again = do
      request ← lift (validated (validate_request env.texts (request_of current)))
      provider_operation ← submit_operation record {
        request = request;
        expected_order_version = current.order_version;
        idempotency_key = str_append "provider:operation:" id;
      }
      changed ←
          build_status_update env current submitted (str_append key ":status") (identity scope)
            (some (reference_of provider_operation))
      let updated = changed.0
      confirmation ← confirmation_event key current updated.updated_at
      written ← attempt (
          transact env (
            update_operation_with_events scope updated (confirmation ∷ changed.1 ∷ [])
              current.version))
      after_write env scope key
          (record {
            action = OperationServiceAction.submitted;
            operation = updated;
            events = confirmation ∷ changed.1 ∷ [];
          })
          again written

    -- The loop of `submit_confirmed_operation`.
    unfoldable pub submit_attempts : ℕ → String → String → Call OperationServiceResult
    unfolding get_operation status_eq submit_pending
    submit_attempts zero id key = raise concurrent_update
    submit_attempts (suc n) id key =
        let again = submit_attempts n id key in
        get_operation env scope id >>= λ current.
        raise_when current.requires_manual_review
          (value_error "manual-review operations must not be submitted to a provider")
        >> (if status_eq current.status submitted && is_some current.provider_reference
            then pure (unchanged current)
            else (raise_when (not (status_eq current.status pending_confirmation))
                  (invalid_transition current.status)
                >> submit_pending id key current again))

    -- `submit_confirmed_operation`
    unfoldable pub submit_confirmed_operation : String → String → Call OperationServiceResult
    unfolding key_of unless_recorded submit_attempts
    submit_confirmed_operation id request_id =
        let request = env.texts.strip request_id in
        let key = key_of id "submitted" request in
        raise_when (str_eq request "") (value_error "request_id must not be empty")
        >> unless_recorded env scope key (submit_attempts env.max_write_attempts id key)

    -- The update, the events and the command of `queue_confirmed_operation`, for a pending operation.
    unfoldable pub queue_pending :
        String → String → String → OrderOperation → Call OperationServiceResult
    unfolding now new_id build_status_update confirmation_event for_order_operation transact
        queue_operation_with_events_and_command key_of identity
    queue_pending id request connection_id current = do
      time ← now env
      changed ←
          build_status_update env current queued (key_of id "queued" request) (identity scope) none
      confirmation ← confirmation_event (key_of id "confirmed" request) current time
      command_id ← new_id env
      command ←
          lift (validated (for_order_operation env.texts changed.0 connection_id command_id time))
      transact env (
          queue_operation_with_events_and_command env.texts scope changed.0
            (confirmation ∷ changed.1 ∷ []) command current.version)
      pure record {
        action = OperationServiceAction.queued;
        operation = changed.0;
        events = confirmation ∷ changed.1 ∷ [];
      }

    -- `queue_confirmed_operation`
    unfoldable pub queue_confirmed_operation :
        String → String → String → Call OperationServiceResult
    unfolding validate_request_metadata get_operation status_eq queue_pending identity
    queue_confirmed_operation id request_id connection_id =
        lift (validate_request_metadata env request_id (identity scope)) >>= λ metadata.
        raise_when (str_eq (env.texts.strip connection_id) "")
          (value_error "connection_id must not be empty")
        >> (get_operation env scope id >>= λ current.
            raise_when current.requires_manual_review
              (value_error "manual-review operations must not enter the provider outbox")
            >> (if status_eq current.status queued
                then pure (unchanged current)
                else (raise_when (not (status_eq current.status pending_confirmation))
                      (invalid_transition current.status)
                    >> queue_pending id metadata.0 (env.texts.strip connection_id) current)))
