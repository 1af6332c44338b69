-- ===== src/Operations/Repository/Writes.antt =====
-- The transactions of src/agent/operations/postgres_repository.py, and the checks of
-- src/agent/operations/repository.py before them. A transaction returns the tables it leaves, or the
-- error that rolls it back.
use langgraph_refund_agent.Base.{
  ℕ, suc, String, str_eq, Bool, true, false, not, ◌&&◌, ◌||◌, Option, none, some, List, [], ◌∷◌,
  any, ◌==◌, Result, ok, err, ◌>>=◌, ◌>>◌, raise_if,
}
use langgraph_refund_agent.Operations.Types.{OperationType}
use langgraph_refund_agent.Operations.Lifecycle.{status_eq, queued}
use langgraph_refund_agent.Operations.Record.{Texts, OrderOperation, OrderOperationEvent}
use langgraph_refund_agent.Operations.Repository.Tables.{
  OperationError, value_error, forbidden, persistence_error, Database,
}
use langgraph_refund_agent.Integrations.Commands.{
  ProviderCommandEnvelope, ProviderCommandPayload, order_payload, delivery_payload,
  is_order_operation, validate_command,
}
use langgraph_refund_agent.Auth.{AccessScope, customer_id}
use langgraph_refund_agent.Operations.Repository.Constraints.{
  insert_events, insert_operation, update_row,
}

-- `operation.customer_id != scope.customer_id`
abbrev same_customer : Option String → String → Bool
same_customer none c = false
same_customer (some d) c = str_eq c d

-- `_validate_operation_ownership`
unfoldable pub validate_operation_ownership :
    AccessScope → OrderOperation → Result OperationError (Unit {0})
validate_operation_ownership scope o =
    raise_if (not (str_eq o.tenant_id scope.tenant_id))
      (value_error "operation tenant_id must match the access scope")
    >> raise_if (not (same_customer (customer_id scope) o.customer_id))
        (value_error "operation customer_id must match the access scope")

-- `_validate_event_ownership`, for each event.
unfoldable pub validate_event_ownership :
    AccessScope → List OrderOperationEvent → Result OperationError (Unit {0})
validate_event_ownership scope [] = ok tt
validate_event_ownership scope (e ∷ es) =
    raise_if (not (str_eq e.tenant_id scope.tenant_id))
      (value_error "event tenant_id must match the access scope")
    >> raise_if (not (same_customer (customer_id scope) e.customer_id))
        (value_error "event customer_id must match the access scope")
    >> validate_event_ownership scope es

-- The customer of the scope, which `customer_owned_visibility` requires.
unfoldable pub require_customer : AccessScope → Result OperationError String
require_customer scope = elim (customer_id scope) [ none ↦ err forbidden | some c ↦ ok c ]

-- `create_operation_with_events`
unfoldable pub create_operation_with_events :
    AccessScope
    → OrderOperation
    → List OrderOperationEvent
    → Database
    → Result OperationError Database
unfolding validate_operation_ownership validate_event_ownership insert_operation insert_events
create_operation_with_events scope o events db =
    validate_operation_ownership scope o
    >> validate_event_ownership scope events
    >> insert_operation o db
    >>= insert_events events

-- `update_operation_with_events`
unfoldable pub update_operation_with_events :
    AccessScope
    → OrderOperation
    → List OrderOperationEvent
    → ℕ
    → Database
    → Result OperationError Database
unfolding validate_operation_ownership validate_event_ownership require_customer update_row
    insert_events
update_operation_with_events scope o events expected db =
    validate_operation_ownership scope o
    >> validate_event_ownership scope events
    >> require_customer scope
    >>= (λ c. update_row scope.tenant_id c o expected db)
    >>= insert_events events

-- `command.expected_order_version != operation.order_version`
abbrev version_is : Option ℕ → ℕ → Bool
version_is none n = false
version_is (some m) n = m == n

pub OperationType-discrete : Discrete OperationType
OperationType-discrete = hlevel

unfoldable pub type_eq : OperationType → OperationType → Bool
unfolding OperationType-discrete
type_eq a b = elim (OperationType-discrete a b) [ yes _ ↦ true | no _ ↦ false ]

-- The checks on the events in `validate_operation_command_association`.
unfoldable pub validate_event_association :
    OrderOperation → List OrderOperationEvent → Result OperationError (Unit {0})
validate_event_association o [] = ok tt
validate_event_association o (e ∷ es) =
    raise_if (not (str_eq e.operation_id o.operation_id))
      (value_error "event.operation_id must match the operation_id")
    >> raise_if (not (str_eq e.tenant_id o.tenant_id))
        (value_error "event.tenant_id must match the operation tenant_id")
    >> raise_if (not (str_eq e.customer_id o.customer_id))
        (value_error "event.customer_id must match the operation customer_id")
    >> validate_event_association o es

-- The checks of `validate_operation_command_association` on the operation and the command's metadata.
unfoldable pub validate_association :
    OrderOperation → ProviderCommandEnvelope → ℕ → Result OperationError (Unit {0})
unfolding status_eq
validate_association o c expected =
    raise_if (not (status_eq o.status queued))
      (value_error "queue_operation requires a queued operation")
    >> raise_if (not (o.version == suc expected))
        (value_error "operation.version must equal expected_version + 1")
    >> raise_if (not (is_order_operation c.aggregate_type))
        (value_error "command.aggregate_type must be 'order_operation'")
    >> raise_if (not (str_eq c.aggregate_id o.operation_id))
        (value_error "command.aggregate_id must match the operation_id")
    >> raise_if (not (str_eq c.tenant_id o.tenant_id))
        (value_error "command.tenant_id must match the operation tenant_id")
    >> raise_if (not (str_eq c.customer_id o.customer_id))
        (value_error "command.customer_id must match the operation customer_id")
    >> raise_if (not (str_eq c.source_message_id o.source_message_id))
        (value_error "command.source_message_id must match the operation source_message_id")
    >> raise_if (not (version_is c.expected_order_version o.order_version))
        (value_error "command.expected_order_version must match the operation order_version")

-- Its checks on the command's payload.
unfoldable pub validate_payload_association :
    OrderOperation → ProviderCommandPayload → Result OperationError (Unit {0})
unfolding type_eq
validate_payload_association o (delivery_payload p) =
    err (value_error "command payload must be an order-operation payload")
validate_payload_association o (order_payload p) =
    raise_if (not (str_eq p.order_id o.order_id))
      (value_error "command payload order_id must match the operation order_id")
    >> raise_if (not (type_eq p.operation_type o.operation_type))
        (value_error "command payload operation_type must match the operation operation_type")

-- `_revalidate_command_envelope`
unfoldable pub revalidate_command_envelope :
    Texts → ProviderCommandEnvelope → Result OperationError ProviderCommandEnvelope
unfolding validate_command
revalidate_command_envelope texts command = elim (validate_command texts command) [
  | none ↦ err (value_error "command envelope is invalid")
  | some c ↦ ok c
]

-- `validate_operation_command_association`; the command that it validates again is checked, and not
-- what is stored.
unfoldable pub validate_operation_command_association :
    Texts
    → OrderOperation
    → List OrderOperationEvent
    → ProviderCommandEnvelope
    → ℕ
    → Result OperationError (Unit {0})
unfolding revalidate_command_envelope validate_association validate_payload_association
    validate_event_association
validate_operation_command_association texts o events command expected =
    revalidate_command_envelope texts command >>= λ c.
    validate_association o c expected
    >> validate_payload_association o c.payload
    >> validate_event_association o events

-- `insert_outbox_message`, with the unique keys of `outbox_messages`.
unfoldable pub insert_outbox_message :
    ProviderCommandEnvelope → Database → Result OperationError Database
insert_outbox_message c db =
    raise_if
      (any
        (λ d.
          str_eq d.command_id c.command_id
          || (str_eq d.tenant_id c.tenant_id && str_eq d.idempotency_key c.idempotency_key))
        db.commands)
      persistence_error
    >> ok (record db { commands = c ∷ db.commands })

-- `queue_operation_with_events_and_command`
unfoldable pub queue_operation_with_events_and_command :
    Texts
    → AccessScope
    → OrderOperation
    → List OrderOperationEvent
    → ProviderCommandEnvelope
    → ℕ
    → Database
    → Result OperationError Database
unfolding validate_operation_command_association validate_operation_ownership
    validate_event_ownership require_customer update_row insert_events insert_outbox_message
queue_operation_with_events_and_command texts scope o events command expected db =
    validate_operation_command_association texts o events command expected
    >> validate_operation_ownership scope o
    >> validate_event_ownership scope events
    >> require_customer scope
    >>= (λ c. update_row scope.tenant_id c o expected db)
    >>= insert_events events
    >>= insert_outbox_message command
