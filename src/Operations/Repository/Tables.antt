-- ===== src/Operations/Repository/Tables.antt =====
-- The tables of order operations, their events and the provider commands, what
-- src/agent/operations/postgres_repository.py selects from them, and the errors of
-- src/agent/operations/repository.py.
use langgraph_refund_agent.Base.{
  String, str_eq, Bool, true, false, ◌&&◌, Option, none, some, List, [], ◌∷◌, ltb, if◌then◌else◌,
}
use langgraph_refund_agent.Operations.Lifecycle.{
  OperationRecordStatus, pending_confirmation, queued, submitted, processing, manual_review,
}
use langgraph_refund_agent.Operations.Record.{OrderOperation, OrderOperationEvent}
use langgraph_refund_agent.Integrations.Commands.{ProviderCommandEnvelope}

-- The exceptions of the repository and of the service. A `ValueError` has its message; one of
-- pydantic's is a `validation_error`, and one that the order system raises is a `provider_error`.
pub data OperationError : Type 0 where
  value_error : String → OperationError
  validation_error forbidden : OperationError
  invalid_transition : OperationRecordStatus → OperationError
  not_found : String → OperationError
  active_conflict duplicate_source_message duplicate_idempotency : OperationError
  concurrent_update persistence_error : OperationError
  provider_error : String → OperationError

pub record Database : Type 0 where
  pub operations : List OrderOperation
  pub events : List OrderOperationEvent
  pub commands : List ProviderCommandEnvelope
  pub support_case_ids : List String

-- `status IN ('pending_confirmation', 'queued', 'submitted', 'processing', 'manual_review')`
unfoldable pub is_active : OperationRecordStatus → Bool
is_active pending_confirmation = true
is_active queued = true
is_active submitted = true
is_active processing = true
is_active manual_review = true
is_active _ = false

-- The row with a primary key.
unfoldable pub find_row : String → List OrderOperation → Option OrderOperation
find_row id [] = none
find_row id (o ∷ os) = if str_eq o.operation_id id then some o else find_row id os

-- The table with the row of the same primary key replaced.
unfoldable pub put_row : OrderOperation → List OrderOperation → List OrderOperation
put_row new [] = []
put_row new (o ∷ os) = (if str_eq o.operation_id new.operation_id then new else o) ∷ put_row new os

-- `tenant_id = %s AND customer_id = %s`
abbrev pub owns : String → String → OrderOperation → Bool
owns tenant customer o = str_eq o.tenant_id tenant && str_eq o.customer_id customer

-- `WHERE operation_id = %s AND {visibility}`
unfoldable pub select_by_id : String → String → String → List OrderOperation → Option OrderOperation
unfolding find_row
select_by_id tenant customer id os = elim (find_row id os) [
  | none ↦ none
  | some o ↦ if owns tenant customer o then some o else none
]

-- `WHERE thread_id = %s AND source_message_id = %s AND {visibility}`
unfoldable pub select_by_source_message :
    String → String → String → String → List OrderOperation → Option OrderOperation
select_by_source_message tenant customer thread message [] = none
select_by_source_message tenant customer thread message (o ∷ os) =
    if str_eq o.thread_id thread && str_eq o.source_message_id message && owns tenant customer o
    then some o
    else select_by_source_message tenant customer thread message os

-- `WHERE idempotency_key = %s AND {visibility}`
unfoldable pub select_event :
    String → String → String → List OrderOperationEvent → Option OrderOperationEvent
select_event tenant customer key [] = none
select_event tenant customer key (e ∷ es) =
    if str_eq e.idempotency_key key && str_eq e.tenant_id tenant && str_eq e.customer_id customer
    then some e
    else select_event tenant customer key es

-- The earlier of two rows; where they were created at the same time, the first argument.
abbrev earlier : OrderOperation → Option OrderOperation → OrderOperation
earlier o none = o
earlier o (some p) = if ltb p.created_at o.created_at then p else o

-- `WHERE order_id = %s AND status IN (...) AND {visibility} ORDER BY created_at ... LIMIT 1`. The
-- active-order index admits one such row at most, so the order of rows created at one time is left open.
unfoldable pub select_active :
    String → String → String → List OrderOperation → Option OrderOperation
unfolding is_active
select_active tenant customer order [] = none
select_active tenant customer order (o ∷ os) =
    let rest = select_active tenant customer order os in
    if str_eq o.order_id order && is_active o.status && owns tenant customer o
    then some (earlier o rest)
    else rest
