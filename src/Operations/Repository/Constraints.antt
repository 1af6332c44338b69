-- ===== src/Operations/Repository/Constraints.antt =====
-- The statements that write order operations and their events (src/agent/operations/postgres_repository.py)
-- under the constraints of src/agent/sql/migrations/0004_order_operations.sql and
-- 0007_provider_messaging.sql. Where one row breaks several, the error reported is that of the first.
use langgraph_refund_agent.Base.{
  ℕ, String, str_eq, Bool, true, false, not, ◌&&◌, ◌||◌, Option, none, some, List, [], ◌∷◌, any,
  leb, ◌==◌, is_none, is_some, is_empty, Result, ok, err, ◌>>◌, raise_if, if◌then◌else◌,
}
use langgraph_refund_agent.Operations.Types.{OperationType, RecommendedCaseType, CasePriority}
use langgraph_refund_agent.Operations.Record.{
  OrderOperation, OperationEventType, OrderOperationEvent,
}
use langgraph_refund_agent.Operations.Repository.Tables.{
  OperationError, active_conflict, duplicate_source_message, duplicate_idempotency,
  concurrent_update, persistence_error, Database, is_active, find_row, put_row, owns,
}

abbrev is_exchange : OperationType → Bool
is_exchange OperationType.exchange = true
is_exchange _ = false

abbrev is_review_row : OrderOperation → Bool
is_review_row o = elim o.review_case_type [
  | some RecommendedCaseType.order_operation_review ↦ elim o.review_priority [
    | some CasePriority.p1 ↦ true
    | some CasePriority.p2 ↦ true
    | _ ↦ false
  ]
  | _ ↦ false
]

-- The check constraints of `order_operations` that the types of the columns leave open, without those
-- on blank texts and on formats, which the validated record has.
unfoldable pub row_checks : OrderOperation → Bool
row_checks o =
    not (is_empty o.policy_reason_codes)
    && leb 1 o.order_version
    && leb 1 o.version
    && (if is_exchange o.operation_type
        then is_some o.replacement_variant_id
        else is_none o.replacement_variant_id)
    && (if o.requires_manual_review
        then is_review_row o
        else is_none o.review_case_type && is_none o.review_priority)
    && (is_none o.support_case_id || o.requires_manual_review)
    && leb o.created_at o.updated_at

-- `uq_order_operations_active_order`: another active row of the tenant has the order.
unfoldable pub conflicts_active : OrderOperation → List OrderOperation → Bool
unfolding is_active
conflicts_active o os =
    is_active o.status
    && any
        (λ p.
          not (str_eq p.operation_id o.operation_id)
          && is_active p.status
          && str_eq p.tenant_id o.tenant_id
          && str_eq p.order_id o.order_id)
        os

-- A foreign key into the support cases.
abbrev references_case : Option String → List String → Bool
references_case none ids = true
references_case (some id) ids = any (λ i. str_eq i id) ids

abbrev is_status_changed : OperationEventType → Bool
is_status_changed OperationEventType.status_changed = true
is_status_changed _ = false

-- `ck_order_operation_events_status`
unfoldable pub event_checks : OrderOperationEvent → Bool
event_checks e =
    if is_status_changed e.event_type
    then is_some e.previous_status && is_some e.current_status
    else is_none e.previous_status && is_none e.current_status

-- The `INSERT INTO order_operation_events` of `_write`, for each event, with `_raise_unique_violation`.
unfoldable pub insert_events : List OrderOperationEvent → Database → Result OperationError Database
unfolding event_checks
insert_events [] db = ok db
insert_events (e ∷ es) db =
    raise_if (not (event_checks e) || any (λ f. str_eq f.event_id e.event_id) db.events)
      persistence_error
    >> raise_if (any (λ f. str_eq f.idempotency_key e.idempotency_key) db.events)
        duplicate_idempotency
    >> raise_if
        (is_none (find_row e.operation_id db.operations)
          || not (references_case e.support_case_id db.support_case_ids))
        persistence_error
    >> insert_events es (record db { events = e ∷ db.events })

-- The `INSERT INTO order_operations` of `create_operation_with_events`.
unfoldable pub insert_operation : OrderOperation → Database → Result OperationError Database
unfolding row_checks conflicts_active
insert_operation o db =
    raise_if (not (row_checks o) || is_some (find_row o.operation_id db.operations))
      persistence_error
    >> raise_if (any (λ p. str_eq p.idempotency_key o.idempotency_key) db.operations)
        duplicate_idempotency
    >> raise_if
        (any (λ p. str_eq p.thread_id o.thread_id && str_eq p.source_message_id o.source_message_id)
          db.operations)
        duplicate_source_message
    >> raise_if (conflicts_active o db.operations) active_conflict
    >> raise_if (not (references_case o.support_case_id db.support_case_ids)) persistence_error
    >> ok (record db { operations = o ∷ db.operations })

-- The columns that the `UPDATE` sets.
abbrev pub set_columns : OrderOperation → OrderOperation → OrderOperation
set_columns row o = record row {
  policy_reason_codes = o.policy_reason_codes;
  display_reason = o.display_reason;
  review_case_type = o.review_case_type;
  review_priority = o.review_priority;
  support_case_id = o.support_case_id;
  provider_reference = o.provider_reference;
  status = o.status;
  updated_at = o.updated_at;
  version = o.version;
}

-- The update of the row that `WHERE operation_id = %s AND version = %s AND {visibility}` selects.
unfoldable pub update_row :
    String → String → OrderOperation → ℕ → Database → Result OperationError Database
unfolding row_checks conflicts_active
update_row tenant customer o expected db = elim (find_row o.operation_id db.operations) [
  | none ↦ err concurrent_update
  | some row ↦
      let new = set_columns row o in
      raise_if (not (row.version == expected && owns tenant customer row)) concurrent_update
      >> raise_if (not (row_checks new)) persistence_error
      >> raise_if (conflicts_active new db.operations) active_conflict
      >> raise_if (not (references_case new.support_case_id db.support_case_ids)) persistence_error
      >> ok (record db { operations = put_row new db.operations })
]
