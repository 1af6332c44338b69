-- ===== src/Operations/Repository/Queue.antt =====
-- `queue_operation_with_events_and_command` of src/agent/operations/postgres_repository.py writes the
-- operation, its events and its command together.
use langgraph_refund_agent.Base.{
  ℕ, suc, String, eq_iff, ◌≡◌, some, List, [], ◌∷◌, ok, ◌>>◌, bind-ok, arith,
}
use langgraph_refund_agent.Operations.Lifecycle.{queued, status_eq}
use langgraph_refund_agent.Operations.Record.{Texts, OrderOperation, OrderOperationEvent}
use langgraph_refund_agent.Operations.Repository.Tables.{Database}
use langgraph_refund_agent.Operations.Repository.Constraints.{insert_events, update_row}
use langgraph_refund_agent.Operations.Repository.Rows.{
  IsReplaced, queue_operation_with_events_and_command-written,
}
use langgraph_refund_agent.Operations.Repository.Writes.{
  validate_operation_ownership, validate_event_ownership, require_customer,
  validate_operation_command_association, validate_association, validate_payload_association,
  validate_event_association, revalidate_command_envelope, insert_outbox_message,
  queue_operation_with_events_and_command,
}
use langgraph_refund_agent.Integrations.Commands.{
  ProviderCommandEnvelope, order_operation, validate_command,
}
use langgraph_refund_agent.Auth.{AccessScope}

-- The table of events with some more, one after another.
abbrev pub appended : List OrderOperationEvent → List OrderOperationEvent → List OrderOperationEvent
appended [] es = es
appended (x ∷ xs) es = appended xs (x ∷ es)

insert_events-appended :
    (xs : List OrderOperationEvent) (d e : Database)
    → insert_events xs d ≡ ok e
    → (e.events ≡ appended xs d.events) × (e.commands ≡ d.commands)
unfolding insert_events
insert_events-appended [] d e h = ground arith
insert_events-appended (x ∷ xs) d e h =
    ground (arith, insert_events-appended xs (record d { events = x ∷ d.events }) e)

update_row-rest :
    (tenant customer : String) (o : OrderOperation) (n : ℕ) (d e : Database)
    → update_row tenant customer o n d ≡ ok e
    → (e.events ≡ d.events) × (e.commands ≡ d.commands)
unfolding update_row
update_row-rest tenant customer o n d e h = ground arith

insert_outbox_message-rest :
    (c : ProviderCommandEnvelope) (d e : Database)
    → insert_outbox_message c d ≡ ok e
    → (e.events ≡ d.events) × (e.commands ≡ c ∷ d.commands)
unfolding insert_outbox_message
insert_outbox_message-rest c d e h = ground arith

-- The command is one that passes the validators, of the operation, its owner and its order version.
abbrev pub IsCommandOf : Texts → OrderOperation → ProviderCommandEnvelope → Type 0
IsCommandOf texts o command =
    (c : ProviderCommandEnvelope) × ((validate_command texts command ≡ some c)
      × (c.aggregate_type ≡ order_operation)
      × (c.aggregate_id ≡ o.operation_id)
      × (c.tenant_id ≡ o.tenant_id)
      × (c.customer_id ≡ o.customer_id)
      × (c.source_message_id ≡ o.source_message_id)
      × (c.expected_order_version ≡ some o.order_version))

revalidated :
    (texts : Texts) (command c : ProviderCommandEnvelope)
    → revalidate_command_envelope texts command ≡ ok c
    → validate_command texts command ≡ some c
unfolding revalidate_command_envelope
revalidated texts command c h = ground arith

metadata :
    (o : OrderOperation) (c : ProviderCommandEnvelope) (n : ℕ)
    → validate_association o c n ≡ ok tt
    → (o.status ≡ queued)
      × (o.version ≡ suc n)
      × (c.aggregate_type ≡ order_operation)
      × (c.aggregate_id ≡ o.operation_id)
      × (c.tenant_id ≡ o.tenant_id)
      × (c.customer_id ≡ o.customer_id)
      × (c.source_message_id ≡ o.source_message_id)
      × (c.expected_order_version ≡ some o.order_version)
unfolding validate_association status_eq
metadata o c n h = ground (
  arith,
  eq_iff c.aggregate_id o.operation_id,
  eq_iff c.tenant_id o.tenant_id,
  eq_iff c.customer_id o.customer_id,
  eq_iff c.source_message_id o.source_message_id,
)

associated :
    (texts : Texts) (o : OrderOperation) (events : List OrderOperationEvent)
    (command : ProviderCommandEnvelope) (n : ℕ)
    → validate_operation_command_association texts o events command n ≡ ok tt
    → (o.status ≡ queued) × (o.version ≡ suc n) × IsCommandOf texts o command
unfolding validate_operation_command_association
associated texts o events command n h =
    let (c, (h1, g1)) =
      bind-ok (revalidate_command_envelope texts command)
        (λ c.
          validate_association o c n
          >> validate_payload_association o c.payload
          >> validate_event_association o events)
        tt h in
    let (u, (h2, g2)) = bind-ok _ (λ _. validate_event_association o events) tt g1 in
    let (v, (h3, g3)) = bind-ok _ (λ _. validate_payload_association o c.payload) u h2 in
    let m = metadata o c n h3 in
    (m.0, m.1, (c, (revalidated texts command c h1, m.2, m.3, m.4, m.5, m.6, m.7)))

-- A queueing that is written replaces the row of the operation with the version expected, gives it the
-- status queued and the next version, adds all the events and exactly the command, and that command
-- passes the validators and is one of the operation, its owner, its message and its order version.
pub queued_with_command :
    (texts : Texts) (scope : AccessScope) (o : OrderOperation) (events : List OrderOperationEvent)
    (command : ProviderCommandEnvelope) (n : ℕ) (d e : Database)
    → queue_operation_with_events_and_command texts scope o events command n d ≡ ok e
    → IsReplaced o n d e
      × (o.status ≡ queued)
      × (o.version ≡ suc n)
      × (e.events ≡ appended events d.events)
      × (e.commands ≡ command ∷ d.commands)
      × IsCommandOf texts o command
unfolding queue_operation_with_events_and_command
queued_with_command texts scope o events command n d e h =
    let (d2, (h0, g0)) = bind-ok _ (insert_outbox_message command) e h in
    let (d1, (h1, g1)) = bind-ok _ (insert_events events) d2 h0 in
    let (c, (h2, g2)) = bind-ok _ (λ c. update_row scope.tenant_id c o n d) d1 h1 in
    let (u, (h3, g3)) = bind-ok _ (λ _. require_customer scope) c h2 in
    let (v, (h4, g4)) = bind-ok _ (λ _. validate_event_ownership scope events) u h3 in
    let (x, (h5, g5)) = bind-ok _ (λ _. validate_operation_ownership scope o) v h4 in
    let is = associated texts o events command n h5 in
    let added = insert_events-appended events d1 d2 g1 in
    let rest = update_row-rest scope.tenant_id c o n d d1 g2 in
    let sent = insert_outbox_message-rest command d2 e g0 in
    (
      queue_operation_with_events_and_command-written texts scope o events command n d e h,
      is.0,
      is.1,
      ground (arith, added, rest, sent),
      ground (arith, added, rest, sent),
      is.2,
    )
