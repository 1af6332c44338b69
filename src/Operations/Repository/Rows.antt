-- ===== src/Operations/Repository/Rows.antt =====
-- How the table of operations answers by primary key, before and after a write.
use langgraph_refund_agent.Base.{
  ℕ, String, eq_iff, ◌≡◌, ◌≢◌, refl, none, some, List, [], ◌∷◌, ok, arith, bind-ok, ◌∙◌,
}
use langgraph_refund_agent.Operations.Record.{Texts, OrderOperation, OrderOperationEvent}
use langgraph_refund_agent.Operations.Repository.Tables.{Database, find_row, put_row}
use langgraph_refund_agent.Operations.Repository.Constraints.{
  insert_events, insert_operation, update_row, set_columns,
}
use langgraph_refund_agent.Operations.Repository.Writes.{
  create_operation_with_events, update_operation_with_events,
  queue_operation_with_events_and_command, insert_outbox_message,
}
use langgraph_refund_agent.Integrations.Commands.{ProviderCommandEnvelope}
use langgraph_refund_agent.Auth.{AccessScope}

pub find_row-id :
    (id : String) (os : List OrderOperation) (r : OrderOperation)
    → find_row id os ≡ some r
    → r.operation_id ≡ id
unfolding find_row
find_row-id id [] r h = ground arith
find_row-id id (o ∷ os) r h = ground (arith, eq_iff o.operation_id id, find_row-id id os r)

pub find_row-put_row_self :
    (new old : OrderOperation) (os : List OrderOperation)
    → find_row new.operation_id os ≡ some old
    → find_row new.operation_id (put_row new os) ≡ some new
unfolding find_row put_row
find_row-put_row_self new old [] h = ground arith
find_row-put_row_self new old (o ∷ os) h = ground (
  arith,
  eq_iff o.operation_id new.operation_id,
  eq_iff new.operation_id new.operation_id,
  find_row-put_row_self new old os,
)

pub find_row-put_row_other :
    (id : String) (new : OrderOperation) (os : List OrderOperation)
    → id ≢ new.operation_id
    → find_row id (put_row new os) ≡ find_row id os
unfolding find_row put_row
find_row-put_row_other id new [] h = refl
find_row-put_row_other id new (o ∷ os) h = ground (
  arith,
  eq_iff o.operation_id new.operation_id,
  eq_iff o.operation_id id,
  eq_iff new.operation_id id,
  find_row-put_row_other id new os,
)

-- Inserting events leaves the operations alone.
pub insert_events-operations :
    (es : List OrderOperationEvent) (d e : Database)
    → insert_events es d ≡ ok e
    → e.operations ≡ d.operations
unfolding insert_events
insert_events-operations [] d e h = ground arith
insert_events-operations (x ∷ es) d e h =
    ground (arith, insert_events-operations es (record d { events = x ∷ d.events }) e)

-- An update that is written found the row with the version expected, and replaced it.
pub update_row-written :
    (tenant customer : String) (o : OrderOperation) (n : ℕ) (d e : Database)
    → update_row tenant customer o n d ≡ ok e
    → (row : OrderOperation) × ((find_row o.operation_id d.operations ≡ some row)
        × ((row.version ≡ n) × (e.operations ≡ put_row (set_columns row o) d.operations)))
unfolding update_row
update_row-written tenant customer o n d e h = ground arith

pub insert_operation-written :
    (o : OrderOperation) (d e : Database)
    → insert_operation o d ≡ ok e
    → (find_row o.operation_id d.operations ≡ none) × (e.operations ≡ o ∷ d.operations)
unfolding insert_operation
insert_operation-written o d e h = ground arith

insert_outbox_message-operations :
    (c : ProviderCommandEnvelope) (d e : Database)
    → insert_outbox_message c d ≡ ok e
    → e.operations ≡ d.operations
unfolding insert_outbox_message
insert_outbox_message-operations c d e h = ground arith

-- What a transaction that wrote an operation did to the table.
abbrev pub IsReplaced : OrderOperation → ℕ → Database → Database → Type 0
IsReplaced o n d e =
    (row : OrderOperation) × ((find_row o.operation_id d.operations ≡ some row)
      × ((row.version ≡ n) × (e.operations ≡ put_row (set_columns row o) d.operations)))

pub update_operation_with_events-written :
    (scope : AccessScope) (o : OrderOperation) (events : List OrderOperationEvent) (n : ℕ)
    (d e : Database)
    → update_operation_with_events scope o events n d ≡ ok e
    → IsReplaced o n d e
unfolding update_operation_with_events
update_operation_with_events-written scope o events n d e h =
    let (d1, (h1, g1)) = bind-ok _ (insert_events events) e h in
    let (c, (h2, g2)) = bind-ok _ (λ c. update_row scope.tenant_id c o n d) d1 h1 in
    let (row, (found, (version, written))) = update_row-written scope.tenant_id c o n d d1 g2 in
    (row, (found, (version, insert_events-operations events d1 e g1 ∙ written)))

pub queue_operation_with_events_and_command-written :
    (texts : Texts) (scope : AccessScope) (o : OrderOperation) (events : List OrderOperationEvent)
    (command : ProviderCommandEnvelope) (n : ℕ) (d e : Database)
    → queue_operation_with_events_and_command texts scope o events command n d ≡ ok e
    → IsReplaced o n d e
unfolding queue_operation_with_events_and_command
queue_operation_with_events_and_command-written texts scope o events command n d e h =
    let (d2, (h0, g0)) = bind-ok _ (insert_outbox_message command) e h in
    let (d1, (h1, g1)) = bind-ok _ (insert_events events) d2 h0 in
    let (c, (h2, g2)) = bind-ok _ (λ c. update_row scope.tenant_id c o n d) d1 h1 in
    let (row, (found, (version, written))) = update_row-written scope.tenant_id c o n d d1 g2 in
    let same = insert_outbox_message-operations command d2 e g0 in
    (row, (found, (version, same ∙ insert_events-operations events d1 d2 g1 ∙ written)))

pub create_operation_with_events-written :
    (scope : AccessScope) (o : OrderOperation) (events : List OrderOperationEvent) (d e : Database)
    → create_operation_with_events scope o events d ≡ ok e
    → (find_row o.operation_id d.operations ≡ none) × (e.operations ≡ o ∷ d.operations)
unfolding create_operation_with_events
create_operation_with_events-written scope o events d e h =
    let (d1, (h1, g1)) = bind-ok _ (insert_events events) e h in
    let (u, (h2, g2)) = bind-ok _ (λ _. insert_operation o d) d1 h1 in
    let (absent, written) = insert_operation-written o d d1 g2 in
    (absent, insert_events-operations events d1 e g1 ∙ written)
