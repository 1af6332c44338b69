-- ===== src/Operations/Service/Replay/Requests.antt =====
-- A request that src/agent/operations/service.py has recorded before, whichever its method.
use langgraph_refund_agent.Base.{ℕ, ◌≡◌, String, some, ok}
use langgraph_refund_agent.Operations.Lifecycle.{queued}
use langgraph_refund_agent.Operations.Record.{OrderOperation, OrderOperationEvent}
use langgraph_refund_agent.Operations.Repository.Tables.{
  Database, select_by_id, select_by_source_message, select_event,
}
use langgraph_refund_agent.Operations.Repository.Writes.{require_customer}
use langgraph_refund_agent.Operations.Service.World.{Environment, World, key_of}
use langgraph_refund_agent.Operations.Service.Requests.{
  ServiceRequest, create, confirm, submit, queue, cancel, update_status, attach, serve,
}
use langgraph_refund_agent.Operations.Service.Changes
use langgraph_refund_agent.Operations.Service.Changes.{cancel_pending_operation}
use langgraph_refund_agent.Operations.Service.Replay.{
  IsQuiet, create-IsQuiet, queue-IsQuiet, change-IsQuiet, confirm-IsQuiet, update-IsQuiet,
  attach-IsQuiet, submit-IsQuiet,
}
use langgraph_refund_agent.Auth.{AccessScope}

module _ (env : Environment) (scope : AccessScope) (customer : String) (db : Database) where
  -- An event of the caller with the key of an action and of the request.
  abbrev pub HasEvent : String → String → String → Type 0
  HasEvent id action request_id =
      (e : OrderOperationEvent) × (select_event scope.tenant_id customer
          (key_of id action (env.texts.strip request_id)) db.events
        ≡ some e)

  -- The trace that an earlier run of the same request leaves: the operation that the message created,
  -- the queued operation, or the event with the request's key.
  abbrev pub IsRecorded : ServiceRequest → Type 0
  IsRecorded (create request snapshot decision excerpt) =
      (o : OrderOperation) × (select_by_source_message scope.tenant_id customer request.thread_id
          request.source_message_id db.operations
        ≡ some o)
  IsRecorded (queue id request_id connection_id) =
      (o : OrderOperation) × ((select_by_id scope.tenant_id customer id db.operations ≡ some o)
        × (o.status ≡ queued))
  IsRecorded (confirm id request_id) = HasEvent id "confirmed" request_id
  IsRecorded (cancel id request_id) = HasEvent id "cancelled" request_id
  IsRecorded (submit id request_id) = HasEvent id "submitted" request_id
  IsRecorded (update_status id target request_id actor reference) = HasEvent id "status" request_id
  IsRecorded (attach id case_id request_id) = HasEvent id "support-case" request_id

-- Where no other process writes, a request of a customer that is already recorded changes nothing in the
-- database and sends nothing to the order system, whether the call returns or raises.
pub repeated_request_writes_nothing :
    (env : Environment) (scope : AccessScope) (customer : String) (r : ServiceRequest) (w : World)
    → ((n : ℕ) (d : Database) → env.others n d ≡ d)
    → require_customer scope ≡ ok customer
    → IsRecorded env scope customer w.database r
    → IsQuiet w (serve env scope r w)
unfolding serve cancel_pending_operation
repeated_request_writes_nothing env scope c (create request snapshot decision excerpt) w alone known
      (o, h) =
    create-IsQuiet env alone scope request snapshot decision c excerpt o w known h
repeated_request_writes_nothing env scope c (queue id request_id connection_id) w alone known
      (o, (h, s)) =
    queue-IsQuiet env alone scope c id request_id connection_id o w known h s
repeated_request_writes_nothing env scope c (confirm id request_id) w alone known (e, h) =
    confirm-IsQuiet env alone scope c id request_id e w known h
repeated_request_writes_nothing env scope c (cancel id request_id) w alone known (e, h) =
    change-IsQuiet env alone scope Changes.cancel c id request_id e w known h
repeated_request_writes_nothing env scope c (submit id request_id) w alone known (e, h) =
    submit-IsQuiet env alone scope c id request_id e w known h
repeated_request_writes_nothing env scope c (update_status id target request_id actor reference) w
      alone known (e, h) =
    update-IsQuiet env alone scope c id target request_id actor reference e w known h
repeated_request_writes_nothing env scope c (attach id case_id request_id) w alone known (e, h) =
    attach-IsQuiet env alone scope c id case_id request_id e w known h
