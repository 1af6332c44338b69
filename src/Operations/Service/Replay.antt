-- ===== src/Operations/Service/Replay.antt =====
-- A request that src/agent/operations/service.py has recorded before writes nothing when it comes again.
pub mod Requests
use langgraph_refund_agent.Base.{
  ℕ, zero, suc, String, str_eq, str_append, ◌≡◌, refl, sym, ◌∙◌, Bool, true, false, not, Option,
  none, some, List, [], ◌∷◌, Result, ok, err, arith, if◌then◌else◌,
}
use langgraph_refund_agent.Base.Actions.{pure, raise, lift, raise_when, ◌>>=◌, ◌>>◌}
use langgraph_refund_agent.Operations.Lifecycle.{OperationRecordStatus, queued, status_eq}
use langgraph_refund_agent.Operations.Record.{
  OrderOperation, OrderOperationEvent, OperationServiceResult, validate_operation, validate_event,
}
use langgraph_refund_agent.Operations.Repository.Tables.{
  Database, OperationError, select_by_id, select_by_source_message, select_event,
}
use langgraph_refund_agent.Operations.Repository.Writes.{require_customer}
use langgraph_refund_agent.Operations.Service.World.{
  Environment, World, Call, arrive, query, from_row, event_from_row, fetch_operation, get_operation,
  find_event_by_idempotency_key, unless_recorded, retry, unchanged_result, find_by_source_message,
  validate_request_metadata, key_of,
}
use langgraph_refund_agent.Operations.Types.{
  OrderOperationRequest, OrderSnapshot, OperationDecision,
}
use langgraph_refund_agent.Operations.Service.Pending.{
  unless_exists, unless_duplicate, create_attempts, create_for, create_pending_operation,
}
use langgraph_refund_agent.Operations.Service.Changes.{
  CustomerDecision, confirm, cancel, action_text, change_attempts, change_from_pending,
  confirm_operation, cancel_pending_operation, update_attempts, update_operation_status,
}
use langgraph_refund_agent.Operations.Service.CaseLink.{attach_attempts, attach_support_case}
use langgraph_refund_agent.Operations.Service.Submission.{
  submit_attempts, submit_confirmed_operation, queue_confirmed_operation,
}
use langgraph_refund_agent.Auth.{AccessScope, customer_id}

-- A call left the database and the submissions as they were.
abbrev pub IsQuiet : {A : Type 0} → World → Result OperationError A × World → Type 0
IsQuiet w r = (r.1.database ≡ w.database) × (r.1.submissions ≡ w.submissions)

raise_when-IsQuiet :
    {A : Type 0} (b : Bool) (e : OperationError) (k : Call A) (w : World)
    → IsQuiet w (k w)
    → IsQuiet w ((raise_when b e >> k) w)
unfolding raise_when ◌>>=◌ pure raise
raise_when-IsQuiet true e k w h = (refl, refl)
raise_when-IsQuiet false e k w h = h

module _ (env : Environment) (alone : (n : ℕ) (d : Database) → env.others n d ≡ d)
    (scope : AccessScope) where
  get_operation-IsQuiet : (id : String) (w : World) → IsQuiet w (get_operation env scope id w)
  unfolding get_operation fetch_operation query ◌>>=◌ lift pure raise
  get_operation-IsQuiet id w = ground (arith, alone w.calls w.database)

  unchanged_result-IsQuiet : (id : String) (w : World) → IsQuiet w (unchanged_result env scope id w)
  unfolding unchanged_result ◌>>=◌ pure
  unchanged_result-IsQuiet id w = ground (arith, get_operation-IsQuiet id w)

  unless_recorded-IsQuiet :
      (c key : String) (body : Call OperationServiceResult) (e : OrderOperationEvent) (w : World)
      → require_customer scope ≡ ok c
      → select_event scope.tenant_id c key w.database.events ≡ some e
      → IsQuiet w (unless_recorded env scope key body w)
  unfolding unless_recorded find_event_by_idempotency_key retry query event_from_row ◌>>=◌ lift
      validate_event
  unless_recorded-IsQuiet c key body e w customer found = ground (
    arith,
    customer,
    alone w.calls w.database,
    found,
    unchanged_result-IsQuiet e.operation_id (arrive env w),
  )

  unless_exists-IsQuiet :
      (request : OrderOperationRequest) (snapshot : OrderSnapshot) (decision : OperationDecision)
      (c : String) (create_it : Call OperationServiceResult) (o : OrderOperation) (w : World)
      → require_customer scope ≡ ok c
      → select_by_source_message scope.tenant_id c request.thread_id request.source_message_id
          w.database.operations
        ≡ some o
      → IsQuiet w (unless_exists env scope request snapshot decision create_it w)
  unfolding unless_exists unless_duplicate find_by_source_message query from_row validate_operation
      ◌>>=◌ lift pure
  unless_exists-IsQuiet request snapshot decision c create_it o w customer found =
      ground (arith, customer, alone w.calls w.database, found)

  create_attempts-IsQuiet :
      (request : OrderOperationRequest) (snapshot : OrderSnapshot) (decision : OperationDecision)
      (n : ℕ) (c excerpt : String) (o : OrderOperation) (w : World)
      → require_customer scope ≡ ok c
      → select_by_source_message scope.tenant_id c request.thread_id request.source_message_id
          w.database.operations
        ≡ some o
      → IsQuiet w (create_attempts env scope request snapshot decision n c excerpt w)
  unfolding create_attempts
  create_attempts-IsQuiet request snapshot decision zero c excerpt o w customer found =
      unless_exists-IsQuiet request snapshot decision c _ o w customer found
  create_attempts-IsQuiet request snapshot decision (suc n) c excerpt o w customer found =
      unless_exists-IsQuiet request snapshot decision c _ o w customer found

  pub create-IsQuiet :
      (request : OrderOperationRequest) (snapshot : OrderSnapshot) (decision : OperationDecision)
      (c excerpt : String) (o : OrderOperation) (w : World)
      → require_customer scope ≡ ok c
      → select_by_source_message scope.tenant_id c request.thread_id request.source_message_id
          w.database.operations
        ≡ some o
      → IsQuiet w (create_pending_operation env scope request snapshot decision excerpt w)
  unfolding create_pending_operation create_for require_customer
  create-IsQuiet request snapshot decision c excerpt o w customer found =
      let is : customer_id scope ≡ some c = ground (arith, customer) in
      rw is (
        raise_when-IsQuiet _ _ _ w (
          raise_when-IsQuiet _ _ _ w (
            raise_when-IsQuiet _ _ _ w (
              raise_when-IsQuiet _ _ _ w (
                raise_when-IsQuiet _ _ _ w (
                  create_attempts-IsQuiet request snapshot decision env.max_write_attempts c
                    (env.texts.strip excerpt) o w customer found))))))

  pub queue-IsQuiet :
      (c id request_id connection_id : String) (o : OrderOperation) (w : World)
      → require_customer scope ≡ ok c
      → select_by_id scope.tenant_id c id w.database.operations ≡ some o
      → o.status ≡ queued
      → IsQuiet w (queue_confirmed_operation env scope id request_id connection_id w)
  unfolding queue_confirmed_operation validate_request_metadata get_operation fetch_operation query
      from_row validate_operation status_eq raise_when ◌>>=◌ lift pure raise
  queue-IsQuiet c id request_id connection_id o w customer found status =
      ground (arith, customer, alone w.calls w.database, found, status)

  pub change-IsQuiet :
      (action : CustomerDecision) (c id request_id : String) (e : OrderOperationEvent) (w : World)
      → require_customer scope ≡ ok c
      → select_event scope.tenant_id c
          (key_of id (action_text action) (env.texts.strip request_id))
          w.database.events
        ≡ some e
      → IsQuiet w (change_from_pending env scope action id request_id w)
  unfolding change_from_pending raise_when ◌>>=◌ pure raise
  change-IsQuiet action c id request_id e w customer found =
      let key = key_of id (action_text action) (env.texts.strip request_id) in
      ground (
        arith,
        unless_recorded-IsQuiet c key
            (change_attempts env scope env.max_write_attempts action id key) e w customer found,
      )

  pub confirm-IsQuiet :
      (c id request_id : String) (e : OrderOperationEvent) (w : World)
      → require_customer scope ≡ ok c
      → select_event scope.tenant_id c
          (key_of id "confirmed" (env.texts.strip request_id))
          w.database.events
        ≡ some e
      → IsQuiet w (confirm_operation env scope id request_id w)
  unfolding confirm_operation get_operation fetch_operation query from_row validate_operation
      raise_when ◌>>=◌ lift pure raise
  confirm-IsQuiet c id request_id e w customer found = ground (
    arith,
    customer,
    alone w.calls w.database,
    change-IsQuiet confirm c id request_id e (arrive env w) customer,
    found,
  )

  pub update-IsQuiet :
      (c id : String) (target : OperationRecordStatus) (request_id actor : String)
      (reference : Option String) (e : OrderOperationEvent) (w : World)
      → require_customer scope ≡ ok c
      → select_event scope.tenant_id c
          (key_of id "status" (env.texts.strip request_id))
          w.database.events
        ≡ some e
      → IsQuiet w (update_operation_status env scope id target request_id actor reference w)
  unfolding update_operation_status validate_request_metadata raise_when ◌>>=◌ lift pure raise
  update-IsQuiet c id target request_id actor reference e w customer found =
      let key = key_of id "status" (env.texts.strip request_id) in
      ground (
        arith,
        unless_recorded-IsQuiet c key
            (update_attempts env scope env.max_write_attempts id target key (env.texts.strip actor)
              reference)
            e w customer found,
      )

  pub attach-IsQuiet :
      (c id case_id request_id : String) (e : OrderOperationEvent) (w : World)
      → require_customer scope ≡ ok c
      → select_event scope.tenant_id c
          (key_of id "support-case" (env.texts.strip request_id))
          w.database.events
        ≡ some e
      → IsQuiet w (attach_support_case env scope id case_id request_id w)
  unfolding attach_support_case
  attach-IsQuiet c id case_id request_id e w customer found =
      raise_when-IsQuiet _ _ _ w (unless_recorded-IsQuiet c _ _ e w customer found)

  pub submit-IsQuiet :
      (c id request_id : String) (e : OrderOperationEvent) (w : World)
      → require_customer scope ≡ ok c
      → select_event scope.tenant_id c
          (key_of id "submitted" (env.texts.strip request_id))
          w.database.events
        ≡ some e
      → IsQuiet w (submit_confirmed_operation env scope id request_id w)
  unfolding submit_confirmed_operation
  submit-IsQuiet c id request_id e w customer found =
      raise_when-IsQuiet _ _ _ w (unless_recorded-IsQuiet c _ _ e w customer found)
