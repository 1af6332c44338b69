-- ===== src/Operations/Service/Refinement/Creation.antt =====
-- The creation of an operation by `OperationService` (src/agent/operations/service.py) is a history of
-- abstract writes.
use langgraph_refund_agent.Base.{
  ℕ, zero, suc, String, ◌≡◌, Option, none, some, List, [], ◌∷◌, Result, ok, err, arith,
}
use langgraph_refund_agent.Base.Actions.{
  Holds, OnOk, Holds-pure, Holds-raise, Holds-bind, Holds-bind-lift, Holds-attempt,
  Holds-raise_when, Holds-weaken, Holds-given,
}
use langgraph_refund_agent.Operations.Types.{
  OrderOperationRequest, OrderSnapshot, OperationDecision,
}
use langgraph_refund_agent.Operations.Lifecycle.{pending_confirmation}
use langgraph_refund_agent.Operations.Record.{
  Texts, OrderOperation, OperationServiceResult, validate_operation,
}
use langgraph_refund_agent.Operations.Repository.Tables.{
  OperationError, active_conflict, duplicate_idempotency, duplicate_source_message,
  select_by_source_message, select_active,
}
use langgraph_refund_agent.Operations.Repository.Rows.{create_operation_with_events-written}
use langgraph_refund_agent.Operations.Repository.Writes.{
  require_customer, create_operation_with_events,
}
use langgraph_refund_agent.Operations.Service.World.{
  Environment, Call, validated, from_row, find_by_source_message, find_active_by_order_id,
}
use langgraph_refund_agent.Operations.Service.Pending.{
  pending_operation, build_pending_operation, unless_active, unless_duplicate, unless_exists,
  after_create, create_new, create_attempts, create_for, create_pending_operation,
}
use langgraph_refund_agent.Operations.Service.History.{Write, recorded}
use langgraph_refund_agent.Operations.Service.Refinement.Rules.{
  Origin, Anything, Returned, Reached, Holds-now, Holds-new_id, Holds-query, Holds-transact,
}
use langgraph_refund_agent.Operations.Service.Refinement.Updates.{Refines}
use langgraph_refund_agent.Auth.{AccessScope, customer_id}

-- The validated record of an operation awaits its confirmation if the given one does.
validated-is :
    (texts : Texts) (p o : OrderOperation)
    → validated (validate_operation texts p) ≡ ok o
    → (o.status ≡ p.status) × (o.version ≡ p.version)
unfolding validate_operation
validated-is texts p o h = ground arith

module _ (env : Environment) (start : Origin) (scope : AccessScope)
    (request : OrderOperationRequest) (snapshot : OrderSnapshot) (decision : OperationDecision)
    (may : (os ps : List OrderOperation) → Write os ps → start.Ours os ps) where
  Holds-build_pending_operation :
      (customer excerpt : String)
      → Holds
          (Reached env start)
          Anything
          (build_pending_operation env scope request snapshot decision customer excerpt)
          (λ b w. ((b.0.status ≡ pending_confirmation) × (b.0.version ≡ 1)) × Unit {0})
  unfolding build_pending_operation
  Holds-build_pending_operation customer excerpt =
      Holds-bind _ (Holds-now env start (λ _. Unit)) λ time.
        Holds-bind _ (Holds-new_id env start (λ _. Unit)) λ id. Holds-bind-lift _ λ operation e.
          Holds-bind _ (Holds-new_id env start (λ _. Unit)) λ event_id. Holds-bind-lift _ λ event f.
            let is =
              validated-is env.texts
                (pending_operation scope customer request snapshot decision excerpt id time)
                operation e in
            Holds-pure _ (λ w i p. ((is.0, is.1), tt))

  Holds-unless_active :
      (create : Call OperationServiceResult) (active : Option OrderOperation)
      → Refines env start create
      → Refines env start (unless_active env scope request snapshot decision create active)
  unfolding unless_active
  Holds-unless_active create none h = h
  Holds-unless_active create (some active) h = Holds-pure _ (λ w i p. tt)

  Holds-unless_duplicate :
      (create : Call OperationServiceResult) (duplicate_of : Option OrderOperation)
      → Refines env start create
      → Refines env start (unless_duplicate env scope request snapshot decision create duplicate_of)
  unfolding unless_duplicate find_active_by_order_id
  Holds-unless_duplicate create none h =
      Holds-bind Returned
        (Holds-bind-lift (require_customer scope) λ c _.
          Holds-query env start (λ _. Unit)
            (λ db. from_row env (select_active scope.tenant_id c request.order_id db.operations))
            (λ _ _. Unit) (λ n d p. tt) (λ a d e p. tt))
        λ active. Holds-unless_active create active h
  Holds-unless_duplicate create (some o) h = Holds-pure _ (λ w i p. tt)

  Holds-unless_exists :
      (create : Call OperationServiceResult)
      → Refines env start create
      → Refines env start (unless_exists env scope request snapshot decision create)
  unfolding unless_exists find_by_source_message
  Holds-unless_exists create h =
      Holds-bind Returned
        (Holds-bind-lift (require_customer scope) λ c _.
          Holds-query env start (λ _. Unit)
            (λ db. from_row env (
              select_by_source_message scope.tenant_id c request.thread_id request.source_message_id
                db.operations))
            (λ _ _. Unit) (λ n d p. tt) (λ a d e p. tt))
        λ duplicate_of. Holds-unless_duplicate create duplicate_of h

  Holds-after_create :
      (success : OperationServiceResult) (again : Call OperationServiceResult)
      (written : Result OperationError (Unit {0}))
      → Refines env start again
      → Refines env start (after_create env scope request snapshot decision success again written)
  unfolding after_create
  Holds-after_create success again (ok u) h = Holds-pure success (λ w i p. tt)
  Holds-after_create success again (err active_conflict) h = h
  Holds-after_create success again (err duplicate_idempotency) h = h
  Holds-after_create success again (err duplicate_source_message) h = h
  Holds-after_create success again (err e) h = Holds-raise e

  Holds-create_new :
      (customer excerpt : String) (again : Call OperationServiceResult)
      → Refines env start again
      → Refines env start (create_new env scope request snapshot decision customer excerpt again)
  unfolding create_new
  Holds-create_new customer excerpt again h =
      Holds-bind _ (Holds-build_pending_operation customer excerpt) λ built. Holds-given λ is.
        Holds-bind (OnOk Returned)
          (Holds-attempt (
            Holds-transact env start (λ _. Unit)
              (create_operation_with_events scope built.0 (built.1 ∷ [])) (λ n d p. tt)
              (λ d e wrote p.
                let (absent, written) =
                  create_operation_with_events-written scope built.0 (built.1 ∷ []) d e wrote in
                may d.operations e.operations (recorded built.0 is.0 is.1 absent written))))
          (λ written. Holds-weaken (λ w i p. tt) (Holds-after_create _ again written h))

  Holds-create_attempts :
      (n : ℕ) (customer excerpt : String)
      → Refines env start (create_attempts env scope request snapshot decision n customer excerpt)
  unfolding create_attempts
  Holds-create_attempts zero customer excerpt = Holds-unless_exists _ (Holds-raise _)
  Holds-create_attempts (suc n) customer excerpt =
      Holds-unless_exists _
        (Holds-create_new customer excerpt _ (Holds-create_attempts n customer excerpt))

  Holds-create_for :
      (customer : Option String) (excerpt : String)
      → Refines env start (create_for env scope request snapshot decision customer excerpt)
  unfolding create_for
  Holds-create_for none excerpt = Holds-raise _
  Holds-create_for (some customer) excerpt = Holds-raise_when _ _ λ _. Holds-raise_when _ _ λ _.
      Holds-raise_when _ _ λ _.
        Holds-raise_when _ _ λ _.
          Holds-raise_when _ _ λ _. Holds-create_attempts env.max_write_attempts customer excerpt

  pub Holds-create_pending_operation :
      (excerpt : String)
      → Refines env start (create_pending_operation env scope request snapshot decision excerpt)
  unfolding create_pending_operation
  Holds-create_pending_operation excerpt =
      Holds-create_for (customer_id scope) (env.texts.strip excerpt)
