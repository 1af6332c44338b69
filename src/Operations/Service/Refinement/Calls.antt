-- ===== src/Operations/Service/Refinement/Calls.antt =====
-- The calls of `OperationService` (src/agent/operations/service.py) are histories of abstract writes.
use langgraph_refund_agent.Base.{ℕ, zero, suc, String, ◌≡◌, true, not, Option, none, [], ◌∷◌, arith}
use langgraph_refund_agent.Base.Actions.{
  Holds, Holds-pure, Holds-raise, Holds-bind, Holds-bind-lift, Holds-if, Holds-raise_when,
  Holds-weaken, Holds-given,
}
use langgraph_refund_agent.Operations.Lifecycle.{
  OperationRecordStatus, pending_confirmation, status_eq, transition_allowed,
}
use langgraph_refund_agent.Operations.Record.{
  OrderOperation, OrderOperationEvent, OperationServiceResult,
}
use langgraph_refund_agent.Operations.Repository.Tables.{Database}
use langgraph_refund_agent.Operations.Service.World.{
  Environment, Call, validate_status_transition, identity,
}
use langgraph_refund_agent.Operations.Service.Changes.{
  CustomerDecision, confirm, cancel, next_status, decision_events, decide_pending, change_attempts,
  change_from_pending, confirm_operation, cancel_pending_operation, write_status, update_attempts,
  update_operation_status, already_decided,
}
use langgraph_refund_agent.Operations.Service.Refinement.Rules.{
  Origin, Rely, Sees, Returned, Reached, Holds-new_id, Holds-build_status_update,
  Holds-get_operation, Holds-unless_recorded,
}
use langgraph_refund_agent.Auth.{AccessScope}
use langgraph_refund_agent.Operations.Service.Refinement.Updates.{
  is_pending, allowed_lem, Refines, Holds-written,
}

module _ (env : Environment) (start : Origin) (rely : Rely env start) where
  module _ (scope : AccessScope) where
    Holds-decision_events :
        (action : CustomerDecision) (key : String) (current updated : OrderOperation)
        (event : OrderOperationEvent) (P : Database → Type 0)
        → Holds
            (Reached env start)
            (λ w. P w.database)
            (decision_events env scope action key current updated event)
            (λ _ w. P w.database)
    unfolding decision_events
    Holds-decision_events confirm key current updated event P =
        Holds-bind _ (Holds-new_id env start P)
          λ id. Holds-bind-lift _ λ e h. Holds-pure _ (λ w i p. p)
    Holds-decision_events cancel key current updated event P = Holds-pure _ (λ w i p. p)

    next_allowed :
        (action : CustomerDecision) (current : OrderOperation)
        → current.status ≡ pending_confirmation
        → transition_allowed current.status (next_status action current) ≡ true
    unfolding transition_allowed
    next_allowed action current h = ground arith

    Holds-decide_pending :
        (action : CustomerDecision) (key : String) (current : OrderOperation)
        (again : Call OperationServiceResult)
        → current.status ≡ pending_confirmation
        → Refines env start again
        → Holds
            (Reached env start)
            (λ w. Sees current w.database.operations)
            (decide_pending env scope action key current again)
            Returned
    unfolding decide_pending
    Holds-decide_pending action key current again pending h =
        Holds-bind _
          (Holds-build_status_update env start (λ d. Sees current d.operations) current _ _
            (identity scope) none)
          λ changed. Holds-given λ is.
            Holds-bind (λ _ w. Sees current w.database.operations)
              (Holds-decision_events action key current changed.0 changed.1
                (λ d. Sees current d.operations))
              λ events.
                Holds-written env start rely scope current changed.0 (next_status action current)
                  events key _ again (next_allowed action current pending) is h

    Holds-change_attempts :
        (n : ℕ) (action : CustomerDecision) (id key : String)
        → Refines env start (change_attempts env scope n action id key)
    unfolding change_attempts
    Holds-change_attempts zero action id key = Holds-raise _
    Holds-change_attempts (suc n) action id key =
        Holds-bind _ (Holds-get_operation env start scope id) λ current.
          Holds-if (not (status_eq current.status pending_confirmation))
            (λ _.
              Holds-if (already_decided action current.status) (λ _. Holds-pure _ (λ w i p. tt))
                (λ _. Holds-raise _))
            (λ e.
              Holds-decide_pending action key current _ (is_pending current e)
                (Holds-change_attempts n action id key))

    Holds-change_from_pending :
        (action : CustomerDecision) (id request_id : String)
        → Refines env start (change_from_pending env scope action id request_id)
    unfolding change_from_pending
    Holds-change_from_pending action id request_id =
        Holds-raise_when _ _
          λ _. Holds-unless_recorded env start scope _ _ (Holds-change_attempts _ action id _)

    pub Holds-confirm_operation :
        (id request_id : String) → Refines env start (confirm_operation env scope id request_id)
    unfolding confirm_operation
    Holds-confirm_operation id request_id =
        Holds-bind _ (Holds-get_operation env start scope id) λ operation.
          Holds-raise_when _ _
            λ _. Holds-weaken (λ w i p. tt) (Holds-change_from_pending confirm id request_id)

    pub Holds-cancel_pending_operation :
        (id request_id : String)
        → Refines env start (cancel_pending_operation env scope id request_id)
    unfolding cancel_pending_operation
    Holds-cancel_pending_operation id request_id = Holds-change_from_pending cancel id request_id

    Holds-update_attempts :
        (n : ℕ) (id : String) (target : OperationRecordStatus) (key actor : String)
        (reference : Option String)
        → Refines env start (update_attempts env scope n id target key actor reference)
    unfolding update_attempts write_status
    Holds-update_attempts zero id target key actor reference = Holds-raise _
    Holds-update_attempts (suc n) id target key actor reference =
        Holds-bind _ (Holds-get_operation env start scope id) λ current.
          Holds-if (status_eq current.status target) (λ _. Holds-pure _ (λ w i p. tt))
            (λ _. Holds-bind-lift (validate_status_transition current.status target) λ u e.
              Holds-bind _
                (Holds-build_status_update env start (λ d. Sees current d.operations) current _ _
                  actor reference)
                λ changed. Holds-given λ is.
                  Holds-written env start rely scope current changed.0 target (changed.1 ∷ []) key _
                    _ (allowed_lem current.status target e) is
                    (Holds-update_attempts n id target key actor reference))

    pub Holds-update_operation_status :
        (id : String) (target : OperationRecordStatus) (request_id actor : String)
        (reference : Option String)
        → Refines env start (update_operation_status env scope id target request_id actor reference)
    unfolding update_operation_status
    Holds-update_operation_status id target request_id actor reference =
        Holds-bind-lift _ λ metadata _. Holds-raise_when _ _ λ _.
          Holds-unless_recorded env start scope _ _
            (Holds-update_attempts _ id target _ metadata.1 reference)
