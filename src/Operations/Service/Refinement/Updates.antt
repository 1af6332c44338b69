-- ===== src/Operations/Service/Refinement/Updates.antt =====
-- The update of an operation that `OperationService` (src/agent/operations/service.py) has read.
use langgraph_refund_agent.Base.{ℕ, String, ◌≡◌, refl, true, false, not, List, ok, arith}
use langgraph_refund_agent.Base.Actions.{
  ◌>>=◌, attempt, Holds, OnOk, Holds-bind, Holds-attempt, Holds-weaken,
}
use langgraph_refund_agent.Operations.Lifecycle.{
  OperationRecordStatus, pending_confirmation, status_eq, transition_allowed,
}
use langgraph_refund_agent.Operations.Record.{
  OrderOperation, OrderOperationEvent, OperationServiceResult,
}
use langgraph_refund_agent.Operations.Repository.Tables.{Database}
use langgraph_refund_agent.Operations.Repository.Constraints.{set_columns}
use langgraph_refund_agent.Operations.Repository.Rows.{
  find_row-id, IsReplaced, update_operation_with_events-written,
}
use langgraph_refund_agent.Operations.Repository.Writes.{update_operation_with_events}
use langgraph_refund_agent.Operations.Service.World.{
  Environment, Call, transact, after_write, validate_status_transition,
}
use langgraph_refund_agent.Operations.Service.History.{Write, transitioned}
use langgraph_refund_agent.Operations.Service.Refinement.Rules.{
  Origin, Rely, Sees, Sees-Evolves, Anything, Returned, Reached, IsUpdate, Holds-transact,
  Holds-after_write,
}
use langgraph_refund_agent.Auth.{AccessScope}

-- The update of an operation as it was read is a move that the lifecycle allows: the version that the
-- statement asks for says that nobody has written to the row since.
pub moves :
    (current u : OrderOperation) (target : OperationRecordStatus) (d e : Database)
    → transition_allowed current.status target ≡ true
    → IsUpdate current target u
    → IsReplaced u current.version d e
    → Sees current d.operations
    → Write d.operations e.operations
moves current u target d e allowed is (row, (found, (version, written))) (seen, (here, state)) =
    let same = find_row-id u.operation_id d.operations row found in
    let that : seen ≡ row = ground (arith, found, here, is) in
    let status : current.status ≡ row.status = ground (arith, that, state, version) in
    let case : current.support_case_id ≡ row.support_case_id =
      ground (arith, that, state, version) in
    let flag : current.requires_manual_review ≡ row.requires_manual_review =
      ground (arith, that, state, version) in
    transitioned row (set_columns row u) (ground (arith, same, found))
      (ground (arith, allowed, is, status)) (ground (arith, is, version)) refl
      (ground (arith, is, case)) written

pub is_pending :
    (o : OrderOperation)
    → not (status_eq o.status pending_confirmation) ≡ false
    → o.status ≡ pending_confirmation
unfolding status_eq
is_pending o h = ground arith

pub allowed_lem :
    (a b : OperationRecordStatus)
    → validate_status_transition a b ≡ ok tt
    → transition_allowed a b ≡ true
unfolding validate_status_transition
allowed_lem a b h = ground arith

module _ (env : Environment) (start : Origin) where
  -- The call is a history of writes, whether it returns or raises.
  abbrev pub Refines : {A : Type 0} → Call A → Type 0
  Refines m = Holds (Reached env start) Anything m Returned

module _ (env : Environment) (start : Origin) (rely : Rely env start) where
  -- What an operation was when it was read stays true of it, whatever the others write.
  pub stable :
      (o : OrderOperation) (n : ℕ) (d : Database)
      → Sees o d.operations
      → Sees o (env.others n d).operations
  stable o n d = Sees-Evolves o d.operations (env.others n d).operations (rely.0 n d)

  module _ (scope : AccessScope) where
    -- The write of an updated operation, and what follows it.
    pub Holds-replaced :
        (current u : OrderOperation) (events : List OrderOperationEvent) (key : String)
        (success : OperationServiceResult) (again : Call OperationServiceResult)
        → ((d e : Database)
            → IsReplaced u current.version d e
            → Sees current d.operations
            → Write d.operations e.operations)
        → Refines env start again
        → Holds
            (Reached env start)
            (λ w. Sees current w.database.operations)
            (attempt (transact env (update_operation_with_events scope u events current.version))
              >>= λ written. after_write env scope key success again written)
            Returned
    Holds-replaced current u events key success again writes h =
        Holds-bind (OnOk Returned)
          (Holds-attempt (
            Holds-transact env start (λ d. Sees current d.operations) _ (stable current)
              (λ d e wrote seen. rely.1 d.operations e.operations (
                writes d e
                  (update_operation_with_events-written scope u events current.version d e wrote)
                  seen))))
          (λ written.
            Holds-weaken (λ w i p. tt)
              (Holds-after_write env start scope key success again written h))

    -- That of an operation whose status the lifecycle lets change.
    pub Holds-written :
        (current u : OrderOperation) (target : OperationRecordStatus)
        (events : List OrderOperationEvent) (key : String) (success : OperationServiceResult)
        (again : Call OperationServiceResult)
        → transition_allowed current.status target ≡ true
        → IsUpdate current target u
        → Refines env start again
        → Holds
            (Reached env start)
            (λ w. Sees current w.database.operations)
            (attempt (transact env (update_operation_with_events scope u events current.version))
              >>= λ written. after_write env scope key success again written)
            Returned
    Holds-written current u target events key success again allowed is h =
        Holds-replaced current u events key success again
          (λ d e. moves current u target d e allowed is) h
