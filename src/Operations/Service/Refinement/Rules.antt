-- ===== src/Operations/Service/Refinement/Rules.antt =====
-- The rules for the steps of a call of `OperationService` (src/agent/operations/service.py): what the
-- service knows of an operation that it read, while others write to the database.
use langgraph_refund_agent.Base.{
  ℕ, suc, ◌<◌, String, ◌≡◌, ◌⊎◌, inl, inr, refl, Bool, true, false, Option, none, some, List,
  Result, ok, err, Result-cases, arith, if◌then◌else◌,
}
use langgraph_refund_agent.Base.Actions.{
  ◌>>=◌, Holds, After, Holds-pure, Holds-raise, Holds-bind, Holds-bind-lift, Holds-conclude,
}
use langgraph_refund_agent.Operations.Lifecycle.{OperationRecordStatus}
use langgraph_refund_agent.Operations.Record.{
  OrderOperation, OrderOperationEvent, OperationServiceResult, validate_operation,
}
use langgraph_refund_agent.Operations.Repository.Tables.{
  OperationError, Database, find_row, select_by_id, select_event, persistence_error,
  concurrent_update, duplicate_idempotency,
}
use langgraph_refund_agent.Operations.Repository.Rows.{find_row-id}
use langgraph_refund_agent.Operations.Repository.Writes.{require_customer}
use langgraph_refund_agent.Operations.Service.World.{
  Environment, World, Call, Submission, now, new_id, arrive, commit, query, transact, from_row,
  fetch_operation, find_event_by_idempotency_key, get_operation, unchanged_result, after_write,
  unless_recorded, retry, event_from_row, build_status_update,
}
use langgraph_refund_agent.Operations.Service.History.{Evolves, IsAny, Write, History, ours, theirs}
use langgraph_refund_agent.Auth.{AccessScope}

-- An operation that was read is the row, or the row has a later version by now.
abbrev pub Sees : OrderOperation → List OrderOperation → Type 0
Sees o os =
    (row : OrderOperation) × ((find_row o.operation_id os ≡ some row)
      × ((o.version < row.version)
          ⊎ ((o.version ≡ row.version)
              × (o.status ≡ row.status)
              × (o.support_case_id ≡ row.support_case_id)
              × (o.requires_manual_review ≡ row.requires_manual_review))))

-- What `_build_status_update` makes of an operation.
abbrev pub IsUpdate : OrderOperation → OperationRecordStatus → OrderOperation → Type 0
IsUpdate current target u =
    (u.operation_id ≡ current.operation_id)
    × (u.requires_manual_review ≡ current.requires_manual_review)
    × (u.support_case_id ≡ current.support_case_id)
    × (u.status ≡ target)
    × (u.version ≡ suc current.version)

abbrev pub Anything : World → Type 0
Anything w = Unit

abbrev pub Returned : {A : Type 0} → A → World → Type 0
Returned a w = Unit

-- An operation that was read is the row.
abbrev pub IsRow : OrderOperation → List OrderOperation → Type 0
IsRow o os =
    (row : OrderOperation) × ((find_row o.operation_id os ≡ some row)
      × (o.version ≡ row.version)
      × (o.status ≡ row.status)
      × (o.support_case_id ≡ row.support_case_id)
      × (o.requires_manual_review ≡ row.requires_manual_review))

pub IsRow-Sees : (o : OrderOperation) (os : List OrderOperation) → IsRow o os → Sees o os
IsRow-Sees o os (row, (found, version, status, case, review)) =
    (row, (found, inr (version, status, case, review)))

pub Sees-Evolves :
    (o : OrderOperation) (os ps : List OrderOperation) → Evolves IsAny os ps → Sees o os → Sees o ps
Sees-Evolves o os ps evolves (row, (found, is)) =
    let (next, (there, (later, _))) = evolves o.operation_id row found in
    (next, (there, ground arith))

-- The database that a call begins with, what we may write, and what is to stay true of the submissions.
pub record Origin : Type 1 where
  pub database : Database
  pub Ours : List OrderOperation → List OrderOperation → Type 0
  pub Sent : List Submission → Type 0

-- Others lose no operation and change one only with a later version, and we may write what the service
-- writes.
abbrev pub Rely : Environment → Origin → Type 0
Rely env start =
    ((n : ℕ) (d : Database) → Evolves IsAny d.operations (env.others n d).operations)
    × ((os ps : List OrderOperation) → Write os ps → start.Ours os ps)

module _ (env : Environment) (start : Origin) where
  -- The invariant of every call.
  abbrev pub Reached : World → Type 0
  Reached w = History env.others start.Ours start.database w.database × start.Sent w.submissions

  module _ (P : Database → Type 0) where
    -- A condition on the database that no other process breaks.
    abbrev pub IsStable : Type 0
    IsStable = (n : ℕ) (d : Database) → P d → P (env.others n d)

    pub Holds-now :
        Holds {E = OperationError} Reached (λ w. P w.database) (now env) (λ _ w. P w.database)
    unfolding now
    Holds-now = record { at = λ w i p. (i, p) }

    pub Holds-new_id :
        Holds {E = OperationError} Reached (λ w. P w.database) (new_id env) (λ _ w. P w.database)
    unfolding new_id
    Holds-new_id = record { at = λ w i p. (i, p) }

    selected :
        {A : Type 0} (f : Database → Result OperationError A) (Q : A → Database → Type 0)
        → ((a : A) (d : Database) → f d ≡ ok a → P d → Q a d)
        → (b : Bool) (w : World) → Reached w
        → P w.database
        → After {E = OperationError} Reached
            (λ a w. Q a w.database)
            (if b then (f w.database, w) else (err persistence_error, w))
    selected f Q selects false w i p = i
    selected f Q selects true w i p = elim (Result-cases (f w.database)) [
      | inl (a, e) ↦ rw e (i, selects a w.database e p)
      | inr (x, e) ↦ rw e i
    ]

    committed :
        (f : Database → Result OperationError Database)
        → ((d e : Database) → f d ≡ ok e → P d → start.Ours d.operations e.operations)
        → (b : Bool) (w : World) → Reached w
        → P w.database
        → After {E = OperationError} Reached Returned
            (if b then commit env w (f w.database) else (err persistence_error, w))
    unfolding commit
    committed f writes false w i p = i
    committed f writes true w i p = elim (Result-cases (f w.database)) [
      | inl (d, e) ↦ rw e ((ours i.0 (writes w.database d e p), i.1), tt)
      | inr (x, e) ↦ rw e i
    ]

    -- A query tells what it selects from a database that satisfies the condition.
    pub Holds-query :
        {A : Type 0} (f : Database → Result OperationError A) (Q : A → Database → Type 0)
        → IsStable
        → ((a : A) (d : Database) → f d ≡ ok a → P d → Q a d)
        → Holds Reached (λ w. P w.database) (query env f) (λ a w. Q a w.database)
    unfolding query
    Holds-query f Q stable selects = record {
      at = λ w i p.
          selected f Q selects (env.available w.calls) (arrive env w) (theirs w.calls i.0 refl, i.1)
            (stable w.calls w.database p);
    }

    -- A transaction writes to a database that satisfies the condition.
    pub Holds-transact :
        (f : Database → Result OperationError Database)
        → IsStable
        → ((d e : Database) → f d ≡ ok e → P d → start.Ours d.operations e.operations)
        → Holds Reached (λ w. P w.database) (transact env f) Returned
    unfolding transact
    Holds-transact f stable writes = record {
      at = λ w i p.
          committed f writes (env.available w.calls) (arrive env w) (theirs w.calls i.0 refl, i.1)
            (stable w.calls w.database p);
    }

    pub Holds-Anything :
        {A : Type 0} {m : Call A} {Q : A → World → Type 0}
        → Holds Reached Anything m Q
        → Holds Reached (λ w. P w.database) m Q
    Holds-Anything h = record { at = λ w i p. h.at w i tt }

  from_row-IsRow :
      (tenant customer id : String) (os : List OrderOperation) (o : OrderOperation)
      → from_row env (select_by_id tenant customer id os) ≡ ok (some o)
      → (o.operation_id ≡ id) × IsRow o os
  unfolding from_row select_by_id validate_operation
  from_row-IsRow tenant customer id os o h =
      let (row, (found, is)) : (row : OrderOperation) × ((find_row id os ≡ some row)
            × ((o.operation_id ≡ row.operation_id)
                × (o.requires_manual_review ≡ row.requires_manual_review)
                × (o.version ≡ row.version)
                × (o.status ≡ row.status)
                × (o.support_case_id ≡ row.support_case_id))) =
        ground arith in
      let same = find_row-id id os row found in
      (ground (arith, same, is), (row, (ground (arith, same, is, found), is.2, is.3, is.4, is.1)))

  module _ (scope : AccessScope) where
    SeesOption : String → Option OrderOperation → Database → Type 0
    SeesOption id none d = Unit
    SeesOption id (some o) d = (o.operation_id ≡ id) × IsRow o d.operations

    found_lem :
        (c id : String) (a : Option OrderOperation) (d : Database)
        → from_row env (select_by_id scope.tenant_id c id d.operations) ≡ ok a
        → Unit {0}
        → SeesOption id a d
    unfolding SeesOption
    found_lem c id none d h u = tt
    found_lem c id (some o) d h u = from_row-IsRow scope.tenant_id c id d.operations o h

    -- `get_operation` returns the operation that is then in the database.
    pub Holds-get_operation_at :
        (id : String)
        → Holds Reached Anything
            (get_operation env scope id)
            (λ o w. (o.operation_id ≡ id) × IsRow o w.database.operations)
    unfolding get_operation fetch_operation
    Holds-get_operation_at id =
        Holds-bind (λ a w. SeesOption id a w.database)
          (Holds-bind-lift (require_customer scope)
            λ c _. Holds-query (λ _. Unit) _ (SeesOption id) (λ n d p. tt) (found_lem c id))
          (elim [ none ↦ Holds-raise _ | some o ↦ unfold SeesOption in Holds-pure o (λ w i p. p) ])

    pub Holds-get_operation :
        (id : String)
        → Holds Reached Anything (get_operation env scope id) (λ o w. Sees o w.database.operations)
    Holds-get_operation id =
        Holds-conclude (λ o w i q. IsRow-Sees o w.database.operations q.1)
          (Holds-get_operation_at id)

    pub Holds-unchanged_result :
        (id : String) → Holds Reached Anything (unchanged_result env scope id) Returned
    unfolding unchanged_result
    Holds-unchanged_result id =
        Holds-bind _ (Holds-get_operation id) λ o. Holds-pure _ (λ w i p. tt)

    pub Holds-find_event :
        (key : String)
        → Holds Reached Anything (find_event_by_idempotency_key env scope key) Returned
    unfolding find_event_by_idempotency_key
    Holds-find_event key = Holds-bind-lift (require_customer scope) λ c _.
        Holds-query (λ _. Unit)
          (λ db. event_from_row env (select_event scope.tenant_id c key db.events)) (λ _ _. Unit)
          (λ n d p. tt) (λ a d e p. tt)

    Holds-retry :
        (again : Call OperationServiceResult) (prior : Option OrderOperationEvent)
        → Holds Reached Anything again Returned
        → Holds Reached Anything (retry env scope again prior) Returned
    unfolding retry
    Holds-retry again none h = h
    Holds-retry again (some e) h = Holds-unchanged_result e.operation_id

    pub Holds-unless_recorded :
        (key : String) (body : Call OperationServiceResult)
        → Holds Reached Anything body Returned
        → Holds Reached Anything (unless_recorded env scope key body) Returned
    unfolding unless_recorded
    Holds-unless_recorded key body h =
        Holds-bind Returned (Holds-find_event key) λ prior. Holds-retry body prior h

    pub Holds-after_write :
        (key : String) (success : OperationServiceResult) (again : Call OperationServiceResult)
        (written : Result OperationError (Unit {0}))
        → Holds Reached Anything again Returned
        → Holds Reached Anything (after_write env scope key success again written) Returned
    unfolding after_write ◌>>=◌ unless_recorded
    Holds-after_write key success again (ok u) h = Holds-pure success (λ w i p. tt)
    Holds-after_write key success again (err concurrent_update) h =
        Holds-unless_recorded key again h
    Holds-after_write key success again (err duplicate_idempotency) h =
        Holds-unless_recorded key again h
    Holds-after_write key success again (err e) h = Holds-raise e

  module _ (P : Database → Type 0) where
    pub Holds-build_status_update :
        (current : OrderOperation) (target : OperationRecordStatus) (key actor : String)
        (reference : Option String)
        → Holds Reached
            (λ w. P w.database)
            (build_status_update env current target key actor reference)
            (λ c w. IsUpdate current target c.0 × P w.database)
    unfolding build_status_update
    Holds-build_status_update current target key actor reference =
        Holds-bind _ (Holds-now P) λ time. Holds-bind _ (Holds-new_id P) λ id.
          Holds-bind-lift _ λ event e. Holds-pure _ (λ w i p. ((refl, refl, refl, refl, refl), p))
