-- ===== src/Operations/Service/Review.antt =====
-- The submission and the queueing, by src/agent/operations/service.py, of an operation that staff must
-- review.
use langgraph_refund_agent.Base.{
  ℕ, zero, suc, String, ◌≡◌, refl, true, Option, none, some, Result, ok, err, arith,
}
use langgraph_refund_agent.Base.Actions.{
  Holds, After, Holds-pure, Holds-raise, Holds-bind, Holds-bind-lift, Holds-raise_when,
  Holds-blocked,
}
use langgraph_refund_agent.Operations.Record.{
  OrderOperation, OrderOperationEvent, OperationServiceAction, OperationServiceResult,
}
use langgraph_refund_agent.Operations.Repository.Tables.{Database, OperationError, find_row}
use langgraph_refund_agent.Operations.Service.World.{
  Environment, World, Call, unless_recorded, retry, unchanged_result,
}
use langgraph_refund_agent.Operations.Service.Submission.{
  submit_attempts, submit_confirmed_operation, queue_confirmed_operation,
}
use langgraph_refund_agent.Operations.Service.History.{History, NoWrite, begin, History-kept}
use langgraph_refund_agent.Operations.Service.Refinement.Rules.{
  Origin, IsRow, Anything, Returned, Reached, Holds-get_operation, Holds-get_operation_at,
  Holds-find_event,
}
use langgraph_refund_agent.Auth.{AccessScope}

abbrev IsUnchanged : OperationServiceResult → World → Type 0
IsUnchanged res w = res.action ≡ OperationServiceAction.status_unchanged

-- Staff must review the operation.
abbrev pub IsReviewed : String → Database → Type 0
IsReviewed id d =
    (row : OrderOperation) × ((find_row id d.operations ≡ some row)
      × (row.requires_manual_review ≡ true))

-- What a call is allowed that writes nothing and sends nothing.
abbrev untouched : World → Origin
untouched w = record { database = w.database; Ours = NoWrite; Sent = λ ss. ss ≡ w.submissions }

module _ (env : Environment) (w0 : World) (scope : AccessScope) (id : String)
    (rely : (n : ℕ) (d : Database) → IsReviewed id d → IsReviewed id (env.others n d))
    (must : IsReviewed id w0.database) where
  abbrev start : Origin
  start = untouched w0

  -- The operation is still one that must be reviewed when it is read.
  still_reviewed :
      (o : OrderOperation) (w : World)
      → Reached env start w
      → (o.operation_id ≡ id) × IsRow o w.database.operations
      → o.requires_manual_review ≡ true
  still_reviewed o w (history, sent) (same, (seen, is)) =
      let (later, (there, reviewed)) =
        History-kept env.others (IsReviewed id) w0.database w.database rely history must in
      ground (arith, is, there, same, reviewed)

  Holds-IsUnchanged :
      (key : String)
      → Holds (Reached env start) Anything (unchanged_result env scope key) IsUnchanged
  unfolding unchanged_result
  Holds-IsUnchanged key =
      Holds-bind _ (Holds-get_operation env start scope key) λ o. Holds-pure _ (λ w i p. refl)

  Holds-retried :
      (again : Call OperationServiceResult) (prior : Option OrderOperationEvent)
      → Holds (Reached env start) Anything again IsUnchanged
      → Holds (Reached env start) Anything (retry env scope again prior) IsUnchanged
  unfolding retry
  Holds-retried again none h = h
  Holds-retried again (some e) h = Holds-IsUnchanged e.operation_id

  Holds-no_attempt :
      (n : ℕ) (key : String)
      → Holds (Reached env start) Anything (submit_attempts env scope n id key) IsUnchanged
  unfolding submit_attempts
  Holds-no_attempt zero key = Holds-raise _
  Holds-no_attempt (suc n) key =
      Holds-bind _ (Holds-get_operation_at env start scope id)
        λ current. Holds-blocked _ _ _ (λ w i p. still_reviewed current w i p)

  pub Holds-not_submitted :
      (request_id : String)
      → Holds
          (Reached env start)
          Anything
          (submit_confirmed_operation env scope id request_id)
          IsUnchanged
  unfolding submit_confirmed_operation unless_recorded
  Holds-not_submitted request_id = Holds-raise_when _ _ λ _.
      Holds-bind Returned (Holds-find_event env start scope _)
        λ prior. Holds-retried _ prior (Holds-no_attempt env.max_write_attempts _)

  pub Holds-not_queued :
      (request_id connection_id : String)
      → Holds
          (Reached env start)
          Anything
          (queue_confirmed_operation env scope id request_id connection_id)
          (λ res w. ⊥)
  unfolding queue_confirmed_operation
  Holds-not_queued request_id connection_id = Holds-bind-lift _ λ metadata _.
      Holds-raise_when _ _ λ _.
        Holds-bind _ (Holds-get_operation_at env start scope id)
          λ current. Holds-blocked _ _ _ (λ w i p. still_reviewed current w i p)

-- The call returns an unchanged operation, or it raises.
abbrev pub IsUnchangedOrRaised : Result OperationError OperationServiceResult → Type 0
IsUnchangedOrRaised (ok res) = res.action ≡ OperationServiceAction.status_unchanged
IsUnchangedOrRaised (err e) = Unit

-- The call raises.
abbrev pub IsRaised : Result OperationError OperationServiceResult → Type 0
IsRaised (ok res) = ⊥
IsRaised (err e) = Unit

unchanged_or_raised :
    (env : Environment) (w : World) (r : Result OperationError OperationServiceResult × World)
    → After (Reached env (untouched w)) IsUnchanged r
    → Reached env (untouched w) r.1 × IsUnchangedOrRaised r.0
unchanged_or_raised env w (ok a, v) (i, q) = (i, q)
unchanged_or_raised env w (err x, v) i = (i, tt)

raised :
    (env : Environment) (w : World) (r : Result OperationError OperationServiceResult × World)
    → After (Reached env (untouched w)) (λ res v. ⊥) r
    → Reached env (untouched w) r.1 × IsRaised r.0
raised env w (ok a, v) (i, q) = absurd q
raised env w (err x, v) i = (i, tt)

-- Where no other process ends the review of an operation that needs one, that operation is not submitted
-- and not queued: the calls that submit it and that queue it send nothing to the order system, and write
-- nothing to the database, neither operations nor events nor commands, so that all its changes are those
-- of other processes; the one returns an unchanged operation or raises, and the other raises.
pub reviewed_never_sent :
    (env : Environment) (scope : AccessScope) (id request_id connection_id : String) (w : World)
    → ((n : ℕ) (d : Database) → IsReviewed id d → IsReviewed id (env.others n d))
    → IsReviewed id w.database
    → ((submit_confirmed_operation env scope id request_id w).1.submissions ≡ w.submissions)
      × History env.others NoWrite w.database
          (submit_confirmed_operation env scope id request_id w).1.database
      × IsUnchangedOrRaised (submit_confirmed_operation env scope id request_id w).0
      × ((queue_confirmed_operation env scope id request_id connection_id w).1.submissions
          ≡ w.submissions)
      × History env.others NoWrite w.database
          (queue_confirmed_operation env scope id request_id connection_id w).1.database
      × IsRaised (queue_confirmed_operation env scope id request_id connection_id w).0
reviewed_never_sent env scope id request_id connection_id w rely must =
    let (s, unchanged) =
      unchanged_or_raised env w (submit_confirmed_operation env scope id request_id w)
        ((Holds-not_submitted env w scope id rely must request_id).at w (begin refl, refl) tt) in
    let (q, fails) =
      raised env w (queue_confirmed_operation env scope id request_id connection_id w) (
        (Holds-not_queued env w scope id rely must request_id connection_id).at w (begin refl, refl)
          tt) in
    (s.1, s.0, unchanged, q.1, q.0, fails)
