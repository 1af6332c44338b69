-- ===== src/Operations/Service/Refinement/Submissions.antt =====
-- The link to a support case, the submission, the queueing and the creation of an operation by
-- `OperationService` (src/agent/operations/service.py) are histories of abstract writes.
use langgraph_refund_agent.Base.{
  ℕ, zero, suc, String, str_eq, str_append, ◌≡◌, refl, true, ◌&&◌, Option, none, some, List, [],
  ◌∷◌, Result, ok, err, arith, is_some,
}
use langgraph_refund_agent.Base.Actions.{
  Holds, After, Holds-pure, Holds-raise, Holds-bind, Holds-lift, Holds-bind-lift, Holds-if,
  Holds-raise_when, Holds-given,
}
use langgraph_refund_agent.Operations.Types.{ExistingOperation}
use langgraph_refund_agent.Operations.Lifecycle.{
  pending_confirmation, queued, submitted, manual_review, status_eq, transition_allowed,
}
use langgraph_refund_agent.Operations.Record.{OrderOperation, OperationServiceResult}
use langgraph_refund_agent.Operations.Repository.Tables.{Database}
use langgraph_refund_agent.Operations.Repository.Constraints.{set_columns}
use langgraph_refund_agent.Operations.Repository.Rows.{
  find_row-id, IsReplaced, queue_operation_with_events_and_command-written,
}
use langgraph_refund_agent.Operations.Service.World.{Environment, World, Call, Submission, identity}
use langgraph_refund_agent.Operations.Service.CaseLink.{
  awaits_case, write_link, link_case, attach_attempts, attach_support_case,
}
use langgraph_refund_agent.Operations.Service.Submission.{
  submit_operation, from_provider, reference_of, confirmation_event, submit_pending,
  submit_attempts, submit_confirmed_operation, queue_pending, queue_confirmed_operation,
}
use langgraph_refund_agent.Operations.Service.History.{Write, linked}
use langgraph_refund_agent.Operations.Service.Refinement.Rules.{
  Origin, Rely, Sees, Returned, Reached, Holds-now, Holds-new_id, Holds-transact,
  Holds-build_status_update, Holds-get_operation, Holds-unless_recorded,
}
use langgraph_refund_agent.Operations.Service.Refinement.Updates.{
  is_pending, moves, Refines, stable, Holds-replaced, Holds-written,
}
use langgraph_refund_agent.Auth.{AccessScope}

-- The link of an operation that awaits its case, as it was read.
links :
    (current u : OrderOperation) (case_id : String) (d e : Database)
    → awaits_case current ≡ true
    → current.support_case_id ≡ none
    → (u.operation_id ≡ current.operation_id)
      × (u.support_case_id ≡ some case_id)
      × (u.status ≡ current.status)
      × (u.version ≡ suc current.version)
    → IsReplaced u current.version d e
    → Sees current d.operations
    → Write d.operations e.operations
unfolding awaits_case status_eq
links current u case_id d e awaits free is (row, (found, (version, written)))
      (seen, (here, state)) =
    let same = find_row-id u.operation_id d.operations row found in
    let that : seen ≡ row = ground (arith, found, here, is) in
    let status : current.status ≡ row.status = ground (arith, that, state, version) in
    let case : current.support_case_id ≡ row.support_case_id =
      ground (arith, that, state, version) in
    let flag : current.requires_manual_review ≡ row.requires_manual_review =
      ground (arith, that, state, version) in
    let reviewed : (current.status ≡ manual_review) × (current.requires_manual_review ≡ true) =
      ground arith in
    linked row (set_columns row u) case_id (ground (arith, same, found))
      (ground (arith, reviewed, status)) (ground (arith, reviewed, flag))
      (ground (arith, free, case)) (ground (arith, is)) (ground (arith, is, status))
      (ground (arith, is, version)) refl written

module _ (env : Environment) (start : Origin) where
  answered :
      (P : Database → Type 0) (r : Result String ExistingOperation) (w : World)
      → Reached env start w
      → P w.database
      → After (Reached env start) (λ _ w. P w.database) (from_provider r, w)
  answered P (ok o) w i p = (i, p)
  answered P (err e) w i p = i

module _ (env : Environment) (start : Origin) (rely : Rely env start) where
  module _ (scope : AccessScope) where
    Holds-write_link :
        (case_id key : String) (current : OrderOperation) (again : Call OperationServiceResult)
        → awaits_case current ≡ true
        → current.support_case_id ≡ none
        → Refines env start again
        → Holds
            (Reached env start)
            (λ w. Sees current w.database.operations)
            (write_link env scope case_id key current again)
            Returned
    unfolding write_link
    Holds-write_link case_id key current again awaits free h =
        Holds-bind _ (Holds-now env start (λ d. Sees current d.operations)) λ time.
          Holds-bind _ (Holds-new_id env start (λ d. Sees current d.operations)) λ event_id.
            Holds-bind-lift _ λ event _.
              let u = record current {
                support_case_id = some case_id;
                updated_at = time;
                version = suc current.version;
              } in
              Holds-replaced env start rely scope current u (event ∷ []) key _ again
                (λ d e. links current u case_id d e awaits free (refl, refl, refl, refl)) h

    Holds-link_case :
        (case_id key : String) (current : OrderOperation) (linked_to : Option String)
        (again : Call OperationServiceResult)
        → awaits_case current ≡ true
        → current.support_case_id ≡ linked_to
        → Refines env start again
        → Holds
            (Reached env start)
            (λ w. Sees current w.database.operations)
            (link_case env scope case_id key current linked_to again)
            Returned
    unfolding link_case
    Holds-link_case case_id key current none again awaits e h =
        Holds-write_link case_id key current again awaits e h
    Holds-link_case case_id key current (some l) again awaits e h =
        Holds-if (str_eq l case_id) (λ _. Holds-pure _ (λ w i p. tt)) (λ _. Holds-raise _)

    Holds-attach_attempts :
        (n : ℕ) (id case_id key : String)
        → Refines env start (attach_attempts env scope n id case_id key)
    unfolding attach_attempts
    Holds-attach_attempts zero id case_id key = Holds-raise _
    Holds-attach_attempts (suc n) id case_id key =
        Holds-bind _ (Holds-get_operation env start scope id) λ current. Holds-raise_when _ _ λ e.
          Holds-link_case case_id key current current.support_case_id _ (ground arith) refl
            (Holds-attach_attempts n id case_id key)

    pub Holds-attach_support_case :
        (id case_id request_id : String)
        → Refines env start (attach_support_case env scope id case_id request_id)
    unfolding attach_support_case
    Holds-attach_support_case id case_id request_id =
        Holds-raise_when _ _
          λ _. Holds-unless_recorded env start scope _ _ (Holds-attach_attempts _ id case_id _)

    Holds-from_provider :
        (P : Database → Type 0) (s : Submission)
        → ((ss : List Submission) → start.Sent ss → start.Sent (s ∷ ss))
        → Holds
            (Reached env start)
            (λ w. P w.database)
            (submit_operation env s)
            (λ _ w. P w.database)
    unfolding submit_operation
    Holds-from_provider P s sends = record {
      at = λ w i p.
          answered env start P (env.provider w.calls s)
            (record w { submissions = s ∷ w.submissions }) (i.0, sends w.submissions i.1) p;
    }

    Holds-confirmation_event :
        (key : String) (current : OrderOperation) (time : ℕ) (P : Database → Type 0)
        → Holds
            (Reached env start)
            (λ w. P w.database)
            (confirmation_event env scope key current time)
            (λ _ w. P w.database)
    unfolding confirmation_event
    Holds-confirmation_event key current time P =
        Holds-bind _ (Holds-new_id env start P) λ id. Holds-lift _ (λ a e w i p. p)

    Holds-submit_pending :
        (id : String)
        (sends : (s : Submission) (ss : List Submission)
          → s.idempotency_key ≡ str_append "provider:operation:" id
          → start.Sent ss
          → start.Sent (s ∷ ss))
        (key : String) (current : OrderOperation) (again : Call OperationServiceResult)
        → current.status ≡ pending_confirmation
        → Refines env start again
        → Holds
            (Reached env start)
            (λ w. Sees current w.database.operations)
            (submit_pending env scope id key current again)
            Returned
    unfolding submit_pending transition_allowed
    Holds-submit_pending id sends key current again pending h = Holds-bind-lift _ λ request _.
        Holds-bind _
          (Holds-from_provider (λ d. Sees current d.operations) _ (λ ss. sends _ ss refl))
          λ answer.
            Holds-bind _
              (Holds-build_status_update env start (λ d. Sees current d.operations) current _ _
                (identity scope) (some (reference_of answer)))
              λ changed. Holds-given λ is.
                Holds-bind _
                  (Holds-confirmation_event key current changed.0.updated_at
                    (λ d. Sees current d.operations))
                  λ confirmation.
                    Holds-written env start rely scope current changed.0 submitted
                      (confirmation ∷ changed.1 ∷ []) key _ again (ground (arith, pending)) is h

    Holds-submit_attempts :
        (id : String)
        (sends : (s : Submission) (ss : List Submission)
          → s.idempotency_key ≡ str_append "provider:operation:" id
          → start.Sent ss
          → start.Sent (s ∷ ss))
        (n : ℕ) (key : String)
        → Refines env start (submit_attempts env scope n id key)
    unfolding submit_attempts
    Holds-submit_attempts id sends zero key = Holds-raise _
    Holds-submit_attempts id sends (suc n) key =
        Holds-bind _ (Holds-get_operation env start scope id) λ current. Holds-raise_when _ _ λ _.
          Holds-if (status_eq current.status submitted && is_some current.provider_reference)
            (λ _. Holds-pure _ (λ w i p. tt))
            (λ _. Holds-raise_when _ _ λ e.
              Holds-submit_pending id sends key current _ (is_pending current e)
                (Holds-submit_attempts id sends n key))

    pub Holds-submit_confirmed_operation :
        (id : String)
        (sends : (s : Submission) (ss : List Submission)
          → s.idempotency_key ≡ str_append "provider:operation:" id
          → start.Sent ss
          → start.Sent (s ∷ ss))
        (request_id : String)
        → Refines env start (submit_confirmed_operation env scope id request_id)
    unfolding submit_confirmed_operation
    Holds-submit_confirmed_operation id sends request_id =
        Holds-raise_when _ _
          λ _. Holds-unless_recorded env start scope _ _ (Holds-submit_attempts id sends _ _)

    Holds-queue_pending :
        (id request connection_id : String) (current : OrderOperation)
        → current.status ≡ pending_confirmation
        → Holds
            (Reached env start)
            (λ w. Sees current w.database.operations)
            (queue_pending env scope id request connection_id current)
            Returned
    unfolding queue_pending transition_allowed
    Holds-queue_pending id request connection_id current pending =
        Holds-bind _ (Holds-now env start (λ d. Sees current d.operations)) λ time.
          Holds-bind _
            (Holds-build_status_update env start (λ d. Sees current d.operations) current _ _
              (identity scope) none)
            λ changed. Holds-given λ is.
              Holds-bind _
                (Holds-confirmation_event _ current time (λ d. Sees current d.operations))
                λ confirmation.
                  Holds-bind _ (Holds-new_id env start (λ d. Sees current d.operations))
                    λ command_id. Holds-bind-lift _ λ command _.
                      Holds-bind Returned
                        (Holds-transact env start (λ d. Sees current d.operations) _
                          (stable env start rely current)
                          (λ d e wrote seen. rely.1 d.operations e.operations (
                            moves current changed.0 queued d e (ground (arith, pending)) is
                              (queue_operation_with_events_and_command-written env.texts scope
                                changed.0 (confirmation ∷ changed.1 ∷ []) command current.version d
                                e wrote)
                              seen)))
                        λ _. Holds-pure _ (λ w i p. tt)

    pub Holds-queue_confirmed_operation :
        (id request_id connection_id : String)
        → Refines env start (queue_confirmed_operation env scope id request_id connection_id)
    unfolding queue_confirmed_operation
    Holds-queue_confirmed_operation id request_id connection_id = Holds-bind-lift _ λ metadata _.
        Holds-raise_when _ _ λ _. Holds-bind _ (Holds-get_operation env start scope id) λ current.
          Holds-raise_when _ _ λ _.
            Holds-if (status_eq current.status queued) (λ _. Holds-pure _ (λ w i p. tt))
              (λ _.
                Holds-raise_when _ _ λ e. Holds-queue_pending id _ _ current (is_pending current e))
