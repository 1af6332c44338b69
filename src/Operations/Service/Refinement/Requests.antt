-- ===== src/Operations/Service/Refinement/Requests.antt =====
-- What the methods of `OperationService` (src/agent/operations/service.py) do to the table of
-- operations while other processes write to it.
use langgraph_refund_agent.Base.{ℕ, List, ◌∷◌, String, some, ◌≡◌, refl, Result, ok, err}
use langgraph_refund_agent.Base.Actions.{After}
use langgraph_refund_agent.Operations.Record.{OrderOperation, OperationServiceResult}
use langgraph_refund_agent.Operations.Repository.Tables.{Database, OperationError, find_row}
use langgraph_refund_agent.Operations.Service.World.{Environment, World, Submission}
use langgraph_refund_agent.Operations.Service.Requests.{
  ServiceRequest, create, confirm, submit, queue, cancel, update_status, attach, serve,
}
use langgraph_refund_agent.Operations.Service.History.{
  Evolves, IsAny, IsMoved, IsLater, Write, History, begin, History-Evolves, Evolves-IsAny,
}
use langgraph_refund_agent.Operations.Service.Refinement.Rules.{Origin, Rely, Returned, Reached}
use langgraph_refund_agent.Operations.Service.Refinement.Updates.{Refines}
use langgraph_refund_agent.Operations.Service.Refinement.Calls.{
  Holds-confirm_operation, Holds-cancel_pending_operation, Holds-update_operation_status,
}
use langgraph_refund_agent.Operations.Service.Refinement.Submissions.{
  Holds-attach_support_case, Holds-submit_confirmed_operation, Holds-queue_confirmed_operation,
}
use langgraph_refund_agent.Operations.Service.Refinement.Creation.{Holds-create_pending_operation}
use langgraph_refund_agent.Auth.{AccessScope}

module _ (env : Environment) where
  serve-Refines :
      (start : Origin) (rely : Rely env start) (scope : AccessScope) (r : ServiceRequest)
      → ((s : Submission) (ss : List Submission) → start.Sent ss → start.Sent (s ∷ ss))
      → Refines env start (serve env scope r)
  unfolding serve
  serve-Refines start rely scope (create request snapshot decision excerpt) sends =
      Holds-create_pending_operation env start scope request snapshot decision rely.1 excerpt
  serve-Refines start rely scope (confirm id request_id) sends =
      Holds-confirm_operation env start rely scope id request_id
  serve-Refines start rely scope (submit id request_id) sends =
      Holds-submit_confirmed_operation env start rely scope id (λ s ss _. sends s ss) request_id
  serve-Refines start rely scope (queue id request_id connection_id) sends =
      Holds-queue_confirmed_operation env start rely scope id request_id connection_id
  serve-Refines start rely scope (cancel id request_id) sends =
      Holds-cancel_pending_operation env start rely scope id request_id
  serve-Refines start rely scope (update_status id target request_id actor reference) sends =
      Holds-update_operation_status env start rely scope id target request_id actor reference
  serve-Refines start rely scope (attach id case_id request_id) sends =
      Holds-attach_support_case env start rely scope id case_id request_id

  reached :
      (start : Origin) (r : Result OperationError OperationServiceResult × World)
      → After (Reached env start) Returned r
      → Reached env start r.1
  reached start (ok a, w) h = h.0
  reached start (err e, w) h = h

  -- Where other processes lose no operation and change one only with a later version, whatever a method
  -- of the service but `move_to_provider_manual_review` does to the table of operations, returning or
  -- raising, is a sequence of its abstract writes and of the others' changes: it records an operation
  -- that awaits confirmation; or moves one to a status that the lifecycle allows next, with the next
  -- version, without changing whether it needs a manual review; or links one in manual review to its
  -- first case.
  pub serve_refines-History :
      ((n : ℕ) (d : Database) → Evolves IsAny d.operations (env.others n d).operations)
      → (scope : AccessScope) (r : ServiceRequest) (w : World)
      → History env.others Write w.database (serve env scope r w).1.database
  serve_refines-History rely scope r w =
      let start : Origin = record { database = w.database; Ours = Write; Sent = λ _. Unit } in
      (reached start (serve env scope r w) (
        (serve-Refines start (rely, λ os ps h. h) scope r (λ s ss h. tt)).at w (begin refl, tt)
          tt)).0

  -- Where other processes lose no operation, and change one only with a later version and as the
  -- repository moves it - by the transition table, to a manual review, or from a manual review back to
  -- the queue by a redrive -, the same is true of every method of the service but
  -- `move_to_provider_manual_review` together with them: an operation is still there afterwards, is the
  -- same or has a later version, and its status and its need of a manual review have moved so.
  pub serve-Evolves :
      ((n : ℕ) (d : Database) → Evolves IsMoved d.operations (env.others n d).operations)
      → (scope : AccessScope) (request : ServiceRequest) (w : World) (id : String)
        (row : OrderOperation)
      → find_row id w.database.operations ≡ some row
      → (later : OrderOperation) × ((find_row id (serve env scope request w).1.database.operations
            ≡ some later)
          × IsLater IsMoved row later)
  serve-Evolves rely scope request w id row found =
      History-Evolves env.others w.database (serve env scope request w).1.database rely
        (serve_refines-History
          (λ n d. Evolves-IsAny d.operations (env.others n d).operations (rely n d)) scope request
          w)
        id row found
