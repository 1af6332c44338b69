-- ===== src/Workflow/Subflow/Mismatch.antt =====
-- What happens in the subflow of src/agent/nodes/operations.py when the operation that it found is not
-- the one that the decision is about.
use langgraph_refund_agent.Base.{
  ℕ, String, str_append, ◌≡◌, refl, false, some, Result, ok, err, arith,
}
use langgraph_refund_agent.Base.Actions.{◌>>=◌}
use langgraph_refund_agent.Operations.Record.{OperationServiceResult}
use langgraph_refund_agent.Operations.Repository.Tables.{Database, OperationError}
use langgraph_refund_agent.Operations.Service.World.{Environment, World}
use langgraph_refund_agent.Operations.Service.Submission.{queue_confirmed_operation}
use langgraph_refund_agent.Operations.Service.Review.{IsReviewed, IsRaised, reviewed_never_sent}
use langgraph_refund_agent.Workflow.Subflow.State.{SubflowState, SubflowAnswers, yes_submit}
use langgraph_refund_agent.Workflow.Subflow.Confirmation.{
  is_manual_review, confirm_destination, with_operation_id, submit_node, act, act_if_any,
  confirm_and_act,
}
use langgraph_refund_agent.Auth.{AccessScope}

the_error :
    (r : Result OperationError OperationServiceResult)
    → IsRaised r
    → (e : OperationError) × (r ≡ err e)
the_error (ok a) h = absurd h
the_error (err e) h = (e, refl)

-- Where no other process ends the review of the operation in the state, which needs one: when the
-- decision in the state does not ask for a manual review, and a connection is configured, the turn
-- raises after the customer's yes.
pub mismatched_confirmation_raises :
    (env : Environment) (scope : AccessScope) (a : SubflowAnswers) (s : SubflowState) (w : World)
    (id connection : String)
    → ((n : ℕ) (d : Database) → IsReviewed id d → IsReviewed id (env.others n d))
    → IsReviewed id w.database
    → s.operation_id ≡ some id
    → is_manual_review s.outcome ≡ false
    → a.confirmation ≡ yes_submit
    → a.connection_id ≡ some connection
    → (e : OperationError) × ((confirm_and_act env scope a s w).0 ≡ err e)
unfolding confirm_and_act act_if_any act confirm_destination submit_node with_operation_id ◌>>=◌
mismatched_confirmation_raises env scope a s w id connection rely must here not_review agreed
      there =
    let request = str_append "graph-queue:" id in
    let (e, raised) =
      the_error (queue_confirmed_operation env scope id request connection w).0
        (reviewed_never_sent env scope id request connection w rely must).5 in
    (e, ground (arith, raised, here, not_review, agreed, there))
