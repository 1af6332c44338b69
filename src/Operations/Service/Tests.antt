-- ===== src/Operations/Service/Tests.antt =====
-- `OperationService` on concrete databases.
use langgraph_refund_agent.Base.{
  ◌==◌, ◌≡◌, refl, Option, none, some, [], ◌∷◌, Result, ok, err, if◌then◌else◌,
}
use langgraph_refund_agent.Base.Actions.{◌>>=◌, raise_when, lift, attempt}
use langgraph_refund_agent.Operations.Lifecycle.{processing, submitted, queued}
use langgraph_refund_agent.Operations.Record.{
  OrderOperation, OrderOperationEvent, OperationEventType, OperationServiceAction,
  OperationServiceResult, operation_valid, event_valid,
}
use langgraph_refund_agent.Operations.Repository.Tables.{
  Database, invalid_transition, select_event, OperationError, find_row, put_row,
}
use langgraph_refund_agent.Operations.Repository.Writes.{
  require_customer, queue_operation_with_events_and_command,
}
use langgraph_refund_agent.Operations.Repository.Queue.{queued_with_command, appended, IsCommandOf}
use langgraph_refund_agent.Operations.Repository.Rows.{IsReplaced}
use langgraph_refund_agent.Integrations.Commands.{ProviderCommandEnvelope, order_operation_command}
use langgraph_refund_agent.Operations.Service.World.{Environment, World, key_of}
use langgraph_refund_agent.Operations.Service.Requests.{submit, cancel, serve}
use langgraph_refund_agent.Operations.Service.History.{
  IsLater, IsMoved, Write, NoWrite, History, Evolves-IsAny,
}
use langgraph_refund_agent.Operations.Service.Submission.{
  submit_confirmed_operation, queue_confirmed_operation,
}
use langgraph_refund_agent.Operations.Service.Replay.{IsQuiet}
use langgraph_refund_agent.Operations.Service.Replay.Requests.{repeated_request_writes_nothing}
use langgraph_refund_agent.Operations.Service.Refinement.Requests.{
  serve_refines-History, serve-Evolves,
}
use langgraph_refund_agent.Operations.Service.Review.{
  reviewed_never_sent, IsUnchangedOrRaised, IsRaised,
}
use langgraph_refund_agent.Operations.Service.Samples.{
  alone_env, alone, customer_scope, pending, reviewed, holding,
}

-- The action of a result, where there is one.
abbrev acted : Result OperationError OperationServiceResult × World → Option OperationServiceAction
acted (ok r, w) = some r.action
acted (err e, w) = none

-- A confirmed operation is submitted and queued; a request that comes again changes nothing.
submits :
    acted (serve alone_env customer_scope (submit "op-1" "r") (holding pending))
    ≡ some OperationServiceAction.submitted
unfolding serve ◌>>=◌ raise_when lift operation_valid event_valid attempt put_row
submits = refl

submits_again :
    acted (
      serve alone_env customer_scope
        (submit "op-1" "r")
        (serve alone_env customer_scope (submit "op-1" "r") (holding pending)).1)
    ≡ some OperationServiceAction.status_unchanged
unfolding serve ◌>>=◌ raise_when lift operation_valid event_valid attempt put_row
submits_again = refl

-- Between the reading of the operation and the write another process changes it: the call tries again,
-- and finds an operation that is not pending any more.
abbrev busy_env : Environment
busy_env = record alone_env {
  others = λ n d.
      if n == 2
      then record d { operations = record pending { status = processing; version = 2 } ∷ [] }
      else d;
}

submit_loses :
    (serve busy_env customer_scope (submit "op-1" "r") (holding pending)).0
    ≡ err (invalid_transition processing)
unfolding serve ◌>>=◌ raise_when lift operation_valid event_valid attempt put_row
submit_loses = refl

serve_refines-History_example :
    History alone_env.others Write
      (holding pending).database
      (serve alone_env customer_scope (cancel "op-1" "r") (holding pending)).1.database
serve_refines-History_example =
    serve_refines-History alone_env (λ n d. Evolves-IsAny d.operations d.operations (alone n d))
      customer_scope (cancel "op-1" "r") (holding pending)

serve-Evolves_example :
    (later : OrderOperation) × ((find_row "op-1"
          (serve alone_env customer_scope
            (submit "op-1" "r")
            (holding pending)).1.database.operations
        ≡ some later)
      × IsLater IsMoved pending later)
unfolding find_row
serve-Evolves_example =
    serve-Evolves alone_env alone customer_scope (submit "op-1" "r") (holding pending) "op-1"
      pending refl

abbrev submitting : Result OperationError OperationServiceResult × World
submitting = submit_confirmed_operation alone_env customer_scope "op-1" "r" (holding reviewed)

abbrev queueing : Result OperationError OperationServiceResult × World
queueing = queue_confirmed_operation alone_env customer_scope "op-1" "r" "c" (holding reviewed)

reviewed_never_sent_example :
    (submitting.1.submissions ≡ [])
    × History alone_env.others NoWrite (holding reviewed).database submitting.1.database
    × IsUnchangedOrRaised submitting.0
    × (queueing.1.submissions ≡ [])
    × History alone_env.others NoWrite (holding reviewed).database queueing.1.database
    × IsRaised queueing.0
unfolding find_row
reviewed_never_sent_example =
    reviewed_never_sent alone_env customer_scope "op-1" "r" "c" (holding reviewed) (λ n d h. h)
      (reviewed, (refl, refl))

abbrev submitted_event : OrderOperationEvent
submitted_event = record {
  event_id = "e-1";
  idempotency_key = "operation:op-1:submitted:r";
  operation_id = "op-1";
  event_type = OperationEventType.confirmation_recorded;
  previous_status = none;
  current_status = none;
  provider_reference = none;
  support_case_id = none;
  actor = "shop:ada";
  customer_id = "ada";
  tenant_id = "shop";
  created_at = 1;
}

abbrev submitted_world : World
submitted_world =
    record (holding
      (record pending { status = submitted; provider_reference = some "P-1"; version = 2 })) {
        database = record {
          operations =
              record pending { status = submitted; provider_reference = some "P-1"; version = 2 }
              ∷ [];
          events = submitted_event ∷ [];
          commands = [];
          support_case_ids = [];
        };
      }

repeated_request_writes_nothing_example :
    IsQuiet submitted_world (serve alone_env customer_scope (submit "op-1" "r") submitted_world)
unfolding require_customer select_event key_of
repeated_request_writes_nothing_example =
    repeated_request_writes_nothing alone_env customer_scope "ada" (submit "op-1" "r")
      submitted_world (λ n d. refl) refl (submitted_event, refl)

abbrev queued_operation : OrderOperation
queued_operation = record pending { status = queued; version = 2 }

abbrev queue_command : ProviderCommandEnvelope
queue_command = order_operation_command queued_operation "c" "command-1" 1

abbrev queue_database : Database
queue_database = record (holding pending).database {
  operations = queued_operation ∷ [];
  events = submitted_event ∷ [];
  commands = queue_command ∷ [];
}

queued_with_command_example :
    IsReplaced queued_operation 1 (holding pending).database queue_database
    × (queued_operation.status ≡ queued)
    × (queued_operation.version ≡ 2)
    × (queue_database.events ≡ appended (submitted_event ∷ []) (holding pending).database.events)
    × (queue_database.commands ≡ queue_command ∷ (holding pending).database.commands)
    × IsCommandOf alone_env.texts queued_operation queue_command
unfolding queue_operation_with_events_and_command order_operation_command find_row put_row
queued_with_command_example =
    queued_with_command alone_env.texts customer_scope queued_operation (submitted_event ∷ [])
      queue_command 1 (holding pending).database queue_database refl
