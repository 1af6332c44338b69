-- ===== src/Lib.antt =====
-- Verification of the customer-service agent: a LangGraph workflow that answers order and refund
-- requests, hands conversations over to people as support cases, and sends confirmed order
-- operations to a provider. The Python sources are under src/agent.
--
-- How the parts interact. A turn of the workflow (graph.py, routing.py, nodes/) classifies the
-- latest message and either answers it, asks the customer to confirm, or acts. An order operation is
-- decided by the operation policy (operations/policy.py), persisted with a status that changes by
-- the transition table of the operation service (operations/service.py) and, from a manual review
-- back to the queue, by a redrive (integrations/provider_operations_postgres.py), sent by the outbox
-- worker with the retry policy (integrations/outbox_worker.py, retry.py), and moved on by the
-- provider's callbacks (integrations/inbox_policy.py); a dead message may be sent again by the
-- redrive policy (integrations/provider_operations_policy.py). Whatever needs a person becomes a
-- support case by the handoff policy (cases/policy.py), which the case service merges and moves
-- (cases/service.py), and which roles and permissions make visible (auth/).
--
-- Base: names of the libraries, Boolean tests on numbers, lists over the native numbers, results
-- that may be errors, and lists without duplicates.
-- Base.Actions: methods that change a state and may raise, and the logic Holds of invariants,
-- preconditions and postconditions.
-- Workflow.Types, Workflow.Routing, Workflow.Turn: the state, the route_* functions, and the graph
-- with its nodes. step is one node, which raises where a collaborator does, run a number of nodes,
-- and take_turn a turn from check_risk_rules on. What the models, the tools and the customer answer
-- is the record Answers. Workflow.Turn.Safety is about what a turn has passed when it reaches a
-- node, Workflow.Turn.Progress about how it ends.
-- Workflow.Subflow: the operation subflow (nodes/operations.py, nodes/orders.py), over the operation
-- service; operation_subflow is the child graph. Graph is about what it sends, Offers about what it
-- asks, Mismatch about a confirmation that meets another operation.
-- Operations.Types, Operations.Decisions, Operations.Policy, Operations.Delivery: the models and
-- evaluate_operation and evaluate_delivery_issue, function by function; decide and assess are the
-- two after their checks on the request.
-- Operations.Lifecycle: the transition table of the service, and in Reachability how operations move
-- by it and by redrives.
-- Operations.Record: the persisted operation and its events with their validators.
-- Operations.Repository: the tables, the constraints and the transactions of the repository
-- (operations/repository.py and postgres_repository.py, sql/migrations/0004_order_operations.sql);
-- Queue is about the transaction that queues.
-- Operations.Service: World is what a call works on and the helpers, Pending, Changes, CaseLink and
-- Submission are the methods of OperationService, and Requests the vocabulary of all. History is
-- their abstract specification, Refinement about the methods and that specification, Review about an
-- operation that staff must review, Replay about a repeated request, Outbox about the calls that
-- leave the outbox alone. Elsewhere has the rows that the failure coordinator
-- (integrations/provider_failure.py), the end of a dispatch (integrations/finalization.py) and a
-- redrive write to the table of operations.
-- Integrations.Commands: the command envelope.
-- Cases.Types, Cases.Reasons, Cases.Policy: the models, the tables and determine_handoff_policy.
-- Cases.Record: the case that _append_trigger and change_status compute.
-- Integrations.Models, Integrations.Callbacks, Integrations.Redrive, Integrations.Retry,
-- Integrations.OutboxWorker, Integrations.InboxWorker: decide_order_operation_callback
-- (decide_callback), the redrive eligibility, decide_retry and the delay, and run_once with _process
-- and _handle_failure, and run_once of the inbox worker (inbox_worker.py).
-- Refunds: the policy tool check_refund_policy (tools/check_refund_policy.py).
-- Auth: role_permissions, derive_role, case_visibility and customer_owned_visibility;
-- Auth.IdentityKey: encode_identity_key and decode_identity_key (auth/models.py). The modules named
-- Tests and DispatchTests run the definitions on concrete values.
--
-- Concurrency. Before each call of the repository the function others of the Environment may change
-- the database in any way; the theorems that need a condition on it name it. A transaction is one
-- step, which writes all or raises and writes nothing.
--
-- Conventions. A Literal type is an enumeration; the literal "open" is opened and "none" is no_risk,
-- where the word itself is not free. An aware datetime is its instant in microseconds, an amount
-- with two decimal places its cents, and a count a native natural number. An exception is a value of
-- a type of errors. A set or a dictionary of the source is a list or a function. The floating-point
-- numbers of the retry policy are a parameter, the record Seconds of the operations and tests that
-- the code uses; the bounds on a delay assume that no value is below itself, as for floats.
--
-- Bounds. A run of the workflow takes fuel, the number of nodes; the graph has no cycle, and
-- fourteen is the length of its longest way, so that a turn with this fuel always ends. The loops of
-- the operation service recur on the attempts left, which is the source's own bound.
--
-- Not modelled. The SQL repositories of cases and provider messages, the web and HTTP surface, the
-- identity providers, the language models and prompts, and the regular expressions of the risk
-- rules: pure input and output, or libraries that the sources call. The texts of messages are left
-- out of the state of the workflow, and the identifiers and audit events out of the cases. The graph
-- of Workflow.Turn takes the operation subflow for one node. The coordinator of provider queue
-- failures is a parameter of the subflow and not a request of the service's model, where
-- move_to_provider_manual_review calls it; only the row that it writes is modelled. The workers'
-- polling loops and their cancellation are left out: run_once is modelled, and what its
-- collaborators answer is given.
pub mod Base
pub mod Operations
pub mod Cases
pub mod Integrations
pub mod Workflow
pub mod Auth
pub mod Refunds
