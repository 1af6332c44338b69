-- ===== src/Operations/Service/Pending.antt =====
-- `create_pending_operation` of src/agent/operations/service.py.
use langgraph_refund_agent.Base.{
  ℕ, zero, suc, String, str_eq, str_append, Bool, true, false, not, Option, none, some, [], ◌∷◌,
  Result, ok, err,
}
use langgraph_refund_agent.Base.Actions.{pure, raise, lift, raise_when, attempt, ◌>>=◌, ◌>>◌}
use langgraph_refund_agent.Operations.Types.{
  OperationOutcome, OrderOperationRequest, OrderSnapshot, OperationDecision, CaseRecommendation,
  RecommendedCaseType, CasePriority,
}
use langgraph_refund_agent.Operations.Lifecycle.{pending_confirmation}
use langgraph_refund_agent.Operations.Record.{
  OrderOperation, OrderOperationEvent, OperationEventType, OperationServiceAction,
  OperationServiceResult, validate_operation, validate_event,
}
use langgraph_refund_agent.Operations.Repository.Tables.{
  OperationError, value_error, concurrent_update, active_conflict, duplicate_source_message,
  duplicate_idempotency,
}
use langgraph_refund_agent.Operations.Repository.Writes.{create_operation_with_events, type_eq}
use langgraph_refund_agent.Operations.Service.World.{
  Environment, Call, validated, now, new_id, transact, find_by_source_message,
  find_active_by_order_id, identity,
}
use langgraph_refund_agent.Auth.{AccessScope, customer_id}

-- `decision.outcome in ("eligible", "manual_review")`
abbrev is_persistable : OperationOutcome → Bool
is_persistable OperationOutcome.eligible = true
is_persistable OperationOutcome.manual_review = true
is_persistable _ = false

abbrev is_manual_review : OperationOutcome → Bool
is_manual_review OperationOutcome.manual_review = true
is_manual_review _ = false

abbrev case_type_of : Option CaseRecommendation → Option RecommendedCaseType
case_type_of none = none
case_type_of (some r) = some r.case_type

abbrev priority_of : Option CaseRecommendation → Option CasePriority
priority_of none = none
priority_of (some r) = some r.priority

-- The operation that the decision on a request of a customer calls for.
abbrev pub pending_operation :
    AccessScope
    → String
    → OrderOperationRequest
    → OrderSnapshot
    → OperationDecision
    → String
    → String
    → ℕ
    → OrderOperation
pending_operation scope customer request snapshot decision excerpt id time = record {
  operation_id = id;
  idempotency_key = str_append "operation:" (
      str_append request.thread_id
        (str_append ":" (str_append request.source_message_id ":created")));
  thread_id = request.thread_id;
  source_message_id = request.source_message_id;
  order_id = request.order_id;
  operation_type = request.operation_type;
  request_reason_code = request.reason;
  policy_reason_codes = decision.reason_codes;
  display_reason = decision.display_reason;
  replacement_variant_id = request.replacement_variant_id;
  request_excerpt = excerpt;
  order_version = snapshot.version;
  amount = snapshot.amount;
  currency = snapshot.currency;
  requires_manual_review = is_manual_review decision.outcome;
  review_case_type = case_type_of decision.case_recommendation;
  review_priority = priority_of decision.case_recommendation;
  support_case_id = none;
  provider_reference = none;
  status = pending_confirmation;
  created_at = time;
  updated_at = time;
  version = 1;
  customer_id = customer;
  tenant_id = scope.tenant_id;
  created_by = identity scope;
}

abbrev duplicate : OrderOperation → OperationServiceResult
duplicate o = record {
  action = OperationServiceAction.duplicate_ignored;
  operation = o;
  events = [];
}

module _ (env : Environment) (scope : AccessScope) (request : OrderOperationRequest)
    (snapshot : OrderSnapshot) (decision : OperationDecision) where
  -- `_build_pending_operation`
  unfoldable pub build_pending_operation :
      String → String → Call (OrderOperation × OrderOperationEvent)
  unfolding now new_id validate_operation validate_event
  build_pending_operation customer excerpt = do
    time ← now env
    id ← new_id env
    operation ← lift (
        validated (
          validate_operation env.texts
            (pending_operation scope customer request snapshot decision excerpt id time)))
    event_id ← new_id env
    event ← lift (
        validated (
          validate_event env.texts record {
            event_id = event_id;
            idempotency_key = operation.idempotency_key;
            operation_id = id;
            event_type = OperationEventType.operation_created;
            previous_status = none;
            current_status = none;
            provider_reference = none;
            support_case_id = none;
            actor = "system";
            customer_id = customer;
            tenant_id = scope.tenant_id;
            created_at = time;
          }))
    pure (operation, event)

  unfoldable pub unless_active :
      Call OperationServiceResult → Option OrderOperation → Call OperationServiceResult
  unless_active create none = create
  unless_active create (some active) = pure (duplicate active)

  unfoldable pub unless_duplicate :
      Call OperationServiceResult → Option OrderOperation → Call OperationServiceResult
  unfolding unless_active find_active_by_order_id
  unless_duplicate create none =
      find_active_by_order_id env scope request.order_id >>= unless_active create
  unless_duplicate create (some duplicate_of) = pure (duplicate duplicate_of)

  -- The two queries before an operation is created, and after the last attempt.
  unfoldable pub unless_exists : Call OperationServiceResult → Call OperationServiceResult
  unfolding unless_duplicate find_by_source_message
  unless_exists create =
      find_by_source_message env scope request.thread_id request.source_message_id
      >>= unless_duplicate create

  -- The `except` clause: a write that lost to another one is tried again.
  unfoldable pub after_create :
      OperationServiceResult
      → Call OperationServiceResult
      → Result OperationError (Unit {0})
      → Call OperationServiceResult
  after_create success again (ok done) = pure success
  after_create success again (err active_conflict) = again
  after_create success again (err duplicate_idempotency) = again
  after_create success again (err duplicate_source_message) = again
  after_create success again (err e) = raise e

  unfoldable pub create_new :
      String → String → Call OperationServiceResult → Call OperationServiceResult
  unfolding build_pending_operation transact create_operation_with_events after_create
  create_new customer excerpt again = do
    built ← build_pending_operation customer excerpt
    written ← attempt (transact env (create_operation_with_events scope built.0 (built.1 ∷ [])))
    after_create
        (record {
          action = OperationServiceAction.created;
          operation = built.0;
          events = built.1 ∷ [];
        })
        again written

  -- The loop of `create_pending_operation`, and the queries after it.
  unfoldable pub create_attempts : ℕ → String → String → Call OperationServiceResult
  unfolding unless_exists create_new
  create_attempts zero customer excerpt = unless_exists (raise concurrent_update)
  create_attempts (suc n) customer excerpt =
      unless_exists (create_new customer excerpt (create_attempts n customer excerpt))

  -- The checks of `create_pending_operation`, by the customer of the scope.
  unfoldable pub create_for : Option String → String → Call OperationServiceResult
  unfolding type_eq create_attempts
  create_for none excerpt = raise (value_error "only customers may create order operations")
  create_for (some customer) excerpt =
      raise_when (str_eq excerpt "") (value_error "request_excerpt must not be empty")
      >> (raise_when (not (str_eq request.order_id snapshot.order_id))
            (value_error "request and snapshot must have the same order_id")
          >> (raise_when (not (type_eq decision.operation_type request.operation_type))
                (value_error "decision and request must have the same operation_type")
              >> (raise_when (not (is_persistable decision.outcome))
                    (value_error "only eligible or manual_review decisions can be persisted")
                  >> (raise_when (not decision.requires_confirmation)
                        (value_error "persisted operations must require confirmation")
                      >> create_attempts env.max_write_attempts customer excerpt))))

  -- `create_pending_operation`
  unfoldable pub create_pending_operation : String → Call OperationServiceResult
  unfolding create_for
  create_pending_operation request_excerpt =
      create_for (customer_id scope) (env.texts.strip request_excerpt)
