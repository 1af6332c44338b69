-- ===== src/Operations/Service/World.antt =====
-- What a call of `OperationService` (src/agent/operations/service.py) works on, its calls of the
-- repository, and its helpers. Other processes write to the database between two calls.
use langgraph_refund_agent.Base.{
  ℕ, suc, String, str_eq, str_append, Bool, Option, none, some, List, [], Result, ok, err,
  if◌then◌else◌,
}
use langgraph_refund_agent.Base.Actions.{Exec, pure, raise, lift, ◌>>=◌}
use langgraph_refund_agent.Operations.Types.{ExistingOperation, OrderOperationRequest}
use langgraph_refund_agent.Operations.Lifecycle.{OperationRecordStatus, transition_allowed}
use langgraph_refund_agent.Operations.Record.{
  Texts, OrderOperation, OrderOperationEvent, status_changed, OperationServiceAction,
  OperationServiceResult, validate_operation, validate_event,
}
use langgraph_refund_agent.Operations.Repository.Tables.{
  OperationError, value_error, validation_error, invalid_transition, not_found, persistence_error,
  concurrent_update, duplicate_idempotency, Database, select_by_id, select_by_source_message,
  select_event, select_active,
}
use langgraph_refund_agent.Operations.Repository.Writes.{require_customer}
use langgraph_refund_agent.Auth.{AccessScope}

-- The arguments of one call of `submit_operation` of the order system.
pub record Submission : Type 0 where
  pub request : OrderOperationRequest
  pub expected_order_version : ℕ
  pub idempotency_key : String

-- What is not the service's own: the texts' functions, the readings of the clock, the identifiers, what
-- the other processes make of the database before a call of the repository, whether PostgreSQL answers
-- it, and what the order system answers to a submission.
pub record Environment : Type 0 where
  pub texts : Texts
  pub clock : ℕ → ℕ
  pub id_factory : ℕ → String
  pub others : ℕ → Database → Database
  pub available : ℕ → Bool
  pub provider : ℕ → Submission → Result String ExistingOperation
  pub max_write_attempts : ℕ

-- The database, the calls of the repository, readings of the clock and identifiers so far, and the
-- submissions, the last one first.
pub record World : Type 0 where
  pub database : Database
  pub calls : ℕ
  pub clock_reads : ℕ
  pub ids_drawn : ℕ
  pub submissions : List Submission

-- A call of the service.
abbrev pub Call : Type 0 → Type 0
Call A = Exec World OperationError A

-- A missing value is the `ValidationError`.
abbrev pub validated : {A : Type 0} → Option A → Result OperationError A
validated none = err validation_error
validated (some a) = ok a

-- `provider_reference or current.provider_reference`
unfoldable pub or_else : Option String → Option String → Option String
or_else none b = b
or_else (some a) b = if str_eq a "" then b else some a

module _ (env : Environment) where
  -- `self._clock()`
  unfoldable pub now : Call ℕ
  now w = (ok (env.clock w.clock_reads), record w { clock_reads = suc w.clock_reads })

  -- `self._id_factory()`
  unfoldable pub new_id : Call String
  new_id w = (ok (env.id_factory w.ids_drawn), record w { ids_drawn = suc w.ids_drawn })

  -- The world when a call of the repository begins.
  abbrev pub arrive : World → World
  arrive w = record w { database = env.others w.calls w.database; calls = suc w.calls }

  unfoldable pub commit :
      World → Result OperationError Database → Result OperationError (Unit {0}) × World
  commit w (ok db) = (ok tt, record w { database = db })
  commit w (err e) = (err e, w)

  -- A transaction: it writes all, or it raises and writes nothing.
  unfoldable pub transact : (Database → Result OperationError Database) → Call (Unit {0})
  unfolding commit
  transact f w =
      let seen = arrive w in
      if env.available w.calls then commit seen (f seen.database) else (err persistence_error, seen)

  -- A query.
  unfoldable pub query : {A : Type 0} → (Database → Result OperationError A) → Call A
  query f w =
      let seen = arrive w in
      if env.available w.calls then (f seen.database, seen) else (err persistence_error, seen)

  -- `_operation_from_row`, where there is a row.
  unfoldable pub from_row : Option OrderOperation → Result OperationError (Option OrderOperation)
  unfolding validate_operation
  from_row none = ok none
  from_row (some row) = elim (validate_operation env.texts row) [
    | none ↦ err validation_error
    | some o ↦ ok (some o)
  ]

  -- `_event_from_row`, where there is a row.
  unfoldable pub event_from_row :
      Option OrderOperationEvent → Result OperationError (Option OrderOperationEvent)
  unfolding validate_event
  event_from_row none = ok none
  event_from_row (some row) = elim (validate_event env.texts row) [
    | none ↦ err validation_error
    | some e ↦ ok (some e)
  ]

  module _ (scope : AccessScope) where
    -- `OperationRepository.get_operation`
    unfoldable pub fetch_operation : String → Call (Option OrderOperation)
    unfolding query from_row select_by_id require_customer
    fetch_operation id = lift (require_customer scope) >>= λ c.
        query λ db. from_row (select_by_id scope.tenant_id c id db.operations)

    -- `find_by_source_message`
    unfoldable pub find_by_source_message : String → String → Call (Option OrderOperation)
    unfolding query from_row select_by_source_message require_customer
    find_by_source_message thread message = lift (require_customer scope) >>= λ c.
        query
          λ db. from_row (select_by_source_message scope.tenant_id c thread message db.operations)

    -- `find_active_by_order_id`
    unfoldable pub find_active_by_order_id : String → Call (Option OrderOperation)
    unfolding query from_row select_active require_customer
    find_active_by_order_id order = lift (require_customer scope) >>= λ c.
        query λ db. from_row (select_active scope.tenant_id c order db.operations)

    -- `find_event_by_idempotency_key`
    unfoldable pub find_event_by_idempotency_key : String → Call (Option OrderOperationEvent)
    unfolding query event_from_row select_event require_customer
    find_event_by_idempotency_key key = lift (require_customer scope) >>= λ c.
        query λ db. event_from_row (select_event scope.tenant_id c key db.events)

    -- `OperationService.get_operation`
    unfoldable pub get_operation : String → Call OrderOperation
    unfolding fetch_operation
    get_operation id = fetch_operation id >>= elim [ none ↦ raise (not_found id) | some o ↦ pure o ]

    -- `_unchanged_result`
    unfoldable pub unchanged_result : String → Call OperationServiceResult
    unfolding get_operation
    unchanged_result id = do
      current ← get_operation id
      pure record {
        action = OperationServiceAction.status_unchanged;
        operation = current;
        events = [];
      }

    unfoldable pub retry :
        Call OperationServiceResult → Option OrderOperationEvent → Call OperationServiceResult
    unfolding unchanged_result
    retry again none = again
    retry again (some prior) = unchanged_result prior.operation_id

    -- `except (ConcurrentOperationUpdateError, DuplicateOperationIdempotencyError)`: the request may have
    -- been recorded by another attempt; otherwise the loop goes on.
    unfoldable pub after_write :
        String
        → OperationServiceResult
        → Call OperationServiceResult
        → Result OperationError (Unit {0})
        → Call OperationServiceResult
    unfolding retry find_event_by_idempotency_key
    after_write key success again (ok done) = pure success
    after_write key success again (err concurrent_update) =
        find_event_by_idempotency_key key >>= retry again
    after_write key success again (err duplicate_idempotency) =
        find_event_by_idempotency_key key >>= retry again
    after_write key success again (err e) = raise e

    -- `prior = ...; if prior is not None: return ...` before the loop.
    unfoldable pub unless_recorded :
        String → Call OperationServiceResult → Call OperationServiceResult
    unfolding retry find_event_by_idempotency_key
    unless_recorded key body = find_event_by_idempotency_key key >>= retry body

  -- `_build_status_update`; the caller gives the arguments of the event's constructor.
  unfoldable pub build_status_update :
      OrderOperation
      → OperationRecordStatus
      → String
      → String
      → Option String
      → Call (OrderOperation × OrderOperationEvent)
  unfolding now new_id or_else validate_event
  build_status_update current target key actor reference = do
    time ← now
    let updated = record current {
      status = target;
      provider_reference = or_else reference current.provider_reference;
      updated_at = time;
      version = suc current.version;
    }
    id ← new_id
    event ← lift (
        validated (
          validate_event env.texts record {
            event_id = id;
            idempotency_key = key;
            operation_id = current.operation_id;
            event_type = status_changed;
            previous_status = some current.status;
            current_status = some target;
            provider_reference = updated.provider_reference;
            support_case_id = none;
            actor = actor;
            customer_id = current.customer_id;
            tenant_id = current.tenant_id;
            created_at = time;
          }))
    pure (updated, event)

  -- `_validate_request_metadata`
  unfoldable pub validate_request_metadata :
      String → String → Result OperationError (String × String)
  validate_request_metadata request_id actor =
      if str_eq (env.texts.strip request_id) ""
      then err (value_error "request_id must not be empty")
      else if str_eq (env.texts.strip actor) ""
      then err (value_error "actor must not be empty")
      else ok (env.texts.strip request_id, env.texts.strip actor)

-- `_validate_status_transition`
unfoldable pub validate_status_transition :
    OperationRecordStatus → OperationRecordStatus → Result OperationError (Unit {0})
unfolding transition_allowed
validate_status_transition current target =
    if transition_allowed current target then ok tt else err (invalid_transition current)

-- f"operation:{operation_id}:{action}:{request_id}"
unfoldable pub key_of : String → String → String → String
key_of operation_id action request_id =
    str_append "operation:"
      (str_append operation_id (str_append ":" (str_append action (str_append ":" request_id))))

-- `scope.identity`; the components of a scope are validated.
unfoldable pub identity : AccessScope → String
identity scope = str_append scope.tenant_id (str_append ":" scope.user_id)
