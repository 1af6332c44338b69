-- ===== src/Operations/Service/Outbox.antt =====
-- Which calls of src/agent/operations/service.py leave the outbox alone.
use langgraph_refund_agent.Base.{
  ℕ, zero, suc, String, ◌≡◌, ◌∙◌, Bool, true, false, Option, none, some, List, [], ◌∷◌, Result, ok,
  err, bind-ok, arith, if◌then◌else◌, Result-cases, inl, inr,
}
use langgraph_refund_agent.Base.Actions.{
  Keeps, keeps_rules, Keeps-bind, Keeps-pure, Keeps-raise, Keeps-if, Keeps-attempt,
  Keeps-raise_when, ◌>>=◌,
}
use langgraph_refund_agent.Operations.Types.{
  OrderOperationRequest, OrderSnapshot, OperationDecision,
}
use langgraph_refund_agent.Operations.Lifecycle.{OperationRecordStatus}
use langgraph_refund_agent.Operations.Record.{
  OrderOperation, OrderOperationEvent, OperationServiceResult,
}
use langgraph_refund_agent.Operations.Repository.Tables.{
  Database, OperationError, concurrent_update, duplicate_idempotency, active_conflict,
  duplicate_source_message, persistence_error,
}
use langgraph_refund_agent.Operations.Repository.Constraints.{
  insert_events, insert_operation, update_row,
}
use langgraph_refund_agent.Operations.Repository.Writes.{
  create_operation_with_events, update_operation_with_events,
}
use langgraph_refund_agent.Operations.Service.World.{
  Environment, World, Call, arrive, commit, now, new_id, query, transact, fetch_operation,
  find_by_source_message, find_active_by_order_id, find_event_by_idempotency_key, get_operation,
  unchanged_result, retry, identity, after_write, unless_recorded, build_status_update,
}
use langgraph_refund_agent.Operations.Service.Changes.{
  CustomerDecision, confirm, cancel, decision_events, decide_pending, change_attempts,
  change_from_pending, confirm_operation, cancel_pending_operation,
}
use langgraph_refund_agent.Operations.Service.Pending.{
  build_pending_operation, unless_active, unless_duplicate, unless_exists, after_create, create_new,
  create_attempts, create_for, create_pending_operation,
}
use langgraph_refund_agent.Integrations.Commands.{ProviderCommandEnvelope}
use langgraph_refund_agent.Auth.{AccessScope, customer_id}

insert_events-commands :
    (es : List OrderOperationEvent) (d e : Database)
    → insert_events es d ≡ ok e
    → e.commands ≡ d.commands
unfolding insert_events
insert_events-commands [] d e h = ground arith
insert_events-commands (x ∷ es) d e h =
    ground (arith, insert_events-commands es (record d { events = x ∷ d.events }) e)

update_row-commands :
    (tenant customer : String) (o : OrderOperation) (n : ℕ) (d e : Database)
    → update_row tenant customer o n d ≡ ok e
    → e.commands ≡ d.commands
unfolding update_row
update_row-commands tenant customer o n d e h = ground arith

insert_operation-commands :
    (o : OrderOperation) (d e : Database) → insert_operation o d ≡ ok e → e.commands ≡ d.commands
unfolding insert_operation
insert_operation-commands o d e h = ground arith

update-commands :
    (scope : AccessScope) (o : OrderOperation) (events : List OrderOperationEvent) (n : ℕ)
    (d e : Database)
    → update_operation_with_events scope o events n d ≡ ok e
    → e.commands ≡ d.commands
unfolding update_operation_with_events
update-commands scope o events n d e h =
    let (d1, (h1, g1)) = bind-ok _ (insert_events events) e h in
    let (c, (h2, g2)) = bind-ok _ (λ c. update_row scope.tenant_id c o n d) d1 h1 in
    insert_events-commands events d1 e g1 ∙ update_row-commands scope.tenant_id c o n d d1 g2

create-commands :
    (scope : AccessScope) (o : OrderOperation) (events : List OrderOperationEvent) (d e : Database)
    → create_operation_with_events scope o events d ≡ ok e
    → e.commands ≡ d.commands
unfolding create_operation_with_events
create-commands scope o events d e h =
    let (d1, (h1, g1)) = bind-ok _ (insert_events events) e h in
    let (u, (h2, g2)) = bind-ok _ (λ _. insert_operation o d) d1 h1 in
    insert_events-commands events d1 e g1 ∙ insert_operation-commands o d d1 g2

module _ (env : Environment) (cs : List ProviderCommandEnvelope) where
  -- The outbox holds these commands.
  abbrev pub Holding : World → Type 0
  Holding w = w.database.commands ≡ cs

  Keeps-now : Keeps {E = OperationError} Holding (now env)
  unfolding now
  Keeps-now = record { at = λ w h. h }

  Keeps-new_id : Keeps {E = OperationError} Holding (new_id env)
  unfolding new_id
  Keeps-new_id = record { at = λ w h. h }

  module _ (others_keep : (n : ℕ) (d : Database) → (env.others n d).commands ≡ d.commands) where
    answered :
        {A : Type 0} (b : Bool) (r : Result OperationError A) (e : OperationError) (w : World)
        → Holding w
        → Holding (if◌then◌else◌ {A = Result OperationError A × World} b (r, w) (err e, w)).1
    answered true r e w h = h
    answered false r e w h = h

    Keeps-query :
        {A : Type 0} (f : Database → Result OperationError A) → Keeps Holding (query env f)
    unfolding query
    Keeps-query f = record {
      at = λ w h.
          answered (env.available w.calls) (f (arrive env w).database) persistence_error
            (arrive env w) (others_keep w.calls w.database ∙ h);
    }

    committed :
        (f : Database → Result OperationError Database)
        → ((d e : Database) → f d ≡ ok e → e.commands ≡ d.commands)
        → (b : Bool) (w : World) → Holding w
        → Holding (if b then commit env w (f w.database) else (err persistence_error, w)).1
    unfolding commit
    committed f keep false w h = h
    committed f keep true w h = elim (Result-cases (f w.database)) [
      | inl (d, e) ↦ rw e (keep w.database d e ∙ h)
      | inr (x, e) ↦ rw e h
    ]

    Keeps-transact :
        (f : Database → Result OperationError Database)
        → ((d e : Database) → f d ≡ ok e → e.commands ≡ d.commands)
        → Keeps Holding (transact env f)
    unfolding transact
    Keeps-transact f keep = record {
      at = λ w h.
          committed f keep (env.available w.calls) (arrive env w)
            (others_keep w.calls w.database ∙ h);
    }

    ruleset outbox_rules = (keeps_rules, Keeps-now, Keeps-new_id, Keeps-query, Keeps-transact)

    module _ (scope : AccessScope) where
      Keeps-get_operation : (id : String) → Keeps Holding (get_operation env scope id)
      unfolding get_operation fetch_operation
      Keeps-get_operation id =
          Keeps-bind _ _ (search outbox_rules)
            (elim [ none ↦ search outbox_rules | some o ↦ search outbox_rules ])

      Keeps-unchanged_result : (id : String) → Keeps Holding (unchanged_result env scope id)
      unfolding unchanged_result
      Keeps-unchanged_result id = search (outbox_rules, Keeps-get_operation)

      Keeps-retry :
          (again : Call OperationServiceResult) (prior : Option OrderOperationEvent)
          → Keeps Holding again
          → Keeps Holding (retry env scope again prior)
      unfolding retry
      Keeps-retry again none h = h
      Keeps-retry again (some e) h = Keeps-unchanged_result e.operation_id

      Keeps-unless_recorded :
          (key : String) (body : Call OperationServiceResult)
          → Keeps Holding body
          → Keeps Holding (unless_recorded env scope key body)
      unfolding unless_recorded find_event_by_idempotency_key
      Keeps-unless_recorded key body h = search (outbox_rules, Keeps-retry)

      Keeps-after_write :
          (key : String) (success : OperationServiceResult) (again : Call OperationServiceResult)
          (written : Result OperationError (Unit {0}))
          → Keeps Holding again
          → Keeps Holding (after_write env scope key success again written)
      unfolding after_write ◌>>=◌ unless_recorded
      Keeps-after_write key success again (ok u) h = Keeps-pure success
      Keeps-after_write key success again (err concurrent_update) h =
          Keeps-unless_recorded key again h
      Keeps-after_write key success again (err duplicate_idempotency) h =
          Keeps-unless_recorded key again h
      Keeps-after_write key success again (err e) h = Keeps-raise e

      Keeps-build_status_update :
          (current : OrderOperation) (target : OperationRecordStatus) (key actor : String)
          (reference : Option String)
          → Keeps Holding (build_status_update env current target key actor reference)
      unfolding build_status_update
      Keeps-build_status_update current target key actor reference = search outbox_rules

      Keeps-decision_events :
          (action : CustomerDecision) (key : String) (current updated : OrderOperation)
          (event : OrderOperationEvent)
          → Keeps Holding (decision_events env scope action key current updated event)
      unfolding decision_events
      Keeps-decision_events confirm key current updated event = search outbox_rules
      Keeps-decision_events cancel key current updated event = search outbox_rules

      Keeps-update :
          (u : OrderOperation) (events : List OrderOperationEvent) (n : ℕ)
          → Keeps Holding (transact env (update_operation_with_events scope u events n))
      Keeps-update u events n = Keeps-transact _ (update-commands scope u events n)

      Keeps-decide_pending :
          (action : CustomerDecision) (key : String) (current : OrderOperation)
          (again : Call OperationServiceResult)
          → Keeps Holding again
          → Keeps Holding (decide_pending env scope action key current again)
      unfolding decide_pending
      Keeps-decide_pending action key current again h =
          Keeps-bind _ _ (Keeps-build_status_update current _ _ (identity scope) none) λ changed.
            Keeps-bind _ _ (Keeps-decision_events action key current changed.0 changed.1) λ events.
              Keeps-bind _ _ (Keeps-attempt _ (Keeps-update changed.0 events current.version))
                λ written. Keeps-after_write key _ again written h

      Keeps-change_attempts :
          (n : ℕ) (action : CustomerDecision) (id key : String)
          → Keeps Holding (change_attempts env scope n action id key)
      unfolding change_attempts
      Keeps-change_attempts zero action id key = search outbox_rules
      Keeps-change_attempts (suc n) action id key =
          Keeps-bind _ _ (Keeps-get_operation id) λ current.
            Keeps-if _ _ _ (Keeps-if _ _ _ (Keeps-pure _) (Keeps-raise _))
              (Keeps-decide_pending action key current _ (Keeps-change_attempts n action id key))

      Keeps-change_from_pending :
          (action : CustomerDecision) (id request_id : String)
          → Keeps Holding (change_from_pending env scope action id request_id)
      unfolding change_from_pending
      Keeps-change_from_pending action id request_id =
          search (outbox_rules, Keeps-unless_recorded, Keeps-change_attempts)

      pub Keeps-confirm_operation :
          (id request_id : String) → Keeps Holding (confirm_operation env scope id request_id)
      unfolding confirm_operation
      Keeps-confirm_operation id request_id =
          search (outbox_rules, Keeps-get_operation, Keeps-change_from_pending)

      pub Keeps-cancel_pending_operation :
          (id request_id : String)
          → Keeps Holding (cancel_pending_operation env scope id request_id)
      unfolding cancel_pending_operation
      Keeps-cancel_pending_operation id request_id = Keeps-change_from_pending cancel id request_id

      module _ (request : OrderOperationRequest) (snapshot : OrderSnapshot)
          (decision : OperationDecision) where
        Keeps-unless_active :
            (create : Call OperationServiceResult) (active : Option OrderOperation)
            → Keeps Holding create
            → Keeps Holding (unless_active env scope request snapshot decision create active)
        unfolding unless_active
        Keeps-unless_active create none h = h
        Keeps-unless_active create (some o) h = search outbox_rules

        Keeps-unless_duplicate :
            (create : Call OperationServiceResult) (duplicate_of : Option OrderOperation)
            → Keeps Holding create
            → Keeps Holding
                (unless_duplicate env scope request snapshot decision create duplicate_of)
        unfolding unless_duplicate find_active_by_order_id
        Keeps-unless_duplicate create none h =
            Keeps-bind _ _ (search outbox_rules) λ active. Keeps-unless_active create active h
        Keeps-unless_duplicate create (some o) h = search outbox_rules

        Keeps-unless_exists :
            (create : Call OperationServiceResult)
            → Keeps Holding create
            → Keeps Holding (unless_exists env scope request snapshot decision create)
        unfolding unless_exists find_by_source_message
        Keeps-unless_exists create h =
            Keeps-bind _ _ (search outbox_rules) λ found. Keeps-unless_duplicate create found h

        Keeps-build_pending_operation :
            (customer excerpt : String)
            → Keeps Holding
                (build_pending_operation env scope request snapshot decision customer excerpt)
        unfolding build_pending_operation
        Keeps-build_pending_operation customer excerpt =
            Keeps-bind _ _ Keeps-now λ time. Keeps-bind _ _ Keeps-new_id λ id. search outbox_rules

        Keeps-after_create :
            (success : OperationServiceResult) (again : Call OperationServiceResult)
            (written : Result OperationError (Unit {0}))
            → Keeps Holding again
            → Keeps Holding (after_create env scope request snapshot decision success again written)
        unfolding after_create
        Keeps-after_create success again (ok u) h = Keeps-pure success
        Keeps-after_create success again (err active_conflict) h = h
        Keeps-after_create success again (err duplicate_idempotency) h = h
        Keeps-after_create success again (err duplicate_source_message) h = h
        Keeps-after_create success again (err e) h = Keeps-raise e

        Keeps-create_new :
            (customer excerpt : String) (again : Call OperationServiceResult)
            → Keeps Holding again
            → Keeps Holding (create_new env scope request snapshot decision customer excerpt again)
        unfolding create_new
        Keeps-create_new customer excerpt again h =
            Keeps-bind _ _ (Keeps-build_pending_operation customer excerpt) λ built.
              Keeps-bind _ _
                (Keeps-attempt _ (Keeps-transact _ (create-commands scope built.0 (built.1 ∷ []))))
                λ written. Keeps-after_create _ again written h

        Keeps-create_attempts :
            (n : ℕ) (customer excerpt : String)
            → Keeps Holding (create_attempts env scope request snapshot decision n customer excerpt)
        unfolding create_attempts
        Keeps-create_attempts zero customer excerpt = Keeps-unless_exists _ (Keeps-raise _)
        Keeps-create_attempts (suc n) customer excerpt =
            Keeps-unless_exists _
              (Keeps-create_new customer excerpt _ (Keeps-create_attempts n customer excerpt))

        Keeps-create_for :
            (customer : Option String) (excerpt : String)
            → Keeps Holding (create_for env scope request snapshot decision customer excerpt)
        unfolding create_for
        Keeps-create_for none excerpt = search outbox_rules
        Keeps-create_for (some customer) excerpt =
            let attempts = Keeps-create_attempts env.max_write_attempts customer excerpt in
            Keeps-bind _ _ (Keeps-raise_when _ _) λ _. Keeps-bind _ _ (Keeps-raise_when _ _) λ _.
              Keeps-bind _ _ (Keeps-raise_when _ _) λ _.
                Keeps-bind _ _ (Keeps-raise_when _ _)
                  λ _. Keeps-bind _ _ (Keeps-raise_when _ _) λ _. attempts

        pub Keeps-create_pending_operation :
            (excerpt : String)
            → Keeps Holding (create_pending_operation env scope request snapshot decision excerpt)
        unfolding create_pending_operation
        Keeps-create_pending_operation excerpt =
            Keeps-create_for (customer_id scope) (env.texts.strip excerpt)
