-- ===== src/Operations/Service/CaseLink.antt =====
-- `attach_support_case` of src/agent/operations/service.py: the link from a reviewed operation to the
-- support case created for it.
use langgraph_refund_agent.Base.{
  ℕ, zero, suc, String, str_eq, Bool, not, ◌&&◌, Option, none, some, [], ◌∷◌, if◌then◌else◌,
}
use langgraph_refund_agent.Base.Actions.{pure, raise, lift, raise_when, attempt, ◌>>=◌, ◌>>◌}
use langgraph_refund_agent.Operations.Lifecycle.{manual_review, status_eq}
use langgraph_refund_agent.Operations.Record.{
  OrderOperation, OperationEventType, OperationServiceAction, OperationServiceResult,
  validate_event,
}
use langgraph_refund_agent.Operations.Repository.Tables.{value_error, concurrent_update}
use langgraph_refund_agent.Operations.Repository.Writes.{update_operation_with_events}
use langgraph_refund_agent.Operations.Service.World.{
  Environment, Call, validated, now, new_id, transact, get_operation, after_write, unless_recorded,
  key_of,
}
use langgraph_refund_agent.Operations.Service.Changes.{unchanged}
use langgraph_refund_agent.Auth.{AccessScope}

-- `current.requires_manual_review and current.status == "manual_review"`
unfoldable pub awaits_case : OrderOperation → Bool
unfolding status_eq
awaits_case o = o.requires_manual_review && status_eq o.status manual_review

module _ (env : Environment) (scope : AccessScope) where
  -- The write of `attach_support_case`.
  unfoldable pub write_link :
      String → String → OrderOperation → Call OperationServiceResult → Call OperationServiceResult
  unfolding now new_id validate_event transact update_operation_with_events after_write
  write_link case_id key current again = do
    time ← now env
    let updated = record current {
      support_case_id = some case_id;
      updated_at = time;
      version = suc current.version;
    }
    event_id ← new_id env
    event ← lift (
        validated (
          validate_event env.texts record {
            event_id = event_id;
            idempotency_key = key;
            operation_id = current.operation_id;
            event_type = OperationEventType.support_case_attached;
            previous_status = none;
            current_status = none;
            provider_reference = none;
            support_case_id = some case_id;
            actor = "system";
            customer_id = current.customer_id;
            tenant_id = current.tenant_id;
            created_at = time;
          }))
    written ←
        attempt
          (transact env (update_operation_with_events scope updated (event ∷ []) current.version))
    after_write env scope key
        (record {
          action = OperationServiceAction.support_case_attached;
          operation = updated;
          events = event ∷ [];
        })
        again written

  -- What follows the check on the operation, by the case that it has already.
  unfoldable pub link_case :
      String
      → String
      → OrderOperation
      → Option String
      → Call OperationServiceResult
      → Call OperationServiceResult
  unfolding write_link
  link_case case_id key current none again = write_link case_id key current again
  link_case case_id key current (some linked) again =
      if str_eq linked case_id
      then pure (unchanged current)
      else raise (value_error "a manual-review operation already has a support case")

  -- The loop of `attach_support_case`.
  unfoldable pub attach_attempts : ℕ → String → String → String → Call OperationServiceResult
  unfolding get_operation awaits_case link_case
  attach_attempts zero id case_id key = raise concurrent_update
  attach_attempts (suc n) id case_id key =
      let again = attach_attempts n id case_id key in
      get_operation env scope id >>= λ current.
      raise_when (not (awaits_case current))
        (value_error "only a manual-review operation may receive a support case")
      >> link_case case_id key current current.support_case_id again

  -- `attach_support_case`
  unfoldable pub attach_support_case : String → String → String → Call OperationServiceResult
  unfolding key_of unless_recorded attach_attempts
  attach_support_case id case_id request_id =
      let request = env.texts.strip request_id in
      let key = key_of id "support-case" request in
      raise_when (str_eq request "") (value_error "request_id must not be empty")
      >> unless_recorded env scope key (attach_attempts env.max_write_attempts id case_id key)
