-- ===== src/Integrations/Callbacks.antt =====
-- `decide_order_operation_callback` and `decide_inbox_outbox_readiness` of
-- src/agent/integrations/inbox_policy.py.
pub mod Convergence
use langgraph_refund_agent.Base.{
  String, str_eq, Bool, true, false, not, ◌||◌, Option, none, some, if◌then◌else◌,
}
use langgraph_refund_agent.Operations.Lifecycle.{OperationRecordStatus, status_eq}
use langgraph_refund_agent.Integrations.Models.{
  ProviderCommandExecutionStatus, OutboxDeliveryStatus, map_provider_command_status,
}

pub data InboxAction : Type 0 where
  apply duplicate stale conflict : InboxAction

pub data OutboxReadiness : Type 0 where
  ready retry dead : OutboxReadiness

pub record InboxDecision : Type 0 where
  pub action : InboxAction
  pub target_status : Option OperationRecordStatus

-- `provider_reference_is_compatible`
abbrev pub reference_compatible : Option String → Option String → Bool
reference_compatible none incoming = true
reference_compatible (some c) none = true
reference_compatible (some c) (some i) = str_eq c i

-- `decide_inbox_outbox_readiness`
unfoldable pub decide_inbox_outbox_readiness : OutboxDeliveryStatus → OutboxReadiness
decide_inbox_outbox_readiness OutboxDeliveryStatus.pending = retry
decide_inbox_outbox_readiness OutboxDeliveryStatus.processing = retry
decide_inbox_outbox_readiness OutboxDeliveryStatus.retry_scheduled = retry
decide_inbox_outbox_readiness OutboxDeliveryStatus.published = ready
decide_inbox_outbox_readiness OutboxDeliveryStatus.dead = dead

abbrev decided : InboxAction → OperationRecordStatus → InboxDecision
decided action target = record { action = action; target_status = some target }

abbrev conflicting : InboxDecision
conflicting = record { action = conflict; target_status = none }

-- `local_status in {"pending_confirmation", "queued", "manual_review", "cancelled_by_customer"}`
abbrev is_not_at_provider : OperationRecordStatus → Bool
is_not_at_provider OperationRecordStatus.pending_confirmation = true
is_not_at_provider OperationRecordStatus.queued = true
is_not_at_provider OperationRecordStatus.manual_review = true
is_not_at_provider OperationRecordStatus.cancelled_by_customer = true
is_not_at_provider _ = false

abbrev is_accepted : ProviderCommandExecutionStatus → Bool
is_accepted ProviderCommandExecutionStatus.accepted = true
is_accepted _ = false

abbrev is_processing : ProviderCommandExecutionStatus → Bool
is_processing ProviderCommandExecutionStatus.processing = true
is_processing _ = false

-- `decide_order_operation_callback`, from the test `local_status == "submitted"`; `none` is its
-- `ValueError`.
by_status :
    OperationRecordStatus
    → ProviderCommandExecutionStatus
    → OperationRecordStatus
    → Option InboxDecision
by_status OperationRecordStatus.submitted p target =
    some (if is_accepted p then decided stale target else decided apply target)
by_status OperationRecordStatus.processing p target =
    if is_accepted p
    then some (decided stale target)
    else some (if is_processing p then decided duplicate target else decided apply target)
by_status OperationRecordStatus.completed p target =
    some (if is_accepted p || is_processing p then decided stale target else conflicting)
by_status OperationRecordStatus.rejected p target = some conflicting
by_status _ p target = none

-- `decide_order_operation_callback`
unfoldable pub decide_callback :
    OperationRecordStatus
    → ProviderCommandExecutionStatus
    → Option String
    → Option String
    → Option InboxDecision
unfolding by_status map_provider_command_status status_eq
decide_callback local provider current incoming =
    let target = map_provider_command_status provider in
    if not (reference_compatible current incoming)
    then some conflicting
    else if is_not_at_provider local
    then some conflicting
    else if status_eq local target
    then some (decided duplicate target)
    else by_status local provider target
