-- ===== src/Integrations/Models.antt =====
-- The vocabularies of src/agent/integrations/models.py.
use langgraph_refund_agent.Base.{Bool, true, false}
use langgraph_refund_agent.Operations.Lifecycle.{OperationRecordStatus}

-- `ProviderCommandExecutionStatus`
pub data ProviderCommandExecutionStatus : Type 0 where
  accepted processing completed rejected : ProviderCommandExecutionStatus

pub data OutboxDeliveryStatus : Type 0 where
  pending processing retry_scheduled published dead : OutboxDeliveryStatus

pub data InboxProcessingStatus : Type 0 where
  received processing processed failed : InboxProcessingStatus

pub data ProviderFailureKind : Type 0 where
  network_error timeout http_retryable : ProviderFailureKind
  http_client_error provider_rejection validation_error : ProviderFailureKind

pub data DeliveryAttemptOutcome : Type 0 where
  accepted provider_rejected retry_scheduled terminal_failure lease_expired : DeliveryAttemptOutcome

-- `kind in RETRYABLE_FAILURE_KINDS`
abbrev pub is_retryable : ProviderFailureKind → Bool
is_retryable network_error = true
is_retryable timeout = true
is_retryable http_retryable = true
is_retryable _ = false

-- `map_provider_command_status`, and `_TARGETS` of src/agent/integrations/inbox_policy.py.
unfoldable pub map_provider_command_status : ProviderCommandExecutionStatus → OperationRecordStatus
map_provider_command_status ProviderCommandExecutionStatus.accepted =
    OperationRecordStatus.submitted
map_provider_command_status ProviderCommandExecutionStatus.processing =
    OperationRecordStatus.processing
map_provider_command_status ProviderCommandExecutionStatus.completed =
    OperationRecordStatus.completed
map_provider_command_status ProviderCommandExecutionStatus.rejected = OperationRecordStatus.rejected
