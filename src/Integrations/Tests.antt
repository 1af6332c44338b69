-- ===== src/Integrations/Tests.antt =====
-- Callbacks and redrives on concrete values.
use langgraph_refund_agent.Base.{
  String, ◌≡◌, ◌↔◌, refl, inl, true, false, none, some, List, [], ◌∷◌, ok, arith, Option, inr,
}
use langgraph_refund_agent.Operations.Lifecycle.{OperationRecordStatus, transition_allowed}
use langgraph_refund_agent.Integrations.Models.{
  ProviderCommandExecutionStatus, OutboxDeliveryStatus, ProviderFailureKind, DeliveryAttemptOutcome,
  map_provider_command_status,
}
use langgraph_refund_agent.Integrations.Callbacks.{
  apply, duplicate, ready, InboxDecision, reference_compatible, decide_callback,
}
use langgraph_refund_agent.Integrations.Callbacks.Convergence.{
  Callback, Standing, receive_all, callback_respects_lifecycle, replay_is_duplicate,
  completes_in_any_order,
}
use langgraph_refund_agent.Integrations.Redrive.{OutboxRedriveState, allowed, decide_outbox_redrive}
use langgraph_refund_agent.Integrations.Redrive.Evidence.{IsRedrivable, IsRedrivable-iff}

abbrev to_processing : InboxDecision
to_processing = record { action = apply; target_status = some OperationRecordStatus.processing }

applied :
    decide_callback OperationRecordStatus.submitted ProviderCommandExecutionStatus.processing none
      (some "r1")
    ≡ some to_processing
unfolding decide_callback map_provider_command_status transition_allowed
applied = ground arith

callback_respects_lifecycle_example :
    (to_processing.target_status
      ≡ some (map_provider_command_status ProviderCommandExecutionStatus.processing))
    × (transition_allowed OperationRecordStatus.submitted
          (map_provider_command_status ProviderCommandExecutionStatus.processing)
        ≡ true)
    × (reference_compatible none (some "r1") ≡ true)
callback_respects_lifecycle_example =
    callback_respects_lifecycle OperationRecordStatus.submitted
      ProviderCommandExecutionStatus.processing none (some "r1") to_processing applied refl

no_reference_compatible : reference_compatible none none ≡ true
no_reference_compatible = ground arith

replay_is_duplicate_example :
    decide_callback
      (map_provider_command_status ProviderCommandExecutionStatus.processing)
      ProviderCommandExecutionStatus.processing
      none
      none
    ≡ some (record {
      action = duplicate;
      target_status = some (map_provider_command_status ProviderCommandExecutionStatus.processing);
    })
replay_is_duplicate_example =
    replay_is_duplicate OperationRecordStatus.submitted ProviderCommandExecutionStatus.processing
      none (some "r1") none none to_processing applied refl no_reference_compatible

abbrev reporting : ProviderCommandExecutionStatus → Option String → Callback
reporting p r = record { readiness = ready; status = p; reference = r }

abbrev shuffled : List Callback
shuffled =
    reporting ProviderCommandExecutionStatus.completed (some "r1")
    ∷ reporting ProviderCommandExecutionStatus.accepted none
    ∷ reporting ProviderCommandExecutionStatus.processing (some "r1")
    ∷ []

abbrev at_provider : Standing
at_provider = record { status = OperationRecordStatus.submitted; reference = none }

completes_in_any_order_example :
    (receive_all at_provider shuffled).status ≡ OperationRecordStatus.completed
completes_in_any_order_example =
    completes_in_any_order "r1" at_provider shuffled (inl refl, inl refl)
      (
        (refl, (λ e. cc e), inr refl),
        ((refl, (λ e. cc e), inl refl), ((refl, (λ e. cc e), inr refl), tt)),
      )
      (inl refl)

abbrev dead_message : OutboxRedriveState
dead_message = record {
  status = OutboxDeliveryStatus.dead;
  delivery_cycle = 1;
  attempts_in_cycle = 8;
  has_active_lease = false;
  last_failure_kind = some ProviderFailureKind.timeout;
  terminal_attempt_cycle = some 1;
  terminal_attempt_number = some 8;
  terminal_attempt_outcome = some DeliveryAttemptOutcome.terminal_failure;
  terminal_attempt_failure_kind = some ProviderFailureKind.timeout;
}

IsRedrivable-iff_example :
    (decide_outbox_redrive dead_message 8 ≡ ok allowed) ↔ IsRedrivable dead_message 8
IsRedrivable-iff_example = IsRedrivable-iff dead_message 8 (omega arith)
