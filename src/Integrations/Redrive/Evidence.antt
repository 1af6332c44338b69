-- ===== src/Integrations/Redrive/Evidence.antt =====
-- What evidence `decide_outbox_redrive_eligibility` asks for before it lets a dead message be sent
-- again.
use langgraph_refund_agent.Base.{ℕ, ◌≤◌, ◌≡◌, ◌≢◌, ◌↔◌, ◌⊎◌, false, none, some, ok, arith}
use langgraph_refund_agent.Integrations.Models.{
  OutboxDeliveryStatus, ProviderFailureKind, DeliveryAttemptOutcome,
}
use langgraph_refund_agent.Integrations.Redrive.{OutboxRedriveState, allowed, decide_outbox_redrive}

-- The last attempt ended for a technical reason: it failed with a kind other than a rejection, or
-- was the last attempt allowed and let its lease expire.
abbrev pub IsTechnicalEnd : OutboxRedriveState → ℕ → Type 0
IsTechnicalEnd s max_attempts =
    ((s.terminal_attempt_outcome ≡ some DeliveryAttemptOutcome.terminal_failure)
      × (s.terminal_attempt_failure_kind ≢ none)
      × (s.terminal_attempt_failure_kind ≢ some ProviderFailureKind.provider_rejection))
    ⊎ ((s.terminal_attempt_outcome ≡ some DeliveryAttemptOutcome.lease_expired)
        × (s.terminal_attempt_failure_kind ≡ none)
        × (s.attempts_in_cycle ≡ max_attempts))

-- A dead message nobody holds, that the provider did not refuse, with the evidence of the current
-- cycle's last attempt.
pub record IsRedrivable (s : OutboxRedriveState) (max_attempts : ℕ) : Type 0 where
  pub is_dead_letter : s.status ≡ OutboxDeliveryStatus.dead
  pub unleased : s.has_active_lease ≡ false
  pub not_refused : s.last_failure_kind ≢ some ProviderFailureKind.provider_rejection
  pub cycle_begun : 1 ≤ s.delivery_cycle
  pub attempted : 1 ≤ s.attempts_in_cycle
  pub current_cycle : s.terminal_attempt_cycle ≡ some s.delivery_cycle
  pub last_attempt : s.terminal_attempt_number ≡ some s.attempts_in_cycle
  pub technical : IsTechnicalEnd s max_attempts

decide_outbox_redrive_sound :
    (s : OutboxRedriveState) (max_attempts : ℕ)
    → 1 ≤ max_attempts
    → decide_outbox_redrive s max_attempts ≡ ok allowed
    → IsRedrivable s max_attempts
unfolding decide_outbox_redrive
decide_outbox_redrive_sound s m h e = record {
  is_dead_letter = ground arith;
  unleased = ground arith;
  not_refused = ground arith;
  cycle_begun = ground arith;
  attempted = ground arith;
  current_cycle = ground arith;
  last_attempt = ground arith;
  technical = ground arith;
}

decide_outbox_redrive_complete :
    (s : OutboxRedriveState) (max_attempts : ℕ)
    → 1 ≤ max_attempts
    → IsRedrivable s max_attempts
    → decide_outbox_redrive s max_attempts ≡ ok allowed
unfolding decide_outbox_redrive
decide_outbox_redrive_complete s m h r = ground (
  arith, r.is_dead_letter, r.unleased, r.not_refused, r.cycle_begun, r.attempted, r.current_cycle,
  r.last_attempt, r.technical,
)

-- With a positive bound on attempts, the redrive of a message is allowed exactly when the message is
-- dead, unleased, not refused by the provider, and the recorded attempt is the last one of the
-- current cycle and ended for a technical reason.
pub IsRedrivable-iff :
    (s : OutboxRedriveState) (max_attempts : ℕ)
    → 1 ≤ max_attempts
    → (decide_outbox_redrive s max_attempts ≡ ok allowed) ↔ IsRedrivable s max_attempts
IsRedrivable-iff s m h = (decide_outbox_redrive_sound s m h, decide_outbox_redrive_complete s m h)
