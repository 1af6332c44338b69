-- ===== src/Integrations/Redrive.antt =====
-- The eligibility of a dead outbox message and of a failed inbox message for manual redrive
-- (src/agent/integrations/provider_operations_policy.py). Cycle and attempt numbers are naturals.
pub mod Evidence
use langgraph_refund_agent.Base.{
  ℕ, ◌≤◌, ◌≡◌, ◌≢◌, ◌↔◌, ◌⊎◌, Bool, true, false, not, ◌||◌, Option, none, some, Result, ok, err,
  ltb, ◌==◌, if◌then◌else◌, is_some, arith,
}
use langgraph_refund_agent.Integrations.Models.{
  OutboxDeliveryStatus, InboxProcessingStatus, ProviderFailureKind, DeliveryAttemptOutcome,
}

-- `RedriveEligibilityCode`
pub data RedriveEligibilityCode : Type 0 where
  eligible status_not_redrivable active_lease provider_rejection : RedriveEligibilityCode
  current_cycle_terminal_evidence_required : RedriveEligibilityCode
  technical_terminal_failure_required : RedriveEligibilityCode
  lease_expiry_not_attempt_exhausting : RedriveEligibilityCode

pub record RedriveEligibilityResult : Type 0 where
  pub eligible : Bool
  pub reason_code : RedriveEligibilityCode

pub record OutboxRedriveState : Type 0 where
  pub status : OutboxDeliveryStatus
  pub delivery_cycle : ℕ
  pub attempts_in_cycle : ℕ
  pub has_active_lease : Bool
  pub last_failure_kind : Option ProviderFailureKind
  pub terminal_attempt_cycle : Option ℕ
  pub terminal_attempt_number : Option ℕ
  pub terminal_attempt_outcome : Option DeliveryAttemptOutcome
  pub terminal_attempt_failure_kind : Option ProviderFailureKind

pub record InboxRedriveState : Type 0 where
  pub status : InboxProcessingStatus
  pub has_active_lease : Bool

-- The only error: `max_attempts must be positive`.
pub data RedriveError : Type 0 where
  max_attempts_not_positive : RedriveError

abbrev is_dead : OutboxDeliveryStatus → Bool
is_dead OutboxDeliveryStatus.dead = true
is_dead _ = false

abbrev is_failed : InboxProcessingStatus → Bool
is_failed InboxProcessingStatus.failed = true
is_failed _ = false

-- `kind == "provider_rejection"`
abbrev is_rejection : Option ProviderFailureKind → Bool
is_rejection (some ProviderFailureKind.provider_rejection) = true
is_rejection _ = false

-- `outcome == "provider_rejected"`
abbrev is_rejected : Option DeliveryAttemptOutcome → Bool
is_rejected (some DeliveryAttemptOutcome.provider_rejected) = true
is_rejected _ = false

-- `kind in _TECHNICAL_FAILURE_KINDS`
abbrev is_technical : Option ProviderFailureKind → Bool
is_technical (some ProviderFailureKind.provider_rejection) = false
is_technical (some _) = true
is_technical none = false

-- `o == some n`
abbrev is_number : Option ℕ → ℕ → Bool
is_number none n = false
is_number (some m) n = m == n

abbrev pub allowed : RedriveEligibilityResult
allowed = record { eligible = true; reason_code = RedriveEligibilityCode.eligible }

-- `_ineligible`
abbrev ineligible : RedriveEligibilityCode → RedriveEligibilityResult
ineligible reason_code = record { eligible = false; reason_code = reason_code }

-- `decide_outbox_redrive_eligibility`, from the tests on the terminal attempt's outcome.
by_outcome : Option DeliveryAttemptOutcome → OutboxRedriveState → ℕ → RedriveEligibilityResult
by_outcome (some DeliveryAttemptOutcome.terminal_failure) s max_attempts =
    if not (is_technical s.terminal_attempt_failure_kind)
    then ineligible RedriveEligibilityCode.technical_terminal_failure_required
    else allowed
by_outcome (some DeliveryAttemptOutcome.lease_expired) s max_attempts =
    if is_some s.terminal_attempt_failure_kind
    then ineligible RedriveEligibilityCode.technical_terminal_failure_required
    else if not (s.attempts_in_cycle == max_attempts)
    then ineligible RedriveEligibilityCode.lease_expiry_not_attempt_exhausting
    else allowed
by_outcome _ s max_attempts = ineligible RedriveEligibilityCode.technical_terminal_failure_required

-- `decide_outbox_redrive_eligibility`
unfoldable pub decide_outbox_redrive :
    OutboxRedriveState → ℕ → Result RedriveError RedriveEligibilityResult
unfolding by_outcome
decide_outbox_redrive s max_attempts =
    if ltb max_attempts 1
    then err max_attempts_not_positive
    else if not (is_dead s.status)
    then ok (ineligible RedriveEligibilityCode.status_not_redrivable)
    else if s.has_active_lease
    then ok (ineligible RedriveEligibilityCode.active_lease)
    else if is_rejection s.last_failure_kind
        || is_rejected s.terminal_attempt_outcome
        || is_rejection s.terminal_attempt_failure_kind
    then ok (ineligible RedriveEligibilityCode.provider_rejection)
    else if ltb s.delivery_cycle 1
        || ltb s.attempts_in_cycle 1
        || not (is_number s.terminal_attempt_cycle s.delivery_cycle)
        || not (is_number s.terminal_attempt_number s.attempts_in_cycle)
    then ok (ineligible RedriveEligibilityCode.current_cycle_terminal_evidence_required)
    else ok (by_outcome s.terminal_attempt_outcome s max_attempts)

-- `decide_inbox_redrive_eligibility`
unfoldable pub decide_inbox_redrive : InboxRedriveState → RedriveEligibilityResult
decide_inbox_redrive s =
    if not (is_failed s.status)
    then ineligible RedriveEligibilityCode.status_not_redrivable
    else if s.has_active_lease
    then ineligible RedriveEligibilityCode.active_lease
    else allowed
