-- ===== src/Integrations/Retry.antt =====
-- The classification of delivery failures and the delay before the next attempt
-- (src/agent/integrations/retry.py). Floating point is a parameter: a record of the operations and
-- tests the code uses. Attempt counts are naturals, so the guard on a negative count never fires.
pub mod Delay
use langgraph_refund_agent.Base.{
  ℕ, ◌-◌, Bool, true, false, not, ◌&&◌, ◌||◌, Option, none, some, is_some, Result, ok, err, ◌>>=◌,
  ◌>>◌, raise_if, if◌then◌else◌, ltb, leb, ◌==◌,
}
use langgraph_refund_agent.Integrations.Models.{
  ProviderFailureKind, http_retryable, http_client_error, provider_rejection, timeout,
  network_error, validation_error, is_retryable,
}

-- Python's `float` as far as this code uses it; `power` is `**`, which raises on overflow.
pub record Seconds : Type 1 where
  pub Carrier : Type 0
  pub zero : Carrier
  pub one : Carrier
  pub lt : Carrier → Carrier → Bool
  pub le : Carrier → Carrier → Bool
  pub is_finite : Carrier → Bool
  pub add : Carrier → Carrier → Carrier
  pub mul : Carrier → Carrier → Carrier
  pub power : Carrier → ℕ → Option Carrier

-- The exceptions a dispatch may meet, told apart as `isinstance` and `except` tell them apart; an
-- HTTP status error carries its code and its `retry_after_seconds`.
pub data ProviderError (C : Type 0) : Type 0 where
  rejection_error timeout_error connection_error value_error : ProviderError C
  connection_not_found_error : ProviderError C
  lease_conflict_error attempts_exhausted_error other_error : ProviderError C
  http_status_error : ℕ → Option C → ProviderError C

-- What the functions below raise, by its message.
pub data RetryError : Type 0 where
  unexpected_http_status unclassified_failure : RetryError
  max_attempts_below_one base_delay_not_finite base_delay_not_positive : RetryError
  multiplier_not_finite multiplier_below_one jitter_not_finite jitter_negative : RetryError
  max_delay_not_finite max_delay_not_positive : RetryError
  retry_after_not_finite retry_after_negative : RetryError
  sample_out_of_range overflow : RetryError

-- `classify_http_status`
unfoldable pub classify_http_status : ℕ → Result RetryError ProviderFailureKind
classify_http_status status_code =
    if (status_code == 408 || status_code == 429) || (leb 500 status_code && leb status_code 599)
    then ok http_retryable
    else if leb 400 status_code && leb status_code 499
    then ok http_client_error
    else err unexpected_http_status

-- `classify_failure`
unfoldable pub classify_failure :
    {C : Type 0} → ProviderError C → Result RetryError ProviderFailureKind
classify_failure rejection_error = ok provider_rejection
classify_failure timeout_error = ok timeout
classify_failure connection_error = ok network_error
classify_failure (http_status_error status_code _) = classify_http_status status_code
classify_failure value_error = ok validation_error
classify_failure _ = err unclassified_failure

-- `MAX_ATTEMPTS`
abbrev pub max_attempts_default : ℕ
max_attempts_default = 8

module _ (S : Seconds) where
  -- The settings of a call; `random_source` is the value that a call of the source returns.
  pub record RetrySettings : Type 0 where
    pub base_delay : S.Carrier
    pub multiplier : S.Carrier
    pub jitter : S.Carrier
    pub max_delay : Option S.Carrier
    pub random_source : Option S.Carrier

  -- `RetryDecision`, without the bounds of its fields: the delay and the `Retry-After` are to be finite and
  -- not negative, and at least one attempt allowed.
  pub record RetryDecision : Type 0 where
    pub retryable : Bool
    pub kind : ProviderFailureKind
    pub attempts_so_far : ℕ
    pub max_attempts : ℕ
    pub delay_seconds : Option S.Carrier
    pub retry_after_seconds : Option S.Carrier
    pub exhausted : Bool

  -- `_validate_retry_parameters`, the checks on `max_delay_seconds`
  validate_max_delay : Option S.Carrier → Result RetryError (Unit {0})
  validate_max_delay none = ok tt
  validate_max_delay (some m) =
      raise_if (not (S.is_finite m)) max_delay_not_finite
      >> raise_if (S.le m S.zero) max_delay_not_positive

  -- `_validate_retry_parameters`, the checks on `retry_after_seconds`
  validate_retry_after : Option S.Carrier → Result RetryError (Unit {0})
  validate_retry_after none = ok tt
  validate_retry_after (some r) =
      raise_if (not (S.is_finite r)) retry_after_not_finite
      >> raise_if (S.lt r S.zero) retry_after_negative

  -- `_validate_retry_parameters`
  unfoldable pub validate_retry_parameters :
      RetrySettings → Option S.Carrier → Result RetryError (Unit {0})
  unfolding validate_max_delay validate_retry_after
  validate_retry_parameters settings retry_after =
      raise_if (not (S.is_finite settings.base_delay)) base_delay_not_finite
      >> raise_if (S.le settings.base_delay S.zero) base_delay_not_positive
      >> raise_if (not (S.is_finite settings.multiplier)) multiplier_not_finite
      >> raise_if (S.lt settings.multiplier S.one) multiplier_below_one
      >> raise_if (not (S.is_finite settings.jitter)) jitter_not_finite
      >> raise_if (S.lt settings.jitter S.zero) jitter_negative
      >> validate_max_delay settings.max_delay
      >> validate_retry_after retry_after

  -- `delay += jitter_seconds * sample`, when a source is given and jitter is on
  with_jitter : RetrySettings → S.Carrier → Result RetryError S.Carrier
  with_jitter settings delay = elim settings.random_source [
    | none ↦ ok delay
    | some sample ↦
        if not (S.lt S.zero settings.jitter)
        then ok delay
        else if not (S.le S.zero sample && S.lt sample S.one)
        then err sample_out_of_range
        else ok (S.add delay (S.mul settings.jitter sample))
  ]

  -- `min(delay, max_delay_seconds)`
  unfoldable pub capped : Option S.Carrier → S.Carrier → S.Carrier
  capped none delay = delay
  capped (some m) delay = if S.lt m delay then m else delay

  -- `max(delay, retry_after_seconds)`
  unfoldable pub at_least : Option S.Carrier → S.Carrier → S.Carrier
  at_least none delay = delay
  at_least (some r) delay = if S.lt delay r then r else delay

  -- `base_delay_seconds * (backoff_multiplier**exponent)`
  backoff : RetrySettings → ℕ → Result RetryError S.Carrier
  backoff settings exponent = elim (S.power settings.multiplier exponent) [
    | none ↦ err overflow
    | some p ↦ ok (S.mul settings.base_delay p)
  ]

  -- `retry_delay_seconds`
  unfoldable pub retry_delay_seconds :
      RetrySettings → ℕ → Option S.Carrier → Result RetryError S.Carrier
  unfolding backoff with_jitter
  retry_delay_seconds settings attempts_so_far retry_after =
      validate_retry_parameters settings retry_after
      >> (backoff settings (attempts_so_far - 1) >>= λ delay.
          with_jitter settings delay >>= λ delay.
          ok (at_least retry_after (capped settings.max_delay delay)))

  -- `decide_retry`
  unfoldable pub decide_retry :
      RetrySettings
      → ProviderFailureKind
      → ℕ
      → ℕ
      → Option S.Carrier
      → Result RetryError RetryDecision
  decide_retry settings kind attempts_so_far max_attempts retry_after =
      let exhausted = leb max_attempts attempts_so_far in
      let retryable = is_retryable kind && not exhausted in
      raise_if (ltb max_attempts 1) max_attempts_below_one
      >> validate_retry_parameters settings retry_after
      >> ((if retryable
            then (retry_delay_seconds settings attempts_so_far retry_after >>= λ d. ok (some d))
            else ok none)
          >>= λ delay. ok (record {
            retryable = retryable;
            kind = kind;
            attempts_so_far = attempts_so_far;
            max_attempts = max_attempts;
            delay_seconds = delay;
            retry_after_seconds = retry_after;
            exhausted = exhausted;
          }))
