-- ===== src/Integrations/Retry/Delay.antt =====
-- When `decide_retry` retries, and the bounds of the delay it decides on.
use langgraph_refund_agent.Base.{
  ℕ, ◌-◌, bind-ok, ◌≤◌, ◌<◌, ◌≡◌, ◌↔◌, ◌≢◌, true, false, Option, none, some, ok, arith,
}
use langgraph_refund_agent.Integrations.Models.{ProviderFailureKind, is_retryable}
use langgraph_refund_agent.Integrations.Retry.{
  Seconds, RetrySettings, RetryDecision, decide_retry, retry_delay_seconds,
  validate_retry_parameters, backoff, with_jitter, capped, at_least,
}

-- A decision is to retry exactly when the kind of failure is retryable and attempts are left; it is
-- marked exhausted exactly when none are left, and it carries a delay exactly when it retries.
pub decide_retry-retryable_iff :
    (S : Seconds) (settings : RetrySettings S) (kind : ProviderFailureKind)
    (attempts max_attempts : ℕ) (retry_after : Option S.Carrier) (d : RetryDecision S)
    → decide_retry S settings kind attempts max_attempts retry_after ≡ ok d
    → ((d.retryable ≡ true) ↔ ((is_retryable kind ≡ true) × (attempts < max_attempts)))
      × ((d.exhausted ≡ true) ↔ (max_attempts ≤ attempts))
      × ((d.delay_seconds ≢ none) ↔ (d.retryable ≡ true))
unfolding decide_retry
decide_retry-retryable_iff S settings kind attempts max_attempts retry_after d e = ground arith

delay_is_computed :
    (S : Seconds) (settings : RetrySettings S) (kind : ProviderFailureKind)
    (attempts max_attempts : ℕ) (retry_after : Option S.Carrier) (d : RetryDecision S)
    (delay : S.Carrier)
    → decide_retry S settings kind attempts max_attempts retry_after ≡ ok d
    → d.delay_seconds ≡ some delay
    → retry_delay_seconds S settings attempts retry_after ≡ ok delay
unfolding decide_retry
delay_is_computed S settings kind attempts max_attempts retry_after d delay e f = ground arith

computed_is_bounded :
    (S : Seconds) (settings : RetrySettings S) (attempts : ℕ) (retry_after : Option S.Carrier)
    (delay : S.Carrier)
    → retry_delay_seconds S settings attempts retry_after ≡ ok delay
    → (x : S.Carrier) × (delay ≡ at_least S retry_after (capped S settings.max_delay x))
unfolding retry_delay_seconds
computed_is_bounded S settings attempts retry_after delay e =
    let valid = bind-ok (validate_retry_parameters S settings retry_after) _ delay e in
    let computed = bind-ok (backoff S settings (attempts - 1)) _ delay valid.1.1 in
    let jittered = bind-ok (with_jitter S settings computed.0) _ delay computed.1.1 in
    (jittered.0, ground (arith, jittered.1.1))

module _ (S : Seconds) (irreflexive : (x : S.Carrier) → S.lt x x ≡ false) where
  at_least-bound : (r x : S.Carrier) → S.lt (at_least S (some r) x) r ≡ false
  unfolding at_least
  at_least-bound r x = ground (arith, irreflexive r)

  capped-bound :
      (o : Option S.Carrier) (m x : S.Carrier) → o ≡ some m → S.lt m (capped S o x) ≡ false
  unfolding capped
  capped-bound o m x e = ground (arith, irreflexive m)

  -- The delay of a decision to retry is never below the provider's `Retry-After`, where no value is
  -- below itself.
  pub delay_respects_retry_after :
      (settings : RetrySettings S) (kind : ProviderFailureKind) (attempts max_attempts : ℕ)
      (r : S.Carrier) (d : RetryDecision S) (delay : S.Carrier)
      → decide_retry S settings kind attempts max_attempts (some r) ≡ ok d
      → d.delay_seconds ≡ some delay
      → S.lt delay r ≡ false
  delay_respects_retry_after settings kind attempts max_attempts r d delay e f =
      let x =
        computed_is_bounded S settings attempts (some r) delay
          (delay_is_computed S settings kind attempts max_attempts (some r) d delay e f) in
      rw x.1 (at_least-bound r (capped S settings.max_delay x.0))

  -- Without a `Retry-After` the delay is never above the configured maximum, where no value is below
  -- itself.
  pub delay_capped :
      (settings : RetrySettings S) (kind : ProviderFailureKind) (attempts max_attempts : ℕ)
      (m : S.Carrier) (d : RetryDecision S) (delay : S.Carrier)
      → settings.max_delay ≡ some m
      → decide_retry S settings kind attempts max_attempts none ≡ ok d
      → d.delay_seconds ≡ some delay
      → S.lt m delay ≡ false
  delay_capped settings kind attempts max_attempts m d delay w e f =
      let x =
        computed_is_bounded S settings attempts none delay
          (delay_is_computed S settings kind attempts max_attempts none d delay e f) in
      rw x.1 (unfold at_least in capped-bound settings.max_delay m x.0 w)
