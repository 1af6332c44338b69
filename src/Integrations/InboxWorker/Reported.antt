-- ===== src/Integrations/InboxWorker/Reported.antt =====
-- What `_process` of src/agent/integrations/inbox_worker.py says of the finalizer, for one message.
use langgraph_refund_agent.Base.{
  ℕ, zero, suc, ◌+◌, ◌≡◌, refl, sym, ◌⊎◌, inl, inr, none, Option-cases, List, [], ◌∷◌, some, ok,
  err, arith,
}
use langgraph_refund_agent.Integrations.Commands.{ProviderAggregateType}
use langgraph_refund_agent.Integrations.InboxWorker.{
  InboxWorkerRunResult, InboxError, lease_conflict_error, other_error, InboxFinalizationAction,
  applied, duplicate, stale, retry_scheduled, failed, InboxFinalizationResult, Finalization, Wait,
  finalizer_done, sleep_raised, renewal_raised, renewed, not_renewed, finalize_with_lease_renewal,
  same_aggregate, counter, result_counter, ClaimedItem, waits, of_finalization, process_inbox,
}

-- The task of the finalizer ends this way, as long as the lease is renewed or else before the worker
-- looks at it for the last time.
pub data IsFinalized : List Wait → Finalization → Type 0 where
  in_a_wait : {r : Finalization} {ws : List Wait} → IsFinalized (finalizer_done r ∷ ws) r
  in_a_renewal : {r : Finalization} {ws : List Wait} → IsFinalized (not_renewed (some r) ∷ ws) r
  after_renewal :
      {r : Finalization} {ws : List Wait} → IsFinalized ws r → IsFinalized (renewed ∷ ws) r

IsFinalized-finalize :
    {ws : List Wait} {r : Finalization} → IsFinalized ws r → finalize_with_lease_renewal ws ≡ some r
unfolding finalize_with_lease_renewal
IsFinalized-finalize in_a_wait = refl
IsFinalized-finalize in_a_renewal = refl
IsFinalized-finalize (after_renewal f) = IsFinalized-finalize f

finalize-IsFinalized :
    (ws : List Wait) (r : InboxFinalizationResult)
    → finalize_with_lease_renewal ws ≡ some (ok r)
    → IsFinalized ws (ok r)
unfolding finalize_with_lease_renewal
finalize-IsFinalized [] r e = ground arith
finalize-IsFinalized (finalizer_done x ∷ ws) r e = let q : x ≡ ok r = ground arith in rw q in_a_wait
finalize-IsFinalized (sleep_raised x ∷ ws) r e = ground arith
finalize-IsFinalized (renewal_raised x ∷ ws) r e = ground arith
finalize-IsFinalized (renewed ∷ ws) r e = after_renewal (finalize-IsFinalized ws r e)
finalize-IsFinalized (not_renewed (some x) ∷ ws) r e =
    let q : x ≡ ok r = ground arith in rw q in_a_renewal
finalize-IsFinalized (not_renewed none ∷ ws) r e = ground arith

-- The finalizer that the message needs ends with the action, for the message's aggregate type.
abbrev pub IsReported : InboxFinalizationAction → ClaimedItem → Type 0
IsReported a item =
    (r : InboxFinalizationResult) × (IsFinalized (waits item) (ok r)
      × (r.action ≡ a)
      × (r.aggregate_type ≡ item.aggregate_type))

-- The counter of an action.
abbrev pub count_of : InboxFinalizationAction → InboxWorkerRunResult → ℕ
count_of applied r = r.applied
count_of duplicate r = r.duplicates
count_of stale r = r.stale
count_of retry_scheduled r = r.retried
count_of failed r = r.failed

-- The messages of a result that some counter names.
abbrev pub inbox_accounted : InboxWorkerRunResult → ℕ
inbox_accounted r =
    r.applied + r.duplicates + r.stale + r.retried + r.failed + r.lease_conflicts + r.errors

-- So many messages of a batch are reported with the action.
pub data IsReportedBy : InboxFinalizationAction → List ClaimedItem → ℕ → Type 0 where
  by_none : {a : InboxFinalizationAction} → IsReportedBy a [] zero
  by_this :
      {a : InboxFinalizationAction} {item : ClaimedItem} {items : List ClaimedItem} {n : ℕ}
      → IsReported a item
      → IsReportedBy a items n
      → IsReportedBy a (item ∷ items) (suc n)
  by_others :
      {a : InboxFinalizationAction} {item : ClaimedItem} {items : List ClaimedItem} {n : ℕ}
      → ¬ (IsReported a item)
      → IsReportedBy a items n
      → IsReportedBy a (item ∷ items) n

result_counter-count :
    (a : InboxFinalizationAction) (t : ProviderAggregateType) (r : InboxFinalizationResult)
    → ((count_of a (result_counter t r) ≡ 1) × (r.action ≡ a) × (r.aggregate_type ≡ t))
      ⊎ ((count_of a (result_counter t r) ≡ 0) × (r.action ≡ a → r.aggregate_type ≡ t → ⊥))
unfolding result_counter counter same_aggregate
result_counter-count a t r = ground arith

pub of_finalization-accounted :
    (t : ProviderAggregateType) (f : Finalization) → inbox_accounted (of_finalization t f) ≡ 1
unfolding of_finalization result_counter counter same_aggregate
of_finalization-accounted t f = ground arith

pub process_inbox-finalized :
    (item : ClaimedItem) (r : InboxWorkerRunResult)
    → process_inbox item ≡ some r
    → (f : Finalization) × ((finalize_with_lease_renewal (waits item) ≡ some f)
        × (r ≡ of_finalization item.aggregate_type f))
unfolding process_inbox
process_inbox-finalized item r e = elim (Option-cases (finalize_with_lease_renewal (waits item))) [
  | inl n ↦ ground (arith, n)
  | inr (f, g) ↦ (f, (g, ground (arith, g)))
]

pub process_inbox-returns :
    (item : ClaimedItem) (f : Finalization)
    → finalize_with_lease_renewal (waits item) ≡ some f
    → process_inbox item ≡ some (of_finalization item.aggregate_type f)
unfolding process_inbox
process_inbox-returns item f g = rw (g, process_inbox) refl

no_report :
    (a : InboxFinalizationAction) (item : ClaimedItem) (e : InboxError)
    → finalize_with_lease_renewal (waits item) ≡ some (err e)
    → ¬ (IsReported a item)
no_report a item e g (x, (fin, p, q)) =
    let same = IsFinalized-finalize fin in ground (arith, same, g)

reported-IsFinalized :
    (item : ClaimedItem) (x y : InboxFinalizationResult)
    → finalize_with_lease_renewal (waits item) ≡ some (ok x)
    → IsFinalized (waits item) (ok y)
    → y ≡ x
reported-IsFinalized item x y g fin = let same = IsFinalized-finalize fin in ground (arith, same, g)

finalization-count :
    (a : InboxFinalizationAction) (item : ClaimedItem) (f : Finalization)
    → finalize_with_lease_renewal (waits item) ≡ some f
    → ((count_of a (of_finalization item.aggregate_type f) ≡ 1) × IsReported a item)
      ⊎ ((count_of a (of_finalization item.aggregate_type f) ≡ 0) × ¬ (IsReported a item))
unfolding of_finalization
finalization-count a item (err lease_conflict_error) g =
    inr (ground arith, no_report a item lease_conflict_error g)
finalization-count a item (err other_error) g = inr (ground arith, no_report a item other_error g)
finalization-count a item (ok x) g = elim (result_counter-count a item.aggregate_type x) [
  | inl (c, p, q) ↦ inl (c, (x, (finalize-IsFinalized (waits item) x g, p, q)))
  | inr (c, n) ↦ inr (
    c,
    λ r.
        let same = reported-IsFinalized item x r.0 g r.1.0 in
        n (rw (sym same) r.1.1) (rw (sym same) r.1.2),
  )
]

-- A message counts for the action exactly when it is reported with it.
pub process_inbox-count :
    (a : InboxFinalizationAction) (item : ClaimedItem) (r : InboxWorkerRunResult)
    → process_inbox item ≡ some r
    → ((count_of a r ≡ 1) × IsReported a item) ⊎ ((count_of a r ≡ 0) × ¬ (IsReported a item))
process_inbox-count a item r e =
    let (f, (g, q)) = process_inbox-finalized item r e in rw q (finalization-count a item f g)
