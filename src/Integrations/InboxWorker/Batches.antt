-- ===== src/Integrations/InboxWorker/Batches.antt =====
-- What `run_once` of src/agent/integrations/inbox_worker.py counts.
use mathlib.Core.Path.{subst}
use langgraph_refund_agent.Base.{
  ℕ, zero, suc, ◌+◌, ◌≡◌, refl, inl, inr, Option, List, [], ◌∷◌, length, some, err, arith,
}
use langgraph_refund_agent.Integrations.InboxWorker.{
  InboxWorkerRunResult, lease_conflict_error, inbox_claimed, InboxFinalizationAction, Finalization,
  Wait, finalizer_done, sleep_raised, renewal_raised, renewed, not_renewed,
  finalize_with_lease_renewal, ClaimedItem, waits, of_finalization, process_inbox, gather_inbox,
  merge_inbox, merge_all_inbox, run_inbox_once,
}
use langgraph_refund_agent.Integrations.InboxWorker.Reported.{
  count_of, inbox_accounted, IsReportedBy, by_none, by_this, by_others, of_finalization-accounted,
  process_inbox-finalized, process_inbox-returns, process_inbox-count,
}

process_inbox-accounted :
    (item : ClaimedItem) (r : InboxWorkerRunResult)
    → process_inbox item ≡ some r
    → inbox_accounted r ≡ 1
process_inbox-accounted item r e =
    let (f, (g, q)) = process_inbox-finalized item r e in
    rw q (of_finalization-accounted item.aggregate_type f)

gather_inbox-cons :
    (item : ClaimedItem) (items : List ClaimedItem) (rs : List InboxWorkerRunResult)
    → gather_inbox (item ∷ items) ≡ some rs
    → (r : InboxWorkerRunResult) × ((rest : List InboxWorkerRunResult) × ((rs ≡ r ∷ rest)
          × (process_inbox item ≡ some r)
          × (gather_inbox items ≡ some rest)))
unfolding gather_inbox
gather_inbox-cons item items rs e = ground arith

merge_inbox-count :
    (a : InboxFinalizationAction) (s r : InboxWorkerRunResult)
    → count_of a (merge_inbox s r) ≡ count_of a s + count_of a r
unfolding merge_inbox
merge_inbox-count a s r = ground arith

merge_inbox-accounted :
    (s r : InboxWorkerRunResult)
    → inbox_accounted (merge_inbox s r) ≡ inbox_accounted s + inbox_accounted r
unfolding merge_inbox
merge_inbox-accounted s r = omega arith

-- The merged result of a batch, from any start.
abbrev IsMergedFrom :
    InboxFinalizationAction
    → List ClaimedItem
    → InboxWorkerRunResult
    → InboxWorkerRunResult
    → ℕ
    → Type 0
IsMergedFrom a batch start end n =
    IsReportedBy a batch n
    × (count_of a end ≡ count_of a start + n)
    × (inbox_accounted end ≡ inbox_accounted start + length batch)
    × (end.claimed ≡ start.claimed)

merged_cons :
    (a : InboxFinalizationAction) (item : ClaimedItem) (items : List ClaimedItem)
    (start r end : InboxWorkerRunResult) (n : ℕ)
    → process_inbox item ≡ some r
    → IsMergedFrom a items (merge_inbox start r) end n
    → (m : ℕ) × IsMergedFrom a (item ∷ items) start end m
unfolding merge_inbox
merged_cons a item items start r end n p (by, c, t, k) =
    let one = process_inbox-accounted item r p in
    let sum = merge_inbox-accounted start r in
    let counted = merge_inbox-count a start r in
    elim (process_inbox-count a item r p) [
      | inl (d, is) ↦ (suc n, (by_this is by, omega arith, omega arith, k))
      | inr (d, is) ↦ (n, (by_others is by, omega arith, omega arith, k))
    ]

gather_inbox-counts :
    (a : InboxFinalizationAction) (batch : List ClaimedItem) (rs : List InboxWorkerRunResult)
    (start : InboxWorkerRunResult)
    → gather_inbox batch ≡ some rs
    → (n : ℕ) × IsMergedFrom a batch start (merge_all_inbox start rs) n
unfolding gather_inbox merge_all_inbox
gather_inbox-counts a [] rs start e =
    let q : rs ≡ [] = ground arith in rw q (zero, (by_none, omega arith, omega arith, refl))
gather_inbox-counts a (item ∷ items) rs start e =
    let (r, (rest, (q, p, g))) = gather_inbox-cons item items rs e in
    let (n, merged) = gather_inbox-counts a items rest (merge_inbox start r) g in
    rw q (merged_cons a item items start r (merge_all_inbox (merge_inbox start r) rest) n p merged)

none_yet : (a : InboxFinalizationAction) (n : ℕ) → count_of a (inbox_claimed n) ≡ 0
none_yet a n = ground arith

-- The worker's wait for the finalizer comes to an end: not every round only renews the lease.
abbrev pub IsOver : List Wait → Type 0
IsOver [] = ⊥
IsOver (renewed ∷ ws) = IsOver ws
IsOver _ = Unit

abbrev pub AllOver : List ClaimedItem → Type 0
AllOver [] = Unit
AllOver (item ∷ items) = IsOver (waits item) × AllOver items

finalize-returns :
    (ws : List Wait) → IsOver ws → (f : Finalization) × (finalize_with_lease_renewal ws ≡ some f)
unfolding finalize_with_lease_renewal
finalize-returns [] o = elim o [ ]
finalize-returns (finalizer_done x ∷ ws) o = (x, refl)
finalize-returns (sleep_raised x ∷ ws) o = (err x, refl)
finalize-returns (renewal_raised x ∷ ws) o = (err x, refl)
finalize-returns (renewed ∷ ws) o = finalize-returns ws o
finalize-returns (not_renewed (some x) ∷ ws) o = (x, refl)
finalize-returns (not_renewed Option.none ∷ ws) o = (err lease_conflict_error, refl)

gather_inbox-some :
    (item : ClaimedItem) (items : List ClaimedItem) (r : InboxWorkerRunResult)
    (rs : List InboxWorkerRunResult)
    → process_inbox item ≡ some r
    → gather_inbox items ≡ some rs
    → gather_inbox (item ∷ items) ≡ some (r ∷ rs)
unfolding gather_inbox
gather_inbox-some item items r rs p g = ground (arith, p, g)

gather_inbox-returns :
    (batch : List ClaimedItem)
    → AllOver batch
    → (rs : List InboxWorkerRunResult) × (gather_inbox batch ≡ some rs)
unfolding gather_inbox
gather_inbox-returns [] o = ([], refl)
gather_inbox-returns (item ∷ items) (o, os) =
    let (f, g) = finalize-returns (waits item) o in
    let (rs, h) = gather_inbox-returns items os in
    let r = of_finalization item.aggregate_type f in
    (r ∷ rs, gather_inbox-some item items r rs (process_inbox-returns item f g) h)

run_inbox_once-some :
    (batch : List ClaimedItem) (rs : List InboxWorkerRunResult)
    → gather_inbox batch ≡ some rs
    → run_inbox_once batch ≡ some (merge_all_inbox (inbox_claimed (length batch)) rs)
unfolding run_inbox_once
run_inbox_once-some batch rs g = ground (arith, g)

-- When the worker's wait for each message of a batch comes to an end, `run_once` returns, whatever the
-- finalizers and the renewals raise: it claims the whole batch, each message is in exactly one counter,
-- and each counter of an action counts exactly the messages whose finalizer, the one for the aggregate
-- type of the message, ended with that action and that type before the worker gave the lease up.
pub run_inbox_once_counts :
    (a : InboxFinalizationAction) (batch : List ClaimedItem)
    → AllOver batch
    → (result : InboxWorkerRunResult) × ((run_inbox_once batch ≡ some result)
        × (result.claimed ≡ length batch)
        × (inbox_accounted result ≡ length batch)
        × IsReportedBy a batch (count_of a result))
run_inbox_once_counts a batch o =
    let (rs, g) = gather_inbox-returns batch o in
    let start = inbox_claimed (length batch) in
    let (n, (by, c, t, k)) = gather_inbox-counts a batch rs start g in
    let none_before = none_yet a (length batch) in
    let same : n ≡ count_of a (merge_all_inbox start rs) = omega arith in
    (
      merge_all_inbox start rs,
      (run_inbox_once-some batch rs g, k, omega arith, subst (λ m. IsReportedBy a batch m) same by),
    )
