-- ===== src/Operations/Service/Elsewhere.antt =====
-- The changes of a row of `order_operations` that other parts of the repository make:
-- src/agent/integrations/provider_failure.py, finalization.py and provider_operations_postgres.py. Each is
-- the row that the UPDATE leaves, or none where the code refuses; the support case that it creates or
-- finds is given.
use langgraph_refund_agent.Base.{
  ℕ, suc, ltb, String, str_eq, Bool, true, false, not, ◌&&◌, ◌||◌, Option, none, some, ◌≡◌, refl,
  inr, is_none, if◌then◌else◌, arith,
}
use langgraph_refund_agent.Operations.Types.{CasePriority, RecommendedCaseType}
use langgraph_refund_agent.Operations.Lifecycle.{
  pending_confirmation, queued, submitted, rejected, manual_review, status_eq, transition_allowed,
}
use langgraph_refund_agent.Operations.Lifecycle.Reachability.{Moves, by_table, to_review, redriven}
use langgraph_refund_agent.Operations.Record.{OrderOperation}
use langgraph_refund_agent.Operations.Service.History.{IsLater, IsMoved}
use langgraph_refund_agent.Integrations.Models.{ProviderFailureKind, provider_rejection}
use langgraph_refund_agent.Auth.{AccessScope, customer_id}

abbrev later_of : ℕ → ℕ → ℕ
later_of a b = if ltb a b then b else a

-- `GREATEST(now, updated_at, created_at)`
abbrev greatest_time : ℕ → OrderOperation → ℕ
greatest_time now o = later_of (later_of now o.updated_at) o.created_at

abbrev owned_by : Option String → String → Bool
owned_by none c = false
owned_by (some d) c = str_eq c d

-- The row in manual review, with its support case.
abbrev under_review : String → ℕ → OrderOperation → OrderOperation
under_review case_id now o = record o {
  requires_manual_review = true;
  review_case_type = some RecommendedCaseType.order_operation_review;
  review_priority = some CasePriority.p1;
  support_case_id = some case_id;
  status = manual_review;
  updated_at = now;
  version = suc o.version;
}

-- `_move_once` of the failure coordinator, for an operation that is not in manual review yet.
unfoldable pub move_once : AccessScope → String → ℕ → OrderOperation → Option OrderOperation
move_once scope case_id now o =
    if not (str_eq o.tenant_id scope.tenant_id && owned_by (customer_id scope) o.customer_id)
      || not (status_eq o.status pending_confirmation)
    then none
    else some (under_review case_id now o)

-- `target` of `_finalize_operation`: the command is published, or dead by a failure.
pub data FinalTarget : Type 0 where
  published : FinalTarget
  dead : Option ProviderFailureKind → FinalTarget

abbrev or_else : Option String → String → String
or_else none fallback = fallback
or_else (some id) fallback = id

-- The row that `_finalize_operation` writes for a target.
finalized_row : FinalTarget → Option String → String → ℕ → OrderOperation → OrderOperation
finalized_row published reference case_id now o = record o {
  provider_reference = reference;
  status = submitted;
  updated_at = greatest_time now o;
  version = suc o.version;
}
finalized_row (dead (some provider_rejection)) reference case_id now o = record o {
  provider_reference = reference;
  status = rejected;
  updated_at = greatest_time now o;
  version = suc o.version;
}
finalized_row (dead _) reference case_id now o =
    record (under_review (or_else o.support_case_id case_id) (greatest_time now o) o) {
      provider_reference = reference;
    }

-- The reference of the provider's result, or else that of the operation.
abbrev reference_of : Option (Option String) → OrderOperation → Option String
reference_of none o = o.provider_reference
reference_of (some reference) o = reference

-- `_finalize_operation`
unfoldable pub finalize_operation :
    String
    → FinalTarget
    → Option (Option String)
    → String
    → ℕ
    → OrderOperation
    → Option OrderOperation
unfolding finalized_row
finalize_operation tenant target result case_id now o =
    if not (str_eq o.tenant_id tenant) || not (status_eq o.status queued)
    then none
    else some (finalized_row target (reference_of result o) case_id now o)

abbrev is_operation_review : Option RecommendedCaseType → Bool
is_operation_review (some RecommendedCaseType.order_operation_review) = true
is_operation_review _ = false

-- `_recover_operation` of a redrive, by the customer of the message, where the support case of the
-- operation is associated with it.
unfoldable pub recover_operation : String → ℕ → OrderOperation → Option OrderOperation
recover_operation customer now o =
    if not (str_eq o.customer_id customer)
      || not (status_eq o.status manual_review)
      || not o.requires_manual_review
      || not (is_operation_review o.review_case_type)
      || is_none o.support_case_id
    then none
    else some (record o {
      requires_manual_review = false;
      review_case_type = none;
      review_priority = none;
      support_case_id = none;
      status = queued;
      updated_at = greatest_time now o;
      version = suc o.version;
    })

-- A change to a row by which the operation is one version later and moves by the table.
IsLater-by_table :
    (o u : OrderOperation)
    → u.version ≡ suc o.version
    → u.requires_manual_review ≡ o.requires_manual_review
    → transition_allowed o.status u.status ≡ true
    → IsLater IsMoved o u
IsLater-by_table o u version review allowed =
    (inr (ground (arith, version)), rw review (by_table Moves.here allowed))

-- One by which it goes to a review.
IsLater-to_review :
    (o u : OrderOperation)
    → u.version ≡ suc o.version
    → u.status ≡ manual_review
    → u.requires_manual_review ≡ true
    → transition_allowed o.status manual_review ≡ true
    → IsLater IsMoved o u
IsLater-to_review o u version status review allowed =
    (inr (ground (arith, version)), rw (status, review) (to_review Moves.here allowed))

move_once-IsLater :
    (scope : AccessScope) (case_id : String) (now : ℕ) (o u : OrderOperation)
    → move_once scope case_id now o ≡ some u
    → IsLater IsMoved o u
unfolding move_once status_eq transition_allowed
move_once-IsLater scope case_id now o u h =
    IsLater-to_review o u (ground arith) (ground arith) (ground arith) (ground arith)

finalized_row-IsLater :
    (t : FinalTarget) (reference : Option String) (case_id : String) (now : ℕ) (o : OrderOperation)
    → o.status ≡ queued
    → IsLater IsMoved o (finalized_row t reference case_id now o)
unfolding finalized_row transition_allowed
finalized_row-IsLater published reference case_id now o h =
    IsLater-by_table o _ refl refl (ground (arith, h))
finalized_row-IsLater (dead (some provider_rejection)) reference case_id now o h =
    IsLater-by_table o _ refl refl (ground (arith, h))
finalized_row-IsLater (dead k) reference case_id now o h =
    IsLater-to_review o _ refl refl refl (ground (arith, h))

finalize_operation-IsLater :
    (tenant : String) (t : FinalTarget) (result : Option (Option String)) (case_id : String)
    (now : ℕ) (o u : OrderOperation)
    → finalize_operation tenant t result case_id now o ≡ some u
    → IsLater IsMoved o u
unfolding finalize_operation status_eq
finalize_operation-IsLater tenant t result case_id now o u h =
    let is : u ≡ finalized_row t (reference_of result o) case_id now o = ground arith in
    rw is (finalized_row-IsLater t (reference_of result o) case_id now o (ground arith))

recover_operation-IsLater :
    (customer : String) (now : ℕ) (o u : OrderOperation)
    → recover_operation customer now o ≡ some u
    → IsLater IsMoved o u
unfolding recover_operation status_eq
recover_operation-IsLater customer now o u h =
    let from : (o.status ≡ manual_review) × (o.requires_manual_review ≡ true) = ground arith in
    let to : (u.status ≡ queued) × (u.requires_manual_review ≡ false) = ground arith in
    (inr (ground arith), rw (from.0, from.1, to.0, to.1) (redriven Moves.here))
