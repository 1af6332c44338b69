-- ===== src/Operations/Lifecycle/Reachability.antt =====
-- What the transition table of src/agent/operations/service.py lets happen to an operation.
use langgraph_refund_agent.Base.{ℕ, ◌+◌, ◌≤◌, ◌≡◌, ◌⊎◌, refl, inl, inr, Bool, true, false, arith}
use langgraph_refund_agent.Operations.Lifecycle.{
  OperationRecordStatus, pending_confirmation, queued, submitted, processing, manual_review,
  completed, rejected, cancelled_by_customer, transition_allowed,
}

-- A sequence of changes that `_validate_status_transition` accepts.
pub data Reaches (s : OperationRecordStatus) : OperationRecordStatus → Type 0 where
  here : Reaches s s
  next : {t u : OperationRecordStatus} → Reaches s t → transition_allowed t u ≡ true → Reaches s u

pub Reaches-trans : {s t u : OperationRecordStatus} → Reaches s t → Reaches t u → Reaches s u
Reaches-trans p here = p
Reaches-trans p (next q h) = next (Reaches-trans p q) h

-- How many changes can still follow a status.
abbrev steps_left : OperationRecordStatus → ℕ
steps_left pending_confirmation = 4
steps_left queued = 3
steps_left submitted = 2
steps_left manual_review = 2
steps_left processing = 1
steps_left _ = 0

transition_descends :
    (t u : OperationRecordStatus) → transition_allowed t u ≡ true → steps_left u + 1 ≤ steps_left t
unfolding transition_allowed
transition_descends t u h = ground arith

-- What the repository does to the status of an operation and to whether staff must review it. The service
-- changes the status by its table; the fallback for a missing connection (integrations/provider_failure.py)
-- and the end of a failed dispatch (integrations/finalization.py) send it to a review, by a change that is
-- in the table, and the redrive of a dead command (integrations/provider_operations_postgres.py) ends the
-- review and queues the operation again, by one that is not.
pub data Moves (s : OperationRecordStatus) (b : Bool) : OperationRecordStatus → Bool → Type 0 where
  here : Moves s b s b
  by_table :
      {t u : OperationRecordStatus} {c : Bool}
      → Moves s b t c
      → transition_allowed t u ≡ true
      → Moves s b u c
  to_review :
      {t : OperationRecordStatus} {c : Bool}
      → Moves s b t c
      → transition_allowed t manual_review ≡ true
      → Moves s b manual_review true
  redriven : Moves s b manual_review true → Moves s b queued false

pub Moves-trans :
    {s : OperationRecordStatus} {b : Bool} {t : OperationRecordStatus} {c : Bool}
    {u : OperationRecordStatus} {d : Bool}
    → Moves s b t c
    → Moves t c u d
    → Moves s b u d
Moves-trans p Moves.here = p
Moves-trans p (by_table q h) = by_table (Moves-trans p q) h
Moves-trans p (to_review q h) = to_review (Moves-trans p q) h
Moves-trans p (redriven q) = redriven (Moves-trans p q)

-- The changes that the table allows, and the redrives.
pub changes :
    {s : OperationRecordStatus} {b : Bool} {t : OperationRecordStatus} {c : Bool}
    → Moves s b t c
    → ℕ
changes Moves.here = 0
changes (by_table m h) = changes m + 1
changes (to_review m h) = changes m + 1
changes (redriven m) = changes m

pub redrives :
    {s : OperationRecordStatus} {b : Bool} {t : OperationRecordStatus} {c : Bool}
    → Moves s b t c
    → ℕ
redrives Moves.here = 0
redrives (by_table m h) = redrives m
redrives (to_review m h) = redrives m
redrives (redriven m) = redrives m + 1

changes-le-steps_left :
    {s : OperationRecordStatus} {b : Bool} {t : OperationRecordStatus} {c : Bool}
    (m : Moves s b t c)
    → changes m + steps_left t ≤ steps_left s + redrives m
unfolding changes redrives
changes-le-steps_left Moves.here = omega arith
changes-le-steps_left (by_table {t = t} {u = u} m h) =
    omega (arith, changes-le-steps_left m, transition_descends t u h)
changes-le-steps_left (to_review {t = t} m h) =
    omega (arith, changes-le-steps_left m, transition_descends t manual_review h)
changes-le-steps_left (redriven m) = omega (arith, changes-le-steps_left m)

abbrev pub IsTerminal : OperationRecordStatus → Type 0
IsTerminal s = (s ≡ completed) ⊎ (s ≡ rejected) ⊎ (s ≡ cancelled_by_customer)

no_way_out : (s t : OperationRecordStatus) → IsTerminal s → ¬ (transition_allowed s t ≡ true)
unfolding transition_allowed
no_way_out s t h k = ground arith

stays : {s t : OperationRecordStatus} → IsTerminal s → Reaches s t → t ≡ s
stays h here = refl
stays h (next {t = t} {u = u} r k) = absurd (no_way_out t u (rw (stays h r) h) k)

only_from_pending :
    (t : OperationRecordStatus)
    → transition_allowed t cancelled_by_customer ≡ true
    → t ≡ pending_confirmation
unfolding transition_allowed
only_from_pending t h = ground arith

never_pending : (t : OperationRecordStatus) → ¬ (transition_allowed t pending_confirmation ≡ true)
unfolding transition_allowed
never_pending t h = ground arith

pending_is_first :
    {s t : OperationRecordStatus}
    → Reaches s t
    → t ≡ pending_confirmation
    → s ≡ pending_confirmation
pending_is_first here e = e
pending_is_first (next {t = t} {u = u} r h) e = absurd (never_pending t (rw e at h))

steps_left_le : (u : OperationRecordStatus) → steps_left u ≤ 4
steps_left_le u = ground arith

-- Where an operation moves as the repository moves it, by the transition table of the service and by
-- redrives, which the table does not contain, the changes that are in the table are at most four and one
-- more for every redrive.
pub lifecycle_bounded :
    {s : OperationRecordStatus} {b : Bool} {t : OperationRecordStatus} {c : Bool}
    (m : Moves s b t c)
    → changes m ≤ 4 + redrives m
lifecycle_bounded {s} m = omega (arith, changes-le-steps_left m, steps_left_le s)

-- An operation that is completed, rejected or cancelled keeps that status whatever follows.
pub terminal_absorbs : {s t : OperationRecordStatus} → IsTerminal s → Reaches s t → t ≡ s
terminal_absorbs h r = stays h r

-- An operation whose customer has cancelled it was cancelled from the start or was at the start not
-- confirmed: no operation that was queued, submitted or reviewed is ever cancelled by its customer.
pub cancelled_only_unconfirmed :
    {s t : OperationRecordStatus}
    → Reaches s t
    → t ≡ cancelled_by_customer
    → (s ≡ cancelled_by_customer) ⊎ (s ≡ pending_confirmation)
cancelled_only_unconfirmed here e = inl e
cancelled_only_unconfirmed (next {t = w} q h) e =
    inr (pending_is_first q (only_from_pending w (rw e at h)))
