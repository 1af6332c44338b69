-- ===== src/Integrations/Callbacks/Convergence.antt =====
-- The decisions on provider callbacks against the operation's own lifecycle, and what a sequence of
-- callbacks in any order comes to.
use langgraph_refund_agent.Base.{
  String, ◌≡◌, ◌≢◌, ◌⊎◌, inl, inr, true, Option, none, some, List, [], ◌∷◌, All, arith, eq_iff,
  is_none, if◌then◌else◌,
}
use langgraph_refund_agent.Operations.Lifecycle.{OperationRecordStatus, transition_allowed}
use langgraph_refund_agent.Integrations.Models.{
  ProviderCommandExecutionStatus, map_provider_command_status,
}
use langgraph_refund_agent.Integrations.Callbacks.{
  InboxAction, OutboxReadiness, ready, retry, apply, duplicate, InboxDecision, reference_compatible,
  decide_callback,
}

decide_callback-total :
    (local : OperationRecordStatus) (p : ProviderCommandExecutionStatus)
    (current incoming : Option String)
    → decide_callback local p current incoming ≢ none
unfolding decide_callback
decide_callback-total local p current incoming = ground arith

-- A callback whose decision is to apply is applied with exactly the status that the provider's maps
-- to, only if the transition table of the operation service allows that change, and only with a
-- provider reference that does not replace another.
pub callback_respects_lifecycle :
    (local : OperationRecordStatus) (p : ProviderCommandExecutionStatus)
    (current incoming : Option String) (d : InboxDecision)
    → decide_callback local p current incoming ≡ some d
    → d.action ≡ apply
    → (d.target_status ≡ some (map_provider_command_status p))
      × (transition_allowed local (map_provider_command_status p) ≡ true)
      × (reference_compatible current incoming ≡ true)
unfolding decide_callback transition_allowed
callback_respects_lifecycle local p current incoming d e a = ground arith

-- A delivery that is repeated after it was applied is recognised as a duplicate, whatever compatible
-- references the two carry: at-least-once delivery applies a callback once.
pub replay_is_duplicate :
    (local : OperationRecordStatus) (p : ProviderCommandExecutionStatus)
    (current incoming current' incoming' : Option String) (d : InboxDecision)
    → decide_callback local p current incoming ≡ some d
    → d.action ≡ apply
    → reference_compatible current' incoming' ≡ true
    → decide_callback (map_provider_command_status p) p current' incoming'
      ≡ some (record { action = duplicate; target_status = some (map_provider_command_status p) })
unfolding decide_callback
replay_is_duplicate local p current incoming current' incoming' d e a c = ground arith

-- What a callback about an operation brings: how the command stands in the outbox, the provider's status,
-- and the provider's reference, or else its identifier of the operation.
pub record Callback : Type 0 where
  pub readiness : OutboxReadiness
  pub status : ProviderCommandExecutionStatus
  pub reference : Option String

-- What callbacks change of an operation.
pub record Standing : Type 0 where
  pub status : OperationRecordStatus
  pub reference : Option String

-- `incoming_reference or operation.provider_reference`
abbrev reference_after : Option String → Option String → Option String
reference_after none current = current
reference_after (some r) current = some r

-- `readiness == "dead" and decision.action != "duplicate"`, and the update that the action makes.
by_action :
    OutboxReadiness
    → InboxAction
    → Option OperationRecordStatus
    → Option String
    → Standing
    → Standing
by_action ready apply (some target) incoming o = record {
  status = target;
  reference = reference_after incoming o.reference;
}
by_action _ duplicate _ incoming o = record o {
  reference = if is_none o.reference then incoming else o.reference;
}
by_action _ _ _ incoming o = o

moved : OutboxReadiness → Option String → Option InboxDecision → Standing → Standing
unfolding by_action
moved readiness incoming none o = o
moved readiness incoming (some d) o = by_action readiness d.action d.target_status incoming o

-- `finalize_order_operation`, for a callback that is associated with the operation.
receive : Standing → Callback → Standing
unfolding moved decide_callback
receive o c = elim c.readiness [
  | retry ↦ o
  | r ↦ moved r c.reference (decide_callback o.status c.status o.reference c.reference) o
]

-- The operation after a sequence of callbacks.
pub receive_all : Standing → List Callback → Standing
unfolding receive
receive_all o [] = o
receive_all o (c ∷ cs) = receive_all (receive o c) cs

abbrev pub RefersTo : String → Option String → Type 0
RefersTo r given = (given ≡ none) ⊎ (given ≡ some r)

-- A callback, for a command that was published, that does not report a rejection and brings the one
-- reference or none.
abbrev pub IsProgress : String → Callback → Type 0
IsProgress r c =
    (c.readiness ≡ ready)
    × (c.status ≢ ProviderCommandExecutionStatus.rejected)
    × RefersTo r c.reference

abbrev pub HasCompleted : List Callback → Type 0
HasCompleted [] = ⊥
HasCompleted (c ∷ cs) = (c.status ≡ ProviderCommandExecutionStatus.completed) ⊎ HasCompleted cs

abbrev pub IsUnderWay : String → Standing → Type 0
IsUnderWay r o =
    ((o.status ≡ OperationRecordStatus.submitted)
      ⊎ (o.status ≡ OperationRecordStatus.processing)
      ⊎ (o.status ≡ OperationRecordStatus.completed))
    × RefersTo r o.reference

receive-IsUnderWay :
    (r : String) (o : Standing) (c : Callback)
    → IsUnderWay r o
    → IsProgress r c
    → IsUnderWay r (receive o c)
unfolding receive moved by_action decide_callback
receive-IsUnderWay r o c u h = ground (arith, eq_iff r r)

receive_completed :
    (r : String) (o : Standing) (c : Callback)
    → IsUnderWay r o
    → IsProgress r c
    → (c.status ≡ ProviderCommandExecutionStatus.completed)
      ⊎ (o.status ≡ OperationRecordStatus.completed)
    → (receive o c).status ≡ OperationRecordStatus.completed
unfolding receive moved by_action decide_callback
receive_completed r o c u h e = ground (arith, eq_iff r r)

stays_completed :
    (r : String) (o : Standing) (cs : List Callback)
    → IsUnderWay r o
    → All (IsProgress r) cs
    → o.status ≡ OperationRecordStatus.completed
    → (receive_all o cs).status ≡ OperationRecordStatus.completed
unfolding receive_all
stays_completed r o [] u h e = e
stays_completed r o (c ∷ cs) u h e =
    stays_completed r (receive o c) cs (receive-IsUnderWay r o c u h.0) h.1
      (receive_completed r o c u h.0 (inr e))

-- However the callbacks of an operation at the provider are ordered and repeated, if its command is
-- published, all of them and the operation bring one reference or none, one of them reports completion
-- and none a rejection, the operation ends up completed.
pub completes_in_any_order :
    (r : String) (o : Standing) (cs : List Callback)
    → IsUnderWay r o
    → All (IsProgress r) cs
    → HasCompleted cs
    → (receive_all o cs).status ≡ OperationRecordStatus.completed
unfolding receive_all
completes_in_any_order r o [] u h c = absurd c
completes_in_any_order r o (c ∷ cs) u h (inl e) =
    stays_completed r (receive o c) cs (receive-IsUnderWay r o c u h.0) h.1
      (receive_completed r o c u h.0 (inl e))
completes_in_any_order r o (c ∷ cs) u h (inr d) =
    completes_in_any_order r (receive o c) cs (receive-IsUnderWay r o c u h.0) h.1 d
