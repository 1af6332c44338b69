-- ===== src/Cases/Record/Merge.antt =====
-- A case loses nothing when a trigger is merged into it, and its status changes keep it well formed.
use langgraph_refund_agent.Base.{
  ℕ, suc, ◌≤◌, ◌≡◌, ◌↔◌, ◌⊎◌, ◌≢◌, true, Option, none, some, ok, List, ◌++◌, mem, Distinct,
  mem-append, mem-unique, unique-Distinct, min_from, ◌||◌, arith,
}
use langgraph_refund_agent.Cases.Types.{CaseStatus, SemanticRiskLevel, HandoffReason}
use langgraph_refund_agent.Cases.Reasons.{priority_rank}
use langgraph_refund_agent.Cases.Policy.{HandoffReason-discrete, select_higher_priority}
use langgraph_refund_agent.Cases.Record.{
  OnHoldReason, SupportCase, CaseTrigger, risk_level_rank, select_higher_risk_level, merge_unique,
  append_trigger, same_status, validate_case_status_transition, validate_on_hold_request,
  change_status, allowed_transition,
}

-- The rank of an optional level: none at all is below every level.
abbrev pub level_rank : Option SemanticRiskLevel → ℕ
level_rank none = 0
level_rank (some l) = suc (risk_level_rank l)

merge_unique-mem :
    {A : Type 0} (dec : Discrete A) (a : A) (xs ys : List A)
    → mem dec a (merge_unique dec xs ys) ≡ (mem dec a xs || mem dec a ys)
unfolding merge_unique
merge_unique-mem dec a xs ys = rw (mem-unique dec a (xs ++ ys)) (mem-append dec a xs ys)

merge_unique-Distinct :
    {A : Type 0} (dec : Discrete A) (xs ys : List A) → Distinct dec (merge_unique dec xs ys)
unfolding merge_unique
merge_unique-Distinct dec xs ys = unique-Distinct dec (xs ++ ys)

-- A merged case is at least as urgent and at least as risky as the case and as the trigger.
pub append_never_downgrades :
    (c : SupportCase) (t : CaseTrigger)
    → (priority_rank (append_trigger c t).priority ≤ priority_rank c.priority)
      × (priority_rank (append_trigger c t).priority ≤ priority_rank t.priority)
      × (level_rank c.risk_level ≤ level_rank (append_trigger c t).risk_level)
      × (level_rank t.risk_level ≤ level_rank (append_trigger c t).risk_level)
unfolding append_trigger select_higher_priority select_higher_risk_level priority_rank min_from
append_never_downgrades c t = ground arith

-- Its reasons are those of the case and those of the trigger, each once.
pub append_keeps_reasons :
    (c : SupportCase) (t : CaseTrigger) (r : HandoffReason)
    → ((mem HandoffReason-discrete r (append_trigger c t).reason_codes ≡ true) ↔ (
        (mem HandoffReason-discrete r c.reason_codes ≡ true)
        ⊎ (mem HandoffReason-discrete r t.reason_codes ≡ true)))
      × Distinct HandoffReason-discrete (append_trigger c t).reason_codes
unfolding append_trigger
append_keeps_reasons c t r =
    let m = merge_unique-mem HandoffReason-discrete r c.reason_codes t.reason_codes in
    (ground (arith, m), merge_unique-Distinct HandoffReason-discrete c.reason_codes t.reason_codes)

-- A merged case is at least as urgent and at least as risky as the case and as the trigger, and its
-- reasons are those of the case and those of the trigger, each once.
pub append_merges :
    (c : SupportCase) (t : CaseTrigger) (r : HandoffReason)
    → ((priority_rank (append_trigger c t).priority ≤ priority_rank c.priority)
        × (priority_rank (append_trigger c t).priority ≤ priority_rank t.priority)
        × (level_rank c.risk_level ≤ level_rank (append_trigger c t).risk_level)
        × (level_rank t.risk_level ≤ level_rank (append_trigger c t).risk_level))
      × ((mem HandoffReason-discrete r (append_trigger c t).reason_codes ≡ true) ↔ (
          (mem HandoffReason-discrete r c.reason_codes ≡ true)
          ⊎ (mem HandoffReason-discrete r t.reason_codes ≡ true)))
      × Distinct HandoffReason-discrete (append_trigger c t).reason_codes
append_merges c t r = let k = append_keeps_reasons c t r in (append_never_downgrades c t, k.0, k.1)

-- `validate_lifecycle_fields`: a reason for being on hold is given exactly when the case is on hold.
abbrev pub IsWellFormed : SupportCase → Type 0
IsWellFormed c = (c.status ≡ CaseStatus.on_hold) ↔ (c.on_hold_reason ≢ none)

-- A change of status that is written is one that the table allows from the current status; the case
-- written has the status asked for and the next version, keeps the priority and the reasons, and has a
-- reason for being on hold exactly when it is on hold.
pub change_status-written :
    (c d : SupportCase) (target : CaseStatus) (reason : Option OnHoldReason)
    → change_status c target reason ≡ ok (some d)
    → (allowed_transition c.status target ≡ true)
      × (d.status ≡ target)
      × (d.version ≡ suc c.version)
      × (d.priority ≡ c.priority)
      × (d.reason_codes ≡ c.reason_codes)
      × IsWellFormed d
unfolding change_status validate_case_status_transition validate_on_hold_request same_status
change_status-written c d target reason e = ground arith
