-- ===== src/Cases/Record.antt =====
-- The changes that `CaseService` of src/agent/cases/service.py computes on a stored case: the merge of
-- a new trigger and the change of status. Time stamps, identifiers and the audit events are left out.
pub mod Merge
use langgraph_refund_agent.Base.{
  ℕ, suc, ◌+◌, Bool, true, false, not, ◌&&◌, ◌||◌, Option, none, some, String, str_eq, List, ◌++◌,
  unique, Result, ok, err, ◌>>◌, raise_if, if◌then◌else◌, ltb, is_none, is_some,
}
use langgraph_refund_agent.Operations.Types.{CasePriority}
use langgraph_refund_agent.Cases.Types.{
  CaseType, CaseStatus, SemanticRiskLevel, SemanticRiskCategory, HandoffReason,
}
use langgraph_refund_agent.Cases.Policy.{
  HandoffReason-discrete, SemanticRiskCategory-discrete, select_higher_priority,
  build_display_reason,
}

-- `OnHoldReason`
pub data OnHoldReason : Type 0 where
  waiting_customer waiting_external_system waiting_internal_team : OnHoldReason
  system_unavailable force_majeure other : OnHoldReason

-- `SupportCase`, the fields that the service reads or changes.
pub record SupportCase : Type 0 where
  pub thread_id : String
  pub order_id : Option String
  pub case_type : CaseType
  pub priority : CasePriority
  pub status : CaseStatus
  pub risk_level : Option SemanticRiskLevel
  pub risk_categories : List SemanticRiskCategory
  pub reason_codes : List HandoffReason
  pub display_reason : String
  pub on_hold_reason : Option OnHoldReason
  pub version : ℕ

-- What a trigger and the decision on it bring: `CaseTrigger` and the positive `HandoffDecision`.
pub record CaseTrigger : Type 0 where
  pub order_id : Option String
  pub risk_level : Option SemanticRiskLevel
  pub risk_categories : List SemanticRiskCategory
  pub priority : CasePriority
  pub reason_codes : List HandoffReason

-- `_RISK_LEVEL_RANK`
abbrev pub risk_level_rank : SemanticRiskLevel → ℕ
risk_level_rank SemanticRiskLevel.no_risk = 0
risk_level_rank SemanticRiskLevel.low = 1
risk_level_rank SemanticRiskLevel.medium = 2
risk_level_rank SemanticRiskLevel.high = 3
risk_level_rank SemanticRiskLevel.critical = 4

-- `_select_higher_risk_level`
unfoldable pub select_higher_risk_level :
    Option SemanticRiskLevel → Option SemanticRiskLevel → Option SemanticRiskLevel
select_higher_risk_level none incoming = incoming
select_higher_risk_level (some current) none = some current
select_higher_risk_level (some current) (some incoming) =
    if ltb (risk_level_rank current) (risk_level_rank incoming) then some incoming else some current

-- `_merge_unique`
unfoldable pub merge_unique {ℓ} : {A : Type ℓ} → Discrete A → List A → List A → List A
merge_unique dec current incoming = unique dec (current ++ incoming)

-- `existing.order_id or trigger.order_id`
abbrev pub first_given : Option String → Option String → Option String
first_given none second = second
first_given (some s) second = if str_eq s "" then second else some s

-- `_append_trigger`, the updated case.
unfoldable pub append_trigger : SupportCase → CaseTrigger → SupportCase
append_trigger existing trigger =
    let reasons = merge_unique HandoffReason-discrete existing.reason_codes trigger.reason_codes in
    record existing {
      order_id = first_given existing.order_id trigger.order_id;
      priority = select_higher_priority existing.priority trigger.priority;
      risk_level = select_higher_risk_level existing.risk_level trigger.risk_level;
      risk_categories =
          merge_unique SemanticRiskCategory-discrete existing.risk_categories
            trigger.risk_categories;
      reason_codes = reasons;
      display_reason = build_display_reason reasons;
      version = suc existing.version;
    }

-- `_ALLOWED_STATUS_TRANSITIONS`
abbrev pub allowed_transition : CaseStatus → CaseStatus → Bool
allowed_transition CaseStatus.opened CaseStatus.in_progress = true
allowed_transition CaseStatus.in_progress CaseStatus.on_hold = true
allowed_transition CaseStatus.in_progress CaseStatus.resolved = true
allowed_transition CaseStatus.on_hold CaseStatus.in_progress = true
allowed_transition CaseStatus.on_hold CaseStatus.resolved = true
allowed_transition CaseStatus.resolved CaseStatus.opened = true
allowed_transition _ _ = false

pub CaseStatus-discrete : Discrete CaseStatus
CaseStatus-discrete = hlevel

-- `current_status == target_status`
unfoldable pub same_status : CaseStatus → CaseStatus → Bool
same_status s t = elim (CaseStatus-discrete s t) [ yes _ ↦ true | no _ ↦ false ]

pub data CaseError : Type 0 where
  invalid_status_transition : CaseError
  on_hold_reason_required on_hold_reason_not_allowed : CaseError

-- `validate_case_status_transition`
unfoldable pub validate_case_status_transition :
    CaseStatus → CaseStatus → Result CaseError (Unit {0})
validate_case_status_transition current target =
    if same_status current target
    then ok tt
    else raise_if (not (allowed_transition current target)) invalid_status_transition

-- `target_status == "on_hold"`
abbrev is_on_hold : CaseStatus → Bool
is_on_hold CaseStatus.on_hold = true
is_on_hold _ = false

-- `_validate_on_hold_request`
unfoldable pub validate_on_hold_request :
    CaseStatus → Option OnHoldReason → Result CaseError (Unit {0})
validate_on_hold_request target on_hold_reason =
    raise_if (is_on_hold target && is_none on_hold_reason) on_hold_reason_required
    >> raise_if (not (is_on_hold target) && is_some on_hold_reason) on_hold_reason_not_allowed

-- `change_status`, one attempt on the current case by a caller who may update it: the case to write,
-- or none where the status is unchanged.
unfoldable pub change_status :
    SupportCase → CaseStatus → Option OnHoldReason → Result CaseError (Option SupportCase)
change_status current target on_hold_reason =
    validate_case_status_transition current.status target
    >> (if same_status current.status target
        then ok none
        else validate_on_hold_request target on_hold_reason
          >> ok (
              some (record current {
                status = target;
                on_hold_reason = on_hold_reason;
                version = suc current.version;
              })))

-- `_UNRESOLVED_STATUSES`
abbrev pub is_unresolved : CaseStatus → Bool
is_unresolved CaseStatus.resolved = false
is_unresolved _ = true

pub CaseType-discrete : Discrete CaseType
CaseType-discrete = hlevel

-- `should_append_to_existing_case`
unfoldable pub should_append_to_existing_case : SupportCase → String → CaseType → Bool
should_append_to_existing_case existing incoming_thread_id incoming_case_type =
    str_eq existing.thread_id incoming_thread_id
    && (elim (CaseType-discrete existing.case_type incoming_case_type) [
      | yes _ ↦ true
      | no _ ↦ false
    ])
    && is_unresolved existing.status
