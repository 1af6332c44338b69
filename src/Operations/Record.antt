-- ===== src/Operations/Record.antt =====
-- The persisted order operation, its events, and the provider command derived from it
-- (src/agent/operations/models.py and src/agent/integrations/models.py). A UUID is its text.
use langgraph_refund_agent.Base.{
  ℕ, String, str_eq, Bool, true, false, not, ◌&&◌, ◌||◌, Option, none, some, List, map, is_none,
  is_some, is_empty, ltb, leb, if◌then◌else◌,
}
use langgraph_refund_agent.Operations.Types.{
  OperationType, OperationReason, RecommendedCaseType, CasePriority, OrderOperationRequest,
  request_fields_valid,
}
use langgraph_refund_agent.Operations.Lifecycle.{OperationRecordStatus}

-- What the validators use of Python, its `re` and pydantic: `str.strip`, the number of characters,
-- and the patterns of an order's identifier and of a currency.
pub record Texts : Type 0 where
  pub strip : String → String
  pub len : String → ℕ
  pub is_order_id : String → Bool
  pub is_currency : String → Bool

pub record OrderOperation : Type 0 where
  pub operation_id : String
  pub idempotency_key : String
  pub thread_id : String
  pub source_message_id : String
  pub order_id : String
  pub operation_type : OperationType
  pub request_reason_code : OperationReason
  pub policy_reason_codes : List String
  pub display_reason : String
  pub replacement_variant_id : Option String
  pub request_excerpt : String
  pub order_version : ℕ
  pub amount : ℕ
  pub currency : String
  pub requires_manual_review : Bool
  pub review_case_type : Option RecommendedCaseType
  pub review_priority : Option CasePriority
  pub support_case_id : Option String
  pub provider_reference : Option String
  pub status : OperationRecordStatus
  pub created_at : ℕ
  pub updated_at : ℕ
  pub version : ℕ
  pub customer_id : String
  pub tenant_id : String
  pub created_by : String

pub data OperationEventType : Type 0 where
  operation_created confirmation_recorded status_changed support_case_attached : OperationEventType

pub record OrderOperationEvent : Type 0 where
  pub event_id : String
  pub idempotency_key : String
  pub operation_id : String
  pub event_type : OperationEventType
  pub previous_status : Option OperationRecordStatus
  pub current_status : Option OperationRecordStatus
  pub provider_reference : Option String
  pub support_case_id : Option String
  pub actor : String
  pub customer_id : String
  pub tenant_id : String
  pub created_at : ℕ

pub data OperationServiceAction : Type 0 where
  created duplicate_ignored confirmed queued submitted cancelled : OperationServiceAction
  status_changed status_unchanged support_case_attached : OperationServiceAction

pub record OperationServiceResult : Type 0 where
  pub action : OperationServiceAction
  pub operation : OrderOperation
  pub events : List OrderOperationEvent

-- `min_length=1`
abbrev pub nonempty : String → Bool
nonempty s = not (str_eq s "")

-- `min_length=1` of a field that may be missing.
abbrev pub nonempty_if_present : Option String → Bool
nonempty_if_present none = true
nonempty_if_present (some s) = nonempty s

abbrev pub strip_option : Texts → Option String → Option String
strip_option texts none = none
strip_option texts (some s) = some (texts.strip s)

abbrev is_order_operation_review : Option RecommendedCaseType → Bool
is_order_operation_review (some RecommendedCaseType.order_operation_review) = true
is_order_operation_review _ = false

abbrev is_p1_or_p2 : Option CasePriority → Bool
is_p1_or_p2 (some CasePriority.p1) = true
is_p1_or_p2 (some CasePriority.p2) = true
is_p1_or_p2 _ = false

-- The request that `validate_persisted_operation` and the submission build from an operation.
abbrev pub request_of : OrderOperation → OrderOperationRequest
request_of o = record {
  thread_id = o.thread_id;
  source_message_id = o.source_message_id;
  order_id = o.order_id;
  operation_type = o.operation_type;
  reason = o.request_reason_code;
  replacement_variant_id = o.replacement_variant_id;
  customer_id = o.customer_id;
  tenant_id = o.tenant_id;
}

-- `validate_persisted_operation`, after the request it builds: false where it raises.
unfoldable pub review_fields_valid : OrderOperation → Bool
review_fields_valid o =
    (if o.requires_manual_review
      then is_order_operation_review o.review_case_type && is_p1_or_p2 o.review_priority
      else is_none o.review_case_type && is_none o.review_priority)
    && (is_none o.support_case_id || o.requires_manual_review)
    && leb o.created_at o.updated_at

-- `OrderOperationRequest`, of fields that are already stripped.
unfoldable pub request_valid : Texts → OrderOperationRequest → Bool
unfolding request_fields_valid
request_valid texts r =
    nonempty r.thread_id
    && nonempty r.source_message_id
    && texts.is_order_id r.order_id
    && nonempty_if_present r.replacement_variant_id
    && nonempty r.customer_id
    && nonempty r.tenant_id
    && request_fields_valid r.operation_type r.reason r.replacement_variant_id

-- `OrderOperation`: the fields' constraints and `validate_persisted_operation`.
unfoldable pub operation_valid : Texts → OrderOperation → Bool
unfolding review_fields_valid request_valid
operation_valid texts o =
    nonempty o.idempotency_key
    && not (is_empty o.policy_reason_codes)
    && nonempty o.display_reason
    && nonempty o.request_excerpt
    && leb (texts.len o.request_excerpt) 500
    && leb 1 o.order_version
    && ltb o.amount 1000000000000
    && texts.is_currency o.currency
    && nonempty_if_present o.provider_reference
    && leb 1 o.version
    && nonempty o.created_by
    && request_valid texts (request_of o)
    && review_fields_valid o

-- `str_strip_whitespace=True`
abbrev pub strip_operation : Texts → OrderOperation → OrderOperation
strip_operation texts o = record o {
  idempotency_key = texts.strip o.idempotency_key;
  thread_id = texts.strip o.thread_id;
  source_message_id = texts.strip o.source_message_id;
  order_id = texts.strip o.order_id;
  policy_reason_codes = map texts.strip o.policy_reason_codes;
  display_reason = texts.strip o.display_reason;
  replacement_variant_id = strip_option texts o.replacement_variant_id;
  request_excerpt = texts.strip o.request_excerpt;
  currency = texts.strip o.currency;
  provider_reference = strip_option texts o.provider_reference;
  customer_id = texts.strip o.customer_id;
  tenant_id = texts.strip o.tenant_id;
  created_by = texts.strip o.created_by;
}

-- `OrderOperation.model_validate`; none stands for the `ValidationError`.
unfoldable pub validate_operation : Texts → OrderOperation → Option OrderOperation
validate_operation texts o =
    let stripped = strip_operation texts o in
    if operation_valid texts stripped then some stripped else none

abbrev is_status_changed : OperationEventType → Bool
is_status_changed OperationEventType.status_changed = true
is_status_changed _ = false

abbrev is_support_case_attached : OperationEventType → Bool
is_support_case_attached OperationEventType.support_case_attached = true
is_support_case_attached _ = false

-- `validate_event_shape`: false where it raises.
unfoldable pub event_shape_valid : OrderOperationEvent → Bool
event_shape_valid e =
    (if is_status_changed e.event_type
      then is_some e.previous_status && is_some e.current_status
      else is_none e.previous_status && is_none e.current_status)
    && (not (is_support_case_attached e.event_type) || is_some e.support_case_id)

-- `OrderOperationEvent`: the fields' constraints and `validate_event_shape`.
unfoldable pub event_valid : OrderOperationEvent → Bool
unfolding event_shape_valid
event_valid e =
    nonempty e.idempotency_key
    && nonempty_if_present e.provider_reference
    && nonempty e.actor
    && nonempty e.customer_id
    && nonempty e.tenant_id
    && event_shape_valid e

abbrev pub strip_event : Texts → OrderOperationEvent → OrderOperationEvent
strip_event texts e = record e {
  idempotency_key = texts.strip e.idempotency_key;
  provider_reference = strip_option texts e.provider_reference;
  actor = texts.strip e.actor;
  customer_id = texts.strip e.customer_id;
  tenant_id = texts.strip e.tenant_id;
}

-- `OrderOperationEvent(...)`; none stands for the `ValidationError`.
unfoldable pub validate_event : Texts → OrderOperationEvent → Option OrderOperationEvent
validate_event texts e =
    let stripped = strip_event texts e in if event_valid stripped then some stripped else none
