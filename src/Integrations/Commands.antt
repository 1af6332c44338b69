-- ===== src/Integrations/Commands.antt =====
-- The envelope of a provider command (src/agent/integrations/models.py).
use langgraph_refund_agent.Base.{
  ℕ, String, str_eq, str_append, Bool, true, false, ◌&&◌, Option, none, some, leb, is_none,
  if◌then◌else◌,
}
use langgraph_refund_agent.Operations.Types.{OperationType, OperationReason, DeliveryIssueType}
use langgraph_refund_agent.Operations.Record.{
  Texts, OrderOperation, nonempty, nonempty_if_present, strip_option,
}

pub data ProviderAggregateType : Type 0 where
  order_operation support_case : ProviderAggregateType

pub data ProviderCommandType : Type 0 where
  cancel_order return_order exchange_order delivery_investigation : ProviderCommandType

pub record OrderOperationCommandPayload : Type 0 where
  pub order_id : String
  pub operation_type : OperationType
  pub reason : OperationReason
  pub replacement_variant_id : Option String

pub record DeliveryInvestigationCommandPayload : Type 0 where
  pub order_id : String
  pub issue_type : DeliveryIssueType

pub data ProviderCommandPayload : Type 0 where
  order_payload : OrderOperationCommandPayload → ProviderCommandPayload
  delivery_payload : DeliveryInvestigationCommandPayload → ProviderCommandPayload

pub record ProviderCommandEnvelope : Type 0 where
  pub command_id : String
  pub idempotency_key : String
  pub source_message_id : String
  pub aggregate_type : ProviderAggregateType
  pub aggregate_id : String
  pub expected_order_version : Option ℕ
  pub tenant_id : String
  pub customer_id : String
  pub connection_id : String
  pub command_type : ProviderCommandType
  pub payload : ProviderCommandPayload
  pub created_at : ℕ

-- `_COMMAND_TYPE_BY_OPERATION`
abbrev pub command_type_of : OperationType → ProviderCommandType
command_type_of OperationType.cancellation = cancel_order
command_type_of OperationType.return = return_order
command_type_of OperationType.exchange = exchange_order

-- `payload.operation_type == _OPERATION_TYPE_BY_COMMAND[command_type]`
abbrev is_operation_type_of : ProviderCommandType → OperationType → Bool
is_operation_type_of cancel_order OperationType.cancellation = true
is_operation_type_of return_order OperationType.return = true
is_operation_type_of exchange_order OperationType.exchange = true
is_operation_type_of _ _ = false

abbrev pub is_order_operation : ProviderAggregateType → Bool
is_order_operation order_operation = true
is_order_operation support_case = false

-- `ge=1` of an order version that may be missing.
abbrev positive_if_present : Option ℕ → Bool
positive_if_present none = true
positive_if_present (some n) = leb 1 n

delivery_command_valid : ProviderCommandEnvelope → Bool
delivery_command_valid c = elim c.aggregate_type [
  | order_operation ↦ false
  | support_case ↦ is_none c.expected_order_version && (elim c.payload [
    | order_payload p ↦ false
    | delivery_payload p ↦
        str_eq c.idempotency_key (str_append "delivery-investigation:" c.aggregate_id)
  ])
]

order_command_valid : ProviderCommandEnvelope → Bool
order_command_valid c = is_order_operation c.aggregate_type && (elim c.expected_order_version [
  | none ↦ false
  | some v ↦ elim c.payload [
    | order_payload p ↦
        is_operation_type_of c.command_type p.operation_type
        && str_eq c.idempotency_key (str_append "order-operation:" c.aggregate_id)
    | delivery_payload p ↦ false
  ]
])

-- `validate_payload_type`: false where it raises.
unfoldable pub payload_type_valid : ProviderCommandEnvelope → Bool
unfolding delivery_command_valid order_command_valid
payload_type_valid c = elim c.command_type [
  | delivery_investigation ↦ delivery_command_valid c
  | _ ↦ order_command_valid c
]

-- The constraints on the fields of the payload.
payload_valid : Texts → ProviderCommandPayload → Bool
payload_valid texts (order_payload p) =
    texts.is_order_id p.order_id && nonempty_if_present p.replacement_variant_id
payload_valid texts (delivery_payload p) = texts.is_order_id p.order_id

strip_payload : Texts → ProviderCommandPayload → ProviderCommandPayload
strip_payload texts (order_payload p) = order_payload record p {
  order_id = texts.strip p.order_id;
  replacement_variant_id = strip_option texts p.replacement_variant_id;
}
strip_payload texts (delivery_payload p) =
    delivery_payload record p { order_id = texts.strip p.order_id }

-- `str_strip_whitespace=True`
strip_command : Texts → ProviderCommandEnvelope → ProviderCommandEnvelope
unfolding strip_payload
strip_command texts c = record c {
  idempotency_key = texts.strip c.idempotency_key;
  source_message_id = texts.strip c.source_message_id;
  tenant_id = texts.strip c.tenant_id;
  customer_id = texts.strip c.customer_id;
  connection_id = texts.strip c.connection_id;
  payload = strip_payload texts c.payload;
}

command_valid : Texts → ProviderCommandEnvelope → Bool
unfolding payload_type_valid payload_valid
command_valid texts c =
    nonempty c.idempotency_key
    && nonempty c.source_message_id
    && positive_if_present c.expected_order_version
    && nonempty c.tenant_id
    && nonempty c.customer_id
    && nonempty c.connection_id
    && payload_valid texts c.payload
    && payload_type_valid c

-- `ProviderCommandEnvelope.model_validate`; none stands for the `ValidationError`.
unfoldable pub validate_command : Texts → ProviderCommandEnvelope → Option ProviderCommandEnvelope
unfolding strip_command command_valid
validate_command texts c =
    let stripped = strip_command texts c in
    if command_valid texts stripped then some stripped else none

-- The arguments with which `for_order_operation` calls the constructor.
unfoldable pub order_operation_command :
    OrderOperation → String → String → ℕ → ProviderCommandEnvelope
order_operation_command o connection_id command_id created_at = record {
  command_id = command_id;
  idempotency_key = str_append "order-operation:" o.operation_id;
  source_message_id = o.source_message_id;
  aggregate_type = order_operation;
  aggregate_id = o.operation_id;
  expected_order_version = some o.order_version;
  tenant_id = o.tenant_id;
  customer_id = o.customer_id;
  connection_id = connection_id;
  command_type = command_type_of o.operation_type;
  payload = order_payload record {
    order_id = o.order_id;
    operation_type = o.operation_type;
    reason = o.request_reason_code;
    replacement_variant_id = o.replacement_variant_id;
  };
  created_at = created_at;
}

-- `for_order_operation`; none stands for the `ValidationError`.
unfoldable pub for_order_operation :
    Texts → OrderOperation → String → String → ℕ → Option ProviderCommandEnvelope
unfolding order_operation_command validate_command
for_order_operation texts o connection_id command_id created_at =
    validate_command texts (order_operation_command o connection_id command_id created_at)
