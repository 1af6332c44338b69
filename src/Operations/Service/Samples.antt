-- ===== src/Operations/Service/Samples.antt =====
-- Concrete environments, callers and databases for the tests of `OperationService`
-- (src/agent/operations/service.py) and of what calls it.
use langgraph_refund_agent.Base.{
  ℕ, zero, suc, true, false, none, some, [], ◌∷◌, ok, str_append, String,
}
use langgraph_refund_agent.Operations.Types.{
  OperationType, OperationReason, CasePriority, RecommendedCaseType, OperationStatus,
  ExistingOperationType,
}
use langgraph_refund_agent.Operations.Lifecycle.{pending_confirmation}
use langgraph_refund_agent.Operations.Record.{OrderOperation}
use langgraph_refund_agent.Operations.Repository.Tables.{Database}
use langgraph_refund_agent.Operations.Service.World.{Environment, World}
use langgraph_refund_agent.Operations.Service.History.{Evolves, IsMoved, Evolves-refl}
use langgraph_refund_agent.Auth.{AccessScope, customer}

abbrev pub name_of : ℕ → String
name_of zero = "a"
name_of (suc n) = str_append "b" (name_of n)

-- Nobody else writes, and the order system accepts.
abbrev pub alone_env : Environment
alone_env = record {
  texts = record {
    strip = λ s. s;
    len = λ s. 20;
    is_order_id = λ s. true;
    is_currency = λ s. true;
  };
  clock = λ n. n;
  id_factory = name_of;
  others = λ n d. d;
  available = λ n. true;
  provider = λ n s. ok record {
    operation_id = "P-1";
    operation_type = ExistingOperationType.cancellation;
    status = OperationStatus.submitted;
    provider_reference = none;
  };
  max_write_attempts = 3;
}

abbrev pub alone :
    (n : ℕ) (d : Database) → Evolves IsMoved d.operations (alone_env.others n d).operations
alone n d = Evolves-refl d.operations

abbrev pub customer_scope : AccessScope
customer_scope = record { tenant_id = "shop"; user_id = "ada"; role = customer; permissions = [] }

abbrev pub pending : OrderOperation
pending = record {
  operation_id = "op-1";
  idempotency_key = "operation:t:m:created";
  thread_id = "t";
  source_message_id = "m";
  order_id = "ORD-10001";
  operation_type = OperationType.cancellation;
  request_reason_code = OperationReason.no_longer_needed;
  policy_reason_codes = "eligible_for_cancellation" ∷ [];
  display_reason = "The order can be cancelled.";
  replacement_variant_id = none;
  request_excerpt = "Please cancel it.";
  order_version = 1;
  amount = 2500;
  currency = "USD";
  requires_manual_review = false;
  review_case_type = none;
  review_priority = none;
  support_case_id = none;
  provider_reference = none;
  status = pending_confirmation;
  created_at = 0;
  updated_at = 0;
  version = 1;
  customer_id = "ada";
  tenant_id = "shop";
  created_by = "shop:ada";
}

abbrev pub reviewed : OrderOperation
reviewed = record pending {
  requires_manual_review = true;
  review_case_type = some RecommendedCaseType.order_operation_review;
  review_priority = some CasePriority.p2;
}

abbrev pub holding : OrderOperation → World
holding o = record {
  database = record {
    operations = o ∷ [];
    events = [];
    commands = [];
    support_case_ids = "case-1" ∷ [];
  };
  calls = 0;
  clock_reads = 0;
  ids_drawn = 0;
  submissions = [];
}
