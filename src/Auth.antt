-- ===== src/Auth.antt =====
-- Roles, permissions and the visibility of support cases (src/agent/auth/rbac.py, models.py and
-- visibility.py). A set of permissions is a list, read as a set; the SQL predicate is what it selects.
pub mod Visibility
pub mod IdentityKey
mod Tests
use langgraph_refund_agent.Base.{
  Bool, true, false, ◌&&◌, ◌||◌, Option, none, some, String, str_eq, List, [], ◌∷◌, mem, any, all,
  Result, ok, err, if◌then◌else◌,
}

pub data Role : Type 0 where
  customer support_agent supervisor : Role

pub data Permission : Type 0 where
  orders_read_own orders_operate_own cases_read_own cases_read_assigned cases_read_all : Permission
  cases_update_assigned cases_update_all cases_assign : Permission
  provider_ops_read provider_ops_redrive : Permission

pub Permission-discrete : Discrete Permission
Permission-discrete = hlevel

abbrev pub all_permissions : List Permission
all_permissions =
    orders_read_own ∷ orders_operate_own ∷ cases_read_own ∷ cases_read_assigned ∷ cases_read_all
    ∷ cases_update_assigned ∷ cases_update_all ∷ cases_assign ∷ provider_ops_read
    ∷ provider_ops_redrive ∷ []

-- `role_permissions`, and the table `ROLE_PERMISSIONS`.
abbrev pub role_permissions : Role → List Permission
role_permissions customer = orders_read_own ∷ orders_operate_own ∷ cases_read_own ∷ []
role_permissions support_agent = cases_read_assigned ∷ cases_update_assigned ∷ []
role_permissions supervisor =
    cases_read_own ∷ cases_read_assigned ∷ cases_read_all ∷ cases_update_assigned ∷ cases_update_all
    ∷ cases_assign ∷ provider_ops_read ∷ provider_ops_redrive ∷ []

-- `AccessScope`
pub record AccessScope : Type 0 where
  pub tenant_id : String
  pub user_id : String
  pub role : Role
  pub permissions : List Permission

-- `permission in permissions`
unfoldable pub has : List Permission → Permission → Bool
has permissions p = mem Permission-discrete p permissions

-- `has_permission`
unfoldable pub has_permission : AccessScope → Permission → Bool
has_permission scope p = has scope.permissions p

-- `has_any_permission`
unfoldable pub has_any_permission : AccessScope → List Permission → Bool
has_any_permission scope ps = any (λ p. has scope.permissions p) ps

abbrev is_supervisor : Role → Bool
is_supervisor supervisor = true
is_supervisor _ = false

-- `has_provider_operations_permission`
unfoldable pub has_provider_operations_permission : AccessScope → Permission → Bool
has_provider_operations_permission scope p = is_supervisor scope.role && has scope.permissions p

-- Equality of Booleans, and of sets of permissions.
abbrev pub agree : Bool → Bool → Bool
agree true b = b
agree false true = false
agree false false = true

unfoldable pub same_permissions : List Permission → List Permission → Bool
same_permissions ps qs = all (λ p. agree (has ps p) (has qs p)) all_permissions

-- `derive_role`; none stands for the `ValueError`.
unfoldable pub derive_role : List Permission → Option Role
derive_role ps =
    if same_permissions ps (role_permissions customer)
    then some customer
    else if same_permissions ps (role_permissions support_agent)
    then some support_agent
    else if same_permissions ps (role_permissions supervisor)
    then some supervisor
    else none

-- `customer_id`
abbrev pub customer_id : AccessScope → Option String
customer_id scope = elim scope.role [ customer ↦ some scope.user_id | _ ↦ none ]

-- The columns of a stored case that the predicates test.
pub record CaseRow : Type 0 where
  pub tenant_id : String
  pub customer_id : String
  pub assigned_agent_id : Option String

pub data ForbiddenError : Type 0 where
  own_case_requires_customer cannot_read_cases only_customers : ForbiddenError

-- `column = value`, false on a null column.
abbrev pub column_is : Option String → String → Bool
column_is none value = false
column_is (some s) value = str_eq s value

-- `case_visibility`: whether the predicate selects a row.
unfoldable pub case_visibility : AccessScope → CaseRow → Result ForbiddenError Bool
case_visibility scope row =
    if has scope.permissions cases_read_all
    then ok (str_eq row.tenant_id scope.tenant_id)
    else if has scope.permissions cases_read_assigned
    then ok (str_eq row.tenant_id scope.tenant_id && column_is row.assigned_agent_id scope.user_id)
    else if has scope.permissions cases_read_own
    then elim (customer_id scope) [
      | none ↦ err own_case_requires_customer
      | some c ↦ ok (str_eq row.tenant_id scope.tenant_id && str_eq row.customer_id c)
    ]
    else err cannot_read_cases

-- `customer_owned_visibility`: whether the predicate selects a row.
unfoldable pub customer_owned_visibility : AccessScope → CaseRow → Result ForbiddenError Bool
customer_owned_visibility scope row = elim (customer_id scope) [
  | none ↦ err only_customers
  | some c ↦ ok (str_eq row.tenant_id scope.tenant_id && str_eq row.customer_id c)
]
