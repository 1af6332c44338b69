-- ===== src/Auth/Visibility.antt =====
-- What the canonical role of a caller lets it read, and that a role is derived from its permissions.
use langgraph_refund_agent.Base.{
  ◌≡◌, ◌↔◌, ◌⊎◌, true, Option, none, some, String, eq_iff, List, mem, all-mem, ok, arith,
}
use langgraph_refund_agent.Auth.{
  Role, customer, support_agent, supervisor, Permission, Permission-discrete, all_permissions,
  agree, orders_read_own, cases_assign, role_permissions, AccessScope, has, same_permissions,
  derive_role, CaseRow, column_is, case_visibility, customer_owned_visibility,
}

-- Which rows a role may read: a supervisor those of the tenant, an agent those assigned to it, and a
-- customer its own.
abbrev pub IsReadable : Role → AccessScope → CaseRow → Type 0
IsReadable supervisor scope row = row.tenant_id ≡ scope.tenant_id
IsReadable support_agent scope row =
    (row.tenant_id ≡ scope.tenant_id) × (row.assigned_agent_id ≡ some scope.user_id)
IsReadable customer scope row =
    (row.tenant_id ≡ scope.tenant_id) × (row.customer_id ≡ scope.user_id)

column_is_iff : (o : Option String) (v : String) → (column_is o v ≡ true) ↔ (o ≡ some v)
column_is_iff none v = ground arith
column_is_iff (some s) v = ground (arith, eq_iff s v)

-- A caller with the permissions of its role reads exactly the cases that the role may read: a
-- supervisor those of the tenant, an agent those of the tenant assigned to it, and a customer its own
-- in the tenant.
pub visible_iff :
    (scope : AccessScope) (row : CaseRow)
    → scope.permissions ≡ role_permissions scope.role
    → (case_visibility scope row ≡ ok true) ↔ IsReadable scope.role scope row
unfolding case_visibility has mem
visible_iff scope row h = ground (
  arith,
  eq_iff row.tenant_id scope.tenant_id,
  eq_iff row.customer_id scope.user_id,
  column_is_iff row.assigned_agent_id scope.user_id,
)

-- A row that any caller sees, whatever its permissions, belongs to the caller's tenant.
pub visible_same_tenant :
    (scope : AccessScope) (row : CaseRow)
    → (case_visibility scope row ≡ ok true) ⊎ (customer_owned_visibility scope row ≡ ok true)
    → row.tenant_id ≡ scope.tenant_id
unfolding case_visibility customer_owned_visibility
visible_same_tenant scope row h = ground (arith, eq_iff row.tenant_id scope.tenant_id)

is_permission : (p : Permission) → mem Permission-discrete p all_permissions ≡ true
unfolding mem
is_permission p = ground arith

same_permissions-has :
    (ps qs : List Permission) (p : Permission) → same_permissions ps qs ≡ true → has ps p ≡ has qs p
unfolding same_permissions
same_permissions-has ps qs p h =
    let agreed =
      all-mem Permission-discrete (λ q. agree (has ps q) (has qs q)) p all_permissions h
        (is_permission p) in
    ground (arith, agreed)

orders_read_own_iff :
    (r : Role) → (has (role_permissions r) orders_read_own ≡ true) ↔ (r ≡ customer)
unfolding has mem
orders_read_own_iff r = ground arith

cases_assign_iff : (r : Role) → (has (role_permissions r) cases_assign ≡ true) ↔ (r ≡ supervisor)
unfolding has mem
cases_assign_iff r = ground arith

same_role :
    (ps : List Permission) (r q : Role)
    → same_permissions ps (role_permissions r) ≡ true
    → same_permissions ps (role_permissions q) ≡ true
    → r ≡ q
same_role ps r q h k = ground (
  arith,
  same_permissions-has ps (role_permissions r) orders_read_own h,
  same_permissions-has ps (role_permissions q) orders_read_own k,
  same_permissions-has ps (role_permissions r) cases_assign h,
  same_permissions-has ps (role_permissions q) cases_assign k,
  orders_read_own_iff r,
  orders_read_own_iff q,
  cases_assign_iff r,
  cases_assign_iff q,
)

-- A role is derived from a set of permissions exactly when the set is that role's.
pub derive_role_iff :
    (ps : List Permission) (r : Role)
    → (derive_role ps ≡ some r) ↔ (same_permissions ps (role_permissions r) ≡ true)
unfolding derive_role
derive_role_iff ps r =
    ground (arith, same_role ps r customer, same_role ps r support_agent, same_role ps r supervisor)
