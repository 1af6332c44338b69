-- ===== src/Auth/Tests.antt =====
-- The visibility of cases to concrete callers.
use langgraph_refund_agent.Base.{◌∷◌, [], ◌≡◌, ◌↔◌, refl, true, some, ok}
use langgraph_refund_agent.Auth.{
  supervisor, support_agent, role_permissions, AccessScope, same_permissions, derive_role, CaseRow,
  case_visibility,
}
use langgraph_refund_agent.Auth.Visibility.{IsReadable, visible_iff, derive_role_iff}
use langgraph_refund_agent.Auth.IdentityKey.{
  encode_identity_key, decode_identity_key, decode-encode_iff,
}

abbrev agent_scope : AccessScope
agent_scope = record {
  tenant_id = "t1";
  user_id = "u1";
  role = support_agent;
  permissions = role_permissions support_agent;
}

abbrev supervisor_scope : AccessScope
supervisor_scope = record {
  tenant_id = "t1";
  user_id = "u2";
  role = supervisor;
  permissions = role_permissions supervisor;
}

abbrev assigned_row : CaseRow
assigned_row = record { tenant_id = "t1"; customer_id = "c1"; assigned_agent_id = some "u1" }

supervisor_sees : case_visibility supervisor_scope assigned_row ≡ ok true
supervisor_sees = (visible_iff supervisor_scope assigned_row refl).1 refl

visible_iff_example :
    (case_visibility agent_scope assigned_row ≡ ok true)
    ↔ IsReadable support_agent agent_scope assigned_row
visible_iff_example = visible_iff agent_scope assigned_row refl

derive_role_iff_example :
    (derive_role (role_permissions support_agent) ≡ some support_agent)
    ↔ (same_permissions (role_permissions support_agent) (role_permissions support_agent) ≡ true)
derive_role_iff_example = derive_role_iff (role_permissions support_agent) support_agent

decode-encode_iff_example :
    (encode_identity_key (λ s. s) (b's' ∷ []) (b'a' ∷ b'd' ∷ b'a' ∷ [])
      ≡ ok (b's' ∷ b':' ∷ b'a' ∷ b'd' ∷ b'a' ∷ []))
    ↔ (decode_identity_key (λ s. s) (b's' ∷ b':' ∷ b'a' ∷ b'd' ∷ b'a' ∷ [])
        ≡ ok (b's' ∷ [], b'a' ∷ b'd' ∷ b'a' ∷ []))
decode-encode_iff_example =
    decode-encode_iff (λ s. s) (b's' ∷ []) (b'a' ∷ b'd' ∷ b'a' ∷ [])
      (b's' ∷ b':' ∷ b'a' ∷ b'd' ∷ b'a' ∷ [])

is_encoded : encode_identity_key (λ s. s) (b's' ∷ []) (b'a' ∷ []) ≡ ok (b's' ∷ b':' ∷ b'a' ∷ [])
unfolding encode_identity_key
is_encoded = refl
