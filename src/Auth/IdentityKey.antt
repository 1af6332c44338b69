-- ===== src/Auth/IdentityKey.antt =====
-- The composite identity key of src/agent/auth/models.py, over texts as lists of code points. What
-- `str.strip` returns is a parameter.
use langgraph_refund_agent.Base.{
  ℕ, suc, ◌+◌, ◌≡◌, ◌↔◌, Bool, true, false, not, ◌||◌, ◌&&◌, List, [], ◌∷◌, ◌++◌, is_empty, Result,
  ok, ◌>>◌, raise_if, ◌==◌, if◌then◌else◌, arith,
}

pub data IdentityField : Type 0 where
  tenant_id user_id : IdentityField

-- The `ValueError`s of the two functions.
pub data IdentityError : Type 0 where
  not_one_separator : IdentityError
  empty_part contains_separator : IdentityField → IdentityError
  reserved_tenant : IdentityError

abbrev Text : Type 0
Text = List ℕ

-- `_IDENTITY_SEPARATOR`
abbrev pub separator : ℕ
separator = b':'

-- `_RESERVED_TENANT_IDS` has the one element "legacy".
-- Equality of texts.
abbrev same_text : Text → Text → Bool
same_text [] [] = true
same_text (a ∷ s) (b ∷ t) = a == b && same_text s t
same_text _ _ = false

abbrev is_reserved : Text → Bool
is_reserved s = same_text s (b'l' ∷ b'e' ∷ b'g' ∷ b'a' ∷ b'c' ∷ b'y' ∷ [])

-- `value.count(":")`
unfoldable pub count_separators : Text → ℕ
count_separators [] = 0
count_separators (c ∷ s) = (if c == separator then 1 else 0) + count_separators s

-- `":" in value`
unfoldable pub has_separator : Text → Bool
has_separator [] = false
has_separator (c ∷ s) = c == separator || has_separator s

-- What stands before the first separator, and what follows it.
unfoldable pub before : Text → Text
before [] = []
before (c ∷ s) = let rest = before s in if c == separator then [] else c ∷ rest

unfoldable pub after : Text → Text
after [] = []
after (c ∷ s) = let rest = after s in if c == separator then s else rest

module _ (strip : Text → Text) where
  abbrev is_tenant : IdentityField → Bool
  is_tenant tenant_id = true
  is_tenant user_id = false

  -- `_validate_identity_part`
  unfoldable pub validate_identity_part : Text → IdentityField → Result IdentityError (Unit {0})
  unfolding has_separator
  validate_identity_part value field =
      raise_if (is_empty (strip value)) (empty_part field)
      >> raise_if (has_separator value) (contains_separator field)
      >> raise_if (is_tenant field && is_reserved (strip value)) reserved_tenant

  -- `encode_identity_key`
  unfoldable pub encode_identity_key : Text → Text → Result IdentityError Text
  unfolding validate_identity_part
  encode_identity_key tenant user =
      validate_identity_part tenant tenant_id
      >> validate_identity_part user user_id
      >> ok (tenant ++ (separator ∷ user))

  -- `decode_identity_key`
  unfoldable pub decode_identity_key : Text → Result IdentityError (Text × Text)
  unfolding validate_identity_part count_separators before after
  decode_identity_key key =
      raise_if (not (count_separators key == 1)) not_one_separator
      >> validate_identity_part (before key) tenant_id
      >> validate_identity_part (after key) user_id
      >> ok (before key, after key)

has_separator_iff : (s : Text) → (has_separator s ≡ false) ↔ (count_separators s ≡ 0)
unfolding has_separator count_separators
has_separator_iff [] = ground arith
has_separator_iff (c ∷ s) = ground (arith, has_separator_iff s)

count-append :
    (s t : Text)
    → count_separators (s ++ (separator ∷ t)) ≡ suc (count_separators s + count_separators t)
unfolding count_separators
count-append [] t = ground arith
count-append (c ∷ s) t = ground (arith, count-append s t)

before-append : (s t : Text) → has_separator s ≡ false → before (s ++ (separator ∷ t)) ≡ s
unfolding before has_separator
before-append [] t h = ground arith
before-append (c ∷ s) t h = ground (arith, before-append s t)

after-append : (s t : Text) → has_separator s ≡ false → after (s ++ (separator ∷ t)) ≡ t
unfolding after has_separator
after-append [] t h = ground arith
after-append (c ∷ s) t h = ground (arith, after-append s t)

rejoined : (s : Text) → count_separators s ≡ 1 → before s ++ (separator ∷ after s) ≡ s
unfolding count_separators before after
rejoined [] h = ground arith
rejoined (c ∷ s) h = ground (arith, rejoined s)

-- Encoding and decoding are inverse, whatever `strip` returns: a tenant and a user have a key exactly
-- when the key is decoded into them.
pub decode-encode_iff :
    (strip : Text → Text) (tenant user key : Text)
    → (encode_identity_key strip tenant user ≡ ok key)
      ↔ (decode_identity_key strip key ≡ ok (tenant, user))
unfolding encode_identity_key decode_identity_key validate_identity_part
decode-encode_iff strip tenant user key = ground (
  arith,
  has_separator_iff tenant,
  has_separator_iff user,
  count-append tenant user,
  before-append tenant user,
  after-append tenant user,
  rejoined key,
)
