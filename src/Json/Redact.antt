-- ===== src/Json/Redact.antt =====
-- `redact_sensitive` of src/odoo_mcp/storage/json_support.py and `strip_denied_fields` of
-- src/odoo_mcp/adapters/odoo/policy.py. Case folding goes by the Unicode tables, so it is a parameter.
pub mod Laws
pub mod Strip
use odoo_mcp.Prelude.{
  String, Bool, true, false, Option, none, some, List, [], ◌∷◌, ◌≡◌, refl, Bool-cases, inl, inr,
  arith, any_of, is_infix, text_in, if◌then◌else◌,
}
use odoo_mcp.Json.Values.{
  Json, null, bool, num, str, arr, obj, Items, nil, cons, Dict, empty, entry, get, has_key,
}

abbrev sensitive_parts : List String
sensitive_parts =
    "api_key" ∷ "apikey" ∷ "authorization" ∷ "credential" ∷ "password" ∷ "private_key" ∷ "secret"
    ∷ "token" ∷ []

abbrev field_denylist : List String
field_denylist =
    "password" ∷ "password_crypt" ∷ "api_key" ∷ "bank_account_number" ∷ "acc_number" ∷ []

module _ (casefold : String → String) where
  unfoldable pub is_sensitive : String → Bool
  unfolding is_infix
  is_sensitive key = any_of (λ part. is_infix part (casefold key)) sensitive_parts

  unfoldable pub is_denied : String → Bool
  is_denied key = text_in (casefold key) field_denylist

  unfoldable mutual
    pub redact_sensitive : Json → Json
    redact_sensitive null = null
    redact_sensitive (bool b) = bool b
    redact_sensitive (num n) = num n
    redact_sensitive (str s) = str s
    redact_sensitive (arr xs) = arr (redact_items xs)
    redact_sensitive (obj d) = obj (redact_dict d)

    pub redact_items : Items → Items
    redact_items nil = nil
    redact_items (cons x xs) = cons (redact_sensitive x) (redact_items xs)

    pub redact_dict : Dict → Dict
    redact_dict empty = empty
    redact_dict (entry k v d) =
        entry k (if is_sensitive k then str "[REDACTED]" else redact_sensitive v) (redact_dict d)

  unfoldable mutual
    pub strip_denied_fields : Json → Json
    strip_denied_fields null = null
    strip_denied_fields (bool b) = bool b
    strip_denied_fields (num n) = num n
    strip_denied_fields (str s) = str s
    strip_denied_fields (arr xs) = arr (strip_items xs)
    strip_denied_fields (obj d) = obj (strip_dict d)

    pub strip_items : Items → Items
    strip_items nil = nil
    strip_items (cons x xs) = cons (strip_denied_fields x) (strip_items xs)

    pub strip_dict : Dict → Dict
    strip_dict empty = empty
    strip_dict (entry k v d) =
        if is_denied k then strip_dict d else entry k (strip_denied_fields v) (strip_dict d)
