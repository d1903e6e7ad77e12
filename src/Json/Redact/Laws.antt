-- ===== src/Json/Redact/Laws.antt =====
-- Proofs about redaction.
use odoo_mcp.Prelude.{
  String, Bool, true, false, ◌&&◌, ◌≡◌, ◌↔◌, refl, ap, subst, eq_iff, str_eq, arith, if◌then◌else◌,
}
use odoo_mcp.Json.Values.{
  Json, null, bool, num, str, arr, obj, Items, nil, cons, Dict, empty, entry,
}
use odoo_mcp.Json.Redact.{is_sensitive, redact_sensitive, redact_items, redact_dict}

-- The marker that stands for a redacted value.
abbrev is_marker : Json → Bool
is_marker (str s) = str_eq s "[REDACTED]"
is_marker _ = false

module _ (casefold : String → String) where
  mutual
    -- Under every sensitive key, at any depth, stands the marker.
    pub masked : Json → Bool
    masked null = true
    masked (bool b) = true
    masked (num n) = true
    masked (str s) = true
    masked (arr xs) = masked_items xs
    masked (obj d) = masked_dict d

    pub masked_items : Items → Bool
    masked_items nil = true
    masked_items (cons x xs) = masked x && masked_items xs

    pub masked_dict : Dict → Bool
    masked_dict empty = true
    masked_dict (entry k v d) =
        (if is_sensitive casefold k then is_marker v else masked v) && masked_dict d

module _ (casefold : String → String) where
  mutual
    unfolding redact_sensitive

    value_idem :
        (v : Json)
        → redact_sensitive casefold (redact_sensitive casefold v) ≡ redact_sensitive casefold v
    value_idem null = refl
    value_idem (bool b) = refl
    value_idem (num n) = refl
    value_idem (str s) = refl
    value_idem (arr xs) = cc (items_idem xs)
    value_idem (obj d) = cc (dict_idem d)

    items_idem :
        (xs : Items) → redact_items casefold (redact_items casefold xs) ≡ redact_items casefold xs
    items_idem nil = refl
    items_idem (cons x xs) = cc (value_idem x, items_idem xs)

    dict_idem : (d : Dict) → redact_dict casefold (redact_dict casefold d) ≡ redact_dict casefold d
    dict_idem empty = refl
    dict_idem (entry k v d) = ground (arith, value_idem v, dict_idem d)

  -- Redacting a redacted mapping changes nothing.
  pub redact_dict_idem :
      (d : Dict) → redact_dict casefold (redact_dict casefold d) ≡ redact_dict casefold d
  redact_dict_idem d = dict_idem d

  mutual
    unfolding redact_sensitive masked

    value_masked : (v : Json) → masked casefold (redact_sensitive casefold v) ≡ true
    value_masked null = refl
    value_masked (bool b) = refl
    value_masked (num n) = refl
    value_masked (str s) = refl
    value_masked (arr xs) = items_masked xs
    value_masked (obj d) = dict_masked d

    items_masked : (xs : Items) → masked_items casefold (redact_items casefold xs) ≡ true
    items_masked nil = refl
    items_masked (cons x xs) = ground (arith, value_masked x, items_masked xs)

    dict_masked : (d : Dict) → masked_dict casefold (redact_dict casefold d) ≡ true
    dict_masked empty = refl
    dict_masked (entry k v d) = ground (arith, value_masked v, dict_masked d)

  marker : (v : Json) → is_marker v ≡ true → v ≡ str "[REDACTED]"
  marker (str s) h = ap str ((eq_iff s "[REDACTED]").0 h)
  marker null h = cc
  marker (bool b) h = cc
  marker (num n) h = cc
  marker (arr xs) h = cc
  marker (obj d) h = cc

  mutual
    unfolding redact_sensitive masked

    value_fixed : (v : Json) → masked casefold v ≡ true → redact_sensitive casefold v ≡ v
    value_fixed null h = refl
    value_fixed (bool b) h = refl
    value_fixed (num n) h = refl
    value_fixed (str s) h = refl
    value_fixed (arr xs) h = ap arr (items_fixed xs h)
    value_fixed (obj d) h = ap obj (dict_fixed d h)

    items_fixed : (xs : Items) → masked_items casefold xs ≡ true → redact_items casefold xs ≡ xs
    items_fixed nil h = refl
    items_fixed (cons x xs) h = ground (arith, value_fixed x, items_fixed xs)

    dict_fixed : (d : Dict) → masked_dict casefold d ≡ true → redact_dict casefold d ≡ d
    dict_fixed empty h = refl
    dict_fixed (entry k v d) h = ground (arith, marker v, value_fixed v, dict_fixed d)

  -- Redaction puts the marker under every sensitive key at any depth of a value, and changes a value
  -- only where the marker is missing: the values it leaves alone are exactly those.
  pub redact-masked :
      (v : Json)
      → (masked casefold (redact_sensitive casefold v) ≡ true)
        × ((redact_sensitive casefold v ≡ v) ↔ (masked casefold v ≡ true))
  redact-masked v = (
    value_masked v,
    (λ e. subst (λ (u : Json). masked casefold u ≡ true) e (value_masked v), value_fixed v),
  )
