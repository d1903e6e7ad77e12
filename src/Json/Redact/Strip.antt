-- ===== src/Json/Redact/Strip.antt =====
-- Proofs about field stripping.
use odoo_mcp.Prelude.{String, Bool, true, not, ◌&&◌, ◌≡◌, ◌↔◌, refl, ap, subst, arith}
use odoo_mcp.Json.Values.{
  Json, null, bool, num, str, arr, obj, Items, nil, cons, Dict, empty, entry,
}
use odoo_mcp.Json.Redact.{is_denied, strip_denied_fields, strip_items, strip_dict}

module _ (casefold : String → String) where
  mutual
    -- No key, at any depth, is on the denylist.
    pub allowed : Json → Bool
    allowed null = true
    allowed (bool b) = true
    allowed (num n) = true
    allowed (str s) = true
    allowed (arr xs) = allowed_items xs
    allowed (obj d) = allowed_dict d

    pub allowed_items : Items → Bool
    allowed_items nil = true
    allowed_items (cons x xs) = allowed x && allowed_items xs

    pub allowed_dict : Dict → Bool
    allowed_dict empty = true
    allowed_dict (entry k v d) = not (is_denied casefold k) && (allowed v && allowed_dict d)

module _ (casefold : String → String) where
  mutual
    unfolding strip_denied_fields allowed

    value_allowed : (v : Json) → allowed casefold (strip_denied_fields casefold v) ≡ true
    value_allowed null = refl
    value_allowed (bool b) = refl
    value_allowed (num n) = refl
    value_allowed (str s) = refl
    value_allowed (arr xs) = items_allowed xs
    value_allowed (obj d) = dict_allowed d

    items_allowed : (xs : Items) → allowed_items casefold (strip_items casefold xs) ≡ true
    items_allowed nil = refl
    items_allowed (cons x xs) = ground (arith, value_allowed x, items_allowed xs)

    dict_allowed : (d : Dict) → allowed_dict casefold (strip_dict casefold d) ≡ true
    dict_allowed empty = refl
    dict_allowed (entry k v d) = ground (arith, value_allowed v, dict_allowed d)

  mutual
    unfolding strip_denied_fields allowed

    value_kept : (v : Json) → allowed casefold v ≡ true → strip_denied_fields casefold v ≡ v
    value_kept null h = refl
    value_kept (bool b) h = refl
    value_kept (num n) h = refl
    value_kept (str s) h = refl
    value_kept (arr xs) h = ap arr (items_kept xs h)
    value_kept (obj d) h = ap obj (dict_kept d h)

    items_kept : (xs : Items) → allowed_items casefold xs ≡ true → strip_items casefold xs ≡ xs
    items_kept nil h = refl
    items_kept (cons x xs) h = ground (arith, value_kept x, items_kept xs)

    dict_kept : (d : Dict) → allowed_dict casefold d ≡ true → strip_dict casefold d ≡ d
    dict_kept empty h = refl
    dict_kept (entry k v d) h = ground (arith, value_kept v, dict_kept d)

  -- Stripping leaves no denied key at any depth of a value, and leaves a value alone exactly if it
  -- has none.
  pub strip-allowed :
      (v : Json)
      → (allowed casefold (strip_denied_fields casefold v) ≡ true)
        × ((strip_denied_fields casefold v ≡ v) ↔ (allowed casefold v ≡ true))
  strip-allowed v = (
    value_allowed v,
    (λ e. subst (λ (u : Json). allowed casefold u ≡ true) e (value_allowed v), value_kept v),
  )
