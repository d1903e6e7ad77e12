-- ===== src/Json/Values.antt =====
-- JSON values, and dictionaries as association lists in insertion order.
use odoo_mcp.Prelude.{
  String, Bool, true, false, Option, none, some, List, [], ◌∷◌, ℤ, str_eq, text_in, if◌then◌else◌,
}

mutual
  pub data Json : Type 0 where
    null : Json
    bool : Bool → Json
    num : ℤ → Json
    str : String → Json
    arr : Items → Json
    obj : Dict → Json

  pub data Items : Type 0 where
    nil : Items
    cons : Json → Items → Items

  pub data Dict : Type 0 where
    empty : Dict
    entry : String → Json → Dict → Dict

-- `d.get(k)`, with `None` where the key is missing.
unfoldable pub get : String → Dict → Option Json
get k empty = none
get k (entry j v d) = if str_eq j k then some v else get k d

-- `k in d`
unfoldable pub has_key : String → Dict → Bool
has_key k empty = false
has_key k (entry j v d) = if str_eq j k then true else has_key k d

-- `{**d, k: v}`: the place of an old key is kept.
unfoldable pub insert : String → Json → Dict → Dict
insert k v empty = entry k v empty
insert k v (entry j w d) = if str_eq j k then entry j v d else entry j w (insert k v d)

-- `{key: item for key, item in d.items() if key in allowed}`
unfoldable pub keep_keys : List String → Dict → Dict
keep_keys allowed empty = empty
keep_keys allowed (entry k v d) =
    let rest = keep_keys allowed d in if text_in k allowed then entry k v rest else rest

-- `{key: value for key, value in ... if value is not None}` over the listed pairs.
unfoldable pub without_none : List (String × Option Json) → Dict
without_none [] = empty
without_none ((k, none) ∷ r) = without_none r
without_none ((k, some v) ∷ r) = entry k v (without_none r)

-- `d or None`, and below it `d or {}`.
unfoldable pub or_none : Dict → Option Dict
or_none empty = none
or_none (entry k v d) = some (entry k v d)

abbrev pub or_empty : Option Dict → Dict
or_empty none = empty
or_empty (some d) = d
