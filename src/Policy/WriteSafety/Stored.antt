-- ===== src/Policy/WriteSafety/Stored.antt =====
-- What `_response_mapping_for_persistence` of src/odoo_mcp/policy/write_safety.py makes of a success,
-- described key by key.
use odoo_mcp.Prelude.{
  String, Bool, true, false, ◌≡◌, refl, not, ◌∙◌, subst, Option, none, some, List, [], ◌∷◌, All,
  str_eq, text_in, any_of, arith, inl, inr, Bool-cases, if◌then◌else◌, eq_iff,
}
use odoo_mcp.Json.{Json, null, num, str, Dict, empty, entry, get, keep_keys, without_none, or_empty}
use odoo_mcp.Policy.WriteSafety.Types.{
  WriteStatus, WriteOutcome, WriteCommand, WriteSafetyResponse, Pydantic,
}
use odoo_mcp.Policy.WriteSafety.Persistence.{
  filtered_mapping, response_for_persistence, status_value, outcome_value, selected, compact_pairs,
  response_mapping_for_persistence,
}

-- Whether the command keeps the key: all keys, unless it names those to be retained.
abbrev pub is_retained : Option (List String) → String → Bool
is_retained none k = true
is_retained (some keys) k = text_in k keys

abbrev pub retained_value : Option (List String) → String → Dict → Option Json
retained_value keys k d = if is_retained keys k then get k d else none

-- The response with what the command retains of its action and its effects.
pub record IsRetained (c : WriteCommand) (r kept : WriteSafetyResponse) : Type 0 where
  pub status : kept.status ≡ r.status
  pub outcome : kept.outcome ≡ r.outcome
  pub request_id : kept.request_id ≡ r.request_id
  pub company_id : kept.company_id ≡ r.company_id
  pub record_refs : kept.record_refs ≡ r.record_refs
  pub action :
      (k : String)
      → get k (or_empty kept.proposed_action)
        ≡ retained_value c.retained_proposed_action_keys k (or_empty r.proposed_action)
  pub effects :
      (k : String)
      → get k kept.material_effects
        ≡ retained_value c.retained_material_effect_keys k r.material_effects

-- The first value that is there, a null as none.
abbrev pub first_of : List (Option Json) → Option Json
first_of [] = none
first_of (none ∷ os) = first_of os
first_of (some null ∷ os) = none
first_of (some v ∷ os) = some v

-- The value of a key in the effects, the action or the audit payload, in this order.
abbrev pub chosen : WriteCommand → WriteSafetyResponse → String → Option Json
chosen c r k = first_of (
    retained_value c.retained_material_effect_keys k r.material_effects
    ∷ retained_value c.retained_proposed_action_keys k (or_empty r.proposed_action)
    ∷ get k (or_empty c.audit_payload)
    ∷ [])

-- The keys that the compact mapping selects.
abbrev pub compact_keys : List String
compact_keys =
    "operation" ∷ "payslip_id" ∷ "input_id" ∷ "result_input_id" ∷ "before_source_state"
    ∷ "after_source_state" ∷ []

pub record IsCompact (c : WriteCommand) (r : WriteSafetyResponse) (d : Dict) : Type 0 where
  pub status : get "status" d ≡ some (str "succeeded")
  pub outcome : get "outcome" d ≡ some (str "known")
  pub request_id : get "request_id" d ≡ some (str r.request_id)
  pub company_id : get "company_id" d ≡ some (num r.company_id)
  pub values : All (λ k. get k d ≡ chosen c r k) compact_keys

-- The dump of the response, or of what the command retains of it if it names keys to retain.
abbrev pub IsDumped :
    Option (List String)
    → Option (List String)
    → Pydantic
    → WriteCommand
    → WriteSafetyResponse
    → Dict
    → Type 0
IsDumped none none py c r d = d ≡ py.model_dump r
IsDumped none (some effects) py c r d =
    (kept : WriteSafetyResponse) × IsRetained c r kept × (d ≡ py.model_dump kept)
IsDumped (some actions) effects py c r d =
    (kept : WriteSafetyResponse) × IsRetained c r kept × (d ≡ py.model_dump kept)

-- The compact mapping if the command persists compactly, and otherwise a dump.
abbrev pub IsStoredAs : Bool → Pydantic → WriteCommand → WriteSafetyResponse → Dict → Type 0
IsStoredAs true py c r d = IsCompact c r d
IsStoredAs false py c r d =
    IsDumped c.retained_proposed_action_keys c.retained_material_effect_keys py c r d

-- The dictionary is what the command stores of a success.
abbrev pub IsStored : Pydantic → WriteCommand → WriteSafetyResponse → Dict → Type 0
IsStored py c r d = IsStoredAs c.compact_persistence py c r d

get-keep_keys :
    (keys : List String) (k : String) (d : Dict)
    → get k (keep_keys keys d) ≡ (if text_in k keys then get k d else none)
unfolding get keep_keys
get-keep_keys keys k empty = ground arith
get-keep_keys keys k (entry j v d) = elim (Bool-cases (str_eq j k)) [
  | inl same ↦ let e : j ≡ k = (eq_iff j k).0 same in ground (arith, get-keep_keys keys k d)
  | inr other ↦ ground (arith, get-keep_keys keys k d)
]

filtered_lem :
    (o : Option Dict) (keys : Option (List String)) (k : String)
    → get k (or_empty (filtered_mapping o keys)) ≡ retained_value keys k (or_empty o)
unfolding filtered_mapping
filtered_lem none none k = refl
filtered_lem none (some keys) k = unfold get in ground arith
filtered_lem (some d) none k = refl
filtered_lem (some d) (some keys) k = get-keep_keys keys k d

response_for_persistence-IsRetained :
    (c : WriteCommand) (r : WriteSafetyResponse) → IsRetained c r (response_for_persistence c r)
unfolding response_for_persistence
response_for_persistence-IsRetained c r =
    let action = filtered_lem r.proposed_action c.retained_proposed_action_keys in
    let effects = filtered_lem (some r.material_effects) c.retained_material_effect_keys in
    record {
      status = ground arith;
      outcome = ground arith;
      request_id = ground arith;
      company_id = ground arith;
      record_refs = ground arith;
      action = λ k. ground (arith, action k);
      effects = λ k. ground (arith, effects k);
    }

-- The pairs under a key, of which the first counts.
abbrev lookup : String → List (String × Option Json) → Option Json
lookup k [] = none
lookup k ((j, o) ∷ ps) = if str_eq j k then o else lookup k ps

abbrev is_named : String → String × Option Json → Bool
is_named k (j, o) = str_eq j k

get-absent :
    (k : String) (ps : List (String × Option Json))
    → any_of (is_named k) ps ≡ false
    → get k (without_none ps) ≡ none
unfolding get without_none
get-absent k [] h = refl
get-absent k ((j, none) ∷ ps) h = get-absent k ps (ground arith)
get-absent k ((j, some v) ∷ ps) h = ground (arith, get-absent k ps)

-- No key is listed twice.
abbrev IsPlain : List (String × Option Json) → Type 0
IsPlain [] = Unit
IsPlain ((j, o) ∷ ps) = (any_of (is_named j) ps ≡ false) × IsPlain ps

get-without_none :
    (k : String) (ps : List (String × Option Json))
    → IsPlain ps
    → get k (without_none ps) ≡ lookup k ps
unfolding get without_none
get-without_none k [] w = refl
get-without_none k ((j, some v) ∷ ps) w = ground (arith, get-without_none k ps)
get-without_none k ((j, none) ∷ ps) w = elim (Bool-cases (str_eq j k)) [
  | inr other ↦ get-without_none k ps w.1 ∙ rw other refl
  | inl same ↦
      let e : j ≡ k = (eq_iff j k).0 same in
      get-absent k ps (subst (λ i. any_of (is_named i) ps ≡ false) e w.0) ∙ rw same refl
]

selected_lem :
    (c : WriteCommand) (r : WriteSafetyResponse) (k : String)
    → selected c (response_for_persistence c r) k ≡ chosen c r k
selected_lem c r k =
    let kept = response_for_persistence-IsRetained c r in
    rw (kept.effects k, kept.action k) (ground arith)

compact_pairs-IsPlain :
    (c : WriteCommand) (kept : WriteSafetyResponse)
    → kept.error_code ≡ none
    → IsPlain (compact_pairs c kept)
compact_pairs-IsPlain c kept e =
    rw e (refl, (refl, (refl, (refl, (refl, (refl, (refl, (refl, (refl, (refl, tt))))))))))

compact_lem :
    (c : WriteCommand) (r kept : WriteSafetyResponse)
    → IsRetained c r kept
    → ((k : String) → selected c kept k ≡ chosen c r k)
    → r.status ≡ WriteStatus.succeeded
    → r.outcome ≡ WriteOutcome.known
    → kept.error_code ≡ none
    → IsCompact c r (without_none (compact_pairs c kept))
unfolding status_value outcome_value
compact_lem c r kept same choice success known e =
    let plain = compact_pairs-IsPlain c kept e in
    let at : (k : String)
        → get k (without_none (compact_pairs c kept)) ≡ lookup k (compact_pairs c kept) =
      λ k. get-without_none k (compact_pairs c kept) plain in
    record {
      status = at "status" ∙ rw (same.status, success) refl;
      outcome = at "outcome" ∙ rw (same.outcome, known) refl;
      request_id = at "request_id" ∙ rw same.request_id refl;
      company_id = at "company_id" ∙ rw same.company_id refl;
      values = (
        at "operation" ∙ choice "operation",
        (
          at "payslip_id" ∙ choice "payslip_id",
          (
            at "input_id" ∙ choice "input_id",
            (
              at "result_input_id" ∙ choice "result_input_id",
              (
                at "before_source_state" ∙ choice "before_source_state",
                (at "after_source_state" ∙ choice "after_source_state", tt),
              ),
            ),
          ),
        ),
      );
    }

response_for_persistence-IsDumped :
    (py : Pydantic) (c : WriteCommand) (r : WriteSafetyResponse)
    (actions effects : Option (List String))
    → c.retained_proposed_action_keys ≡ actions
    → c.retained_material_effect_keys ≡ effects
    → IsDumped actions effects py c r (py.model_dump (response_for_persistence c r))
response_for_persistence-IsDumped py c r none none no_actions no_effects =
    unfold response_for_persistence in rw (no_actions, no_effects) refl
response_for_persistence-IsDumped py c r none (some e) no_actions named =
    (response_for_persistence c r, response_for_persistence-IsRetained c r, refl)
response_for_persistence-IsDumped py c r (some a) effects named other =
    (response_for_persistence c r, response_for_persistence-IsRetained c r, refl)

module _ (py : Pydantic) (c : WriteCommand) (r : WriteSafetyResponse)
    (success : r.status ≡ WriteStatus.succeeded) (known : r.outcome ≡ WriteOutcome.known)
    (no_error : r.error_code ≡ none) where
  stored_as :
      (b : Bool)
      → IsStoredAs b py c r (
          if not b
          then py.model_dump (response_for_persistence c r)
          else without_none (compact_pairs c (response_for_persistence c r)))
  stored_as true =
      let no_code : (response_for_persistence c r).error_code ≡ none =
        unfold response_for_persistence in ground (arith, no_error) in
      compact_lem c r (response_for_persistence c r) (response_for_persistence-IsRetained c r)
        (selected_lem c r) success known no_code
  stored_as false =
      response_for_persistence-IsDumped py c r c.retained_proposed_action_keys
        c.retained_material_effect_keys refl refl

  -- A success is stored as described.
  pub response_mapping_for_persistence-IsStored :
      IsStored py c r (response_mapping_for_persistence py c r)
  unfolding response_mapping_for_persistence
  response_mapping_for_persistence-IsStored = stored_as c.compact_persistence
