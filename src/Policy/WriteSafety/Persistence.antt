-- ===== src/Policy/WriteSafety/Persistence.antt =====
-- What src/odoo_mcp/policy/write_safety.py stores of a response, and how it restores one.
use odoo_mcp.Prelude.{String, ◌&&◌, not, Option, none, some, List, [], ◌∷◌, if◌then◌else◌}
use odoo_mcp.Json.{
  Json, null, num, str, obj, Dict, empty, entry, get, keep_keys, without_none, or_none, or_empty,
}
use odoo_mcp.Errors.{ErrorCode, code_value}
use odoo_mcp.Policy.WriteSafety.Types.{
  WriteStatus, preview, succeeded, needs_input, failed, WriteOutcome, not_attempted, known, unknown,
  WriteCommand, WriteSafetyResponse, Pydantic, is_some,
}

-- `_filtered_mapping`
unfoldable pub filtered_mapping : Option Dict → Option (List String) → Option Dict
filtered_mapping none retained_keys = none
filtered_mapping (some d) none = some d
filtered_mapping (some d) (some keys) = some (keep_keys keys d)

-- `_response_for_persistence`
unfoldable pub response_for_persistence : WriteCommand → WriteSafetyResponse → WriteSafetyResponse
unfolding filtered_mapping
response_for_persistence command response =
    if not (is_some command.retained_proposed_action_keys)
      && not (is_some command.retained_material_effect_keys)
    then response
    else record response {
      proposed_action =
          filtered_mapping response.proposed_action command.retained_proposed_action_keys;
      material_effects =
          or_empty (
            filtered_mapping (some response.material_effects)
              command.retained_material_effect_keys);
      artifact_markdown = none;
    }

-- A JSON null is Python's `None`.
abbrev present : Option Json → Option Json
present none = none
present (some null) = none
present (some v) = some v

abbrev or_get : Option Json → Option Json → Option Json
or_get none b = b
or_get (some v) b = some v

unfoldable pub status_value : WriteStatus → String
status_value preview = "preview"
status_value succeeded = "succeeded"
status_value needs_input = "needs_input"
status_value failed = "failed"

unfoldable pub outcome_value : WriteOutcome → String
outcome_value not_attempted = "not_attempted"
outcome_value known = "known"
outcome_value unknown = "unknown"

abbrev text_json : Option String → Option Json
text_json none = none
text_json (some s) = some (str s)

-- `result.update(...)` where the response carries an error
abbrev error_pairs : Option ErrorCode → WriteSafetyResponse → List (String × Option Json)
error_pairs none retained = []
error_pairs (some code) retained =
    ("error_code", some (str (code_value code)))
    ∷ ("error_message", text_json retained.error_message)
    ∷ ("remediation_hint", text_json retained.remediation_hint)
    ∷ []

-- The closure `selected` of `_response_mapping_for_persistence`.
abbrev pub selected : WriteCommand → WriteSafetyResponse → String → Option Json
selected command retained key = present (
    or_get (get key retained.material_effects) (
      or_get (get key (or_empty retained.proposed_action))
        (get key (or_empty command.audit_payload))))

abbrev pub compact_pairs : WriteCommand → WriteSafetyResponse → List (String × Option Json)
compact_pairs command retained =
    ("status", some (str (status_value retained.status)))
    ∷ ("outcome", some (str (outcome_value retained.outcome)))
    ∷ ("request_id", some (str retained.request_id))
    ∷ ("company_id", some (num retained.company_id))
    ∷ ("operation", selected command retained "operation")
    ∷ ("payslip_id", selected command retained "payslip_id")
    ∷ ("input_id", selected command retained "input_id")
    ∷ ("result_input_id", selected command retained "result_input_id")
    ∷ ("before_source_state", selected command retained "before_source_state")
    ∷ ("after_source_state", selected command retained "after_source_state")
    ∷ error_pairs retained.error_code retained

-- `_response_mapping_for_persistence`
unfoldable pub response_mapping_for_persistence :
    Pydantic → WriteCommand → WriteSafetyResponse → Dict
unfolding response_for_persistence status_value outcome_value code_value without_none
response_mapping_for_persistence py command response =
    let retained = response_for_persistence command response in
    if not command.compact_persistence
    then py.model_dump retained
    else without_none (compact_pairs command retained)

-- `payload.get(key)`, with `None` for a missing key, as the value under a key of the dict that
-- `_restore_persisted_response` validates.
abbrev got : String → Dict → Json
got key payload = elim (get key payload) [ none ↦ null | some v ↦ v ]

abbrev pub picked : List String → Dict → Dict
picked [] payload = empty
picked (k ∷ ks) payload = elim (present (get k payload)) [
  | none ↦ picked ks payload
  | some v ↦ entry k v (picked ks payload)
]

abbrev dict_or_null : Option Dict → Json
dict_or_null none = null
dict_or_null (some d) = obj d

unfoldable pub compact_projection : Dict → Dict
compact_projection payload =
    let action =
      picked ("operation" ∷ "payslip_id" ∷ "input_id" ∷ "before_source_state" ∷ []) payload in
    let effects =
      picked
        ("operation" ∷ "payslip_id" ∷ "input_id" ∷ "result_input_id" ∷ "before_source_state"
          ∷ "after_source_state" ∷ [])
        payload in
    entry "status" (got "status" payload) (
      entry "outcome" (got "outcome" payload) (
        entry "request_id" (got "request_id" payload) (
          entry "company_id" (got "company_id" payload) (
            entry "proposed_action" (dict_or_null (or_none action)) (
              entry "material_effects" (obj effects) (
                entry "error_code" (got "error_code" payload) (
                  entry "error_message" (got "error_message" payload)
                    (entry "remediation_hint" (got "remediation_hint" payload) empty))))))))

-- `_restore_persisted_response`; `none` where it raises.
unfoldable pub restore_persisted_response :
    Pydantic → WriteCommand → Option Dict → Option WriteSafetyResponse
restore_persisted_response py command none = none
restore_persisted_response py command (some payload) =
    py.model_validate (if command.compact_persistence then compact_projection payload else payload)
