-- ===== src/Storage/Event.antt =====
-- `_safe_error_fields`, `_event_values` and `_hash_payload` of src/odoo_mcp/storage/audit.py: the dict of
-- an audit event that is hashed, and the columns that are stored for it.
use odoo_mcp.Prelude.{ℕ, ℤ, String, Bool, false, Option, none, some, List, [], ◌∷◌, if◌then◌else◌}
use odoo_mcp.Json.{Json, null, bool, num, str, arr, obj, Items, nil, cons, Dict, empty, entry}
use odoo_mcp.Json.Redact.{redact_dict}
use odoo_mcp.Errors.{ErrorCode, code_value, parse_code, unknown_error}
use odoo_mcp.Storage.Platform.{Platform}
use odoo_mcp.Storage.Models.{AuditEvent, AuditRecord}

abbrev safe_code : Option String → ErrorCode
safe_code none = unknown_error
safe_code (some value) = elim (parse_code value) [ none ↦ unknown_error | some c ↦ c ]

append_text : String → String → String
append_text String.[] t = t
append_text (String.◌∷◌ c s) t = String.◌∷◌ c (append_text s t)

unfoldable pub failed_with : ErrorCode → String
unfolding append_text code_value
failed_with c = append_text "Operation failed with " (append_text (code_value c) ".")

-- `_safe_error_fields`
unfoldable pub safe_error_fields : Option String → Option String → Option String × Option String
unfolding parse_code code_value failed_with
safe_error_fields none none = (none, none)
safe_error_fields code message =
    (some (code_value (safe_code code)), some (failed_with (safe_code code)))

abbrev opt_str : Option String → Json
opt_str none = null
opt_str (some s) = str s

abbrev opt_num : Option ℤ → Json
opt_num none = null
opt_num (some n) = num n

abbrev opt_obj : Option Dict → Json
opt_obj none = null
opt_obj (some d) = obj d

abbrev str_items : List String → Items
str_items [] = nil
str_items (s ∷ r) = cons (str s) (str_items r)

-- The `created_at` of a stored row; the column is NOT NULL.
abbrev time_of : Option ℕ → ℕ
time_of none = 0
time_of (some t) = t

module _ (p : Platform) where
  -- `_hash_payload`
  unfoldable pub hash_payload : Dict → String
  hash_payload values = p.sha256 (p.canonical_json (obj values))

  abbrev pub opt_redact : Option Dict → Option Dict
  opt_redact none = none
  opt_redact (some d) = some (redact_dict p.casefold d)

  -- The dict that `_event_values` builds from the columns that it has prepared.
  abbrev pub column_values : AuditEvent → Option String → Option String → String → ℕ → Dict
  column_values event error_code error_message previous_hash created_at =
      entry "request_id" (str event.request_id) (
        entry "tenant_id" (str event.tenant_id) (
          entry "company_id" (opt_num event.company_id) (
            entry "tool_name" (str event.tool_name) (
              entry "tool_version" (str event.tool_version) (
                entry "module" (str event.module_name) (
                  entry "authenticated_subject" (str event.authenticated_subject) (
                    entry "mcp_client" (str event.mcp_client) (
                      entry "odoo_db_name" (opt_str event.odoo_db_name) (
                        entry "odoo_user" (opt_str event.odoo_user) (
                          entry "odoo_version" (opt_str event.odoo_version) (
                            entry "odoo_transport" (opt_str event.odoo_transport) (
                              entry "input_payload"
                                (obj (redact_dict p.casefold event.input_payload))
                                (entry "dry_run" (bool event.dry_run) (
                                  entry "proposed_action"
                                    (opt_obj (opt_redact event.proposed_action))
                                    (entry "actual_result"
                                      (opt_obj (opt_redact event.actual_result))
                                      (entry "affected_odoo_records"
                                        (arr (str_items event.affected_odoo_records))
                                        (entry "error_code" (opt_str error_code) (
                                          entry "error_message" (opt_str error_message) (
                                            entry "final_status" (str event.final_status) (
                                              entry "previous_hash" (str previous_hash) (
                                                entry "created_at" (str (p.isoformat created_at))
                                                  empty)))))))))))))))))))))

  -- `_event_values`
  unfoldable pub event_values : AuditEvent → String → ℕ → Bool → Dict
  unfolding safe_error_fields
  event_values event previous_hash created_at normalize_error =
      let fields : Option String × Option String =
        if normalize_error
        then safe_error_fields event.error_code event.error_message
        else (event.error_code, event.error_message) in
      column_values event fields.0 fields.1 previous_hash created_at

  -- The columns as `append_in_transaction` writes them and `_row_to_record` reads them back.
  unfoldable pub stored_event : AuditEvent → ℕ → AuditEvent
  unfolding safe_error_fields
  stored_event event created_at = record event {
    input_payload = redact_dict p.casefold event.input_payload;
    proposed_action = opt_redact event.proposed_action;
    actual_result = opt_redact event.actual_result;
    error_code = (safe_error_fields event.error_code event.error_message).0;
    error_message = (safe_error_fields event.error_code event.error_message).1;
    created_at = some created_at;
  }

  -- What `verify_chain` hashes for a stored record.
  unfoldable pub record_values : AuditRecord → Dict
  unfolding event_values
  record_values r = event_values r.event r.previous_hash (time_of r.event.created_at) false
