-- ===== src/Policy/WriteSafety/Gate.antt =====
-- `validate_write_tool_definition` and `_gate_error` of src/odoo_mcp/policy/write_safety.py.
use odoo_mcp.Prelude.{
  pos, leb_ℤ, eqb_ℤ, String, Bool, true, false, ◌&&◌, ◌||◌, not, Option, none, some, List, [], ◌∷◌,
  str_eq, any_of, text_in, if◌then◌else◌,
}
use odoo_mcp.Json.{Dict, has_key}
use odoo_mcp.Errors.{
  OdooMcpError, invalid_input, odoo_auth_failed, company_not_found, capability_not_available,
}
use odoo_mcp.Policy.WriteSafety.Types.{
  RiskLevel, read, draft_write, confirm_write, ToolDefinition, ConnectionBinding,
  CapabilitySnapshot, WriteCommand, is_some,
}

-- `hint is True`, `hint is False`
abbrev is_true : Option Bool → Bool
is_true none = false
is_true (some b) = b

abbrev is_false : Option Bool → Bool
is_false none = false
is_false (some b) = not b

abbrev destructive_is_valid : RiskLevel → Option Bool → Bool
destructive_is_valid draft_write hint = is_some hint
destructive_is_valid confirm_write hint = is_true hint
destructive_is_valid _ hint = is_false hint

abbrev is_read : RiskLevel → Bool
is_read read = true
is_read _ = false

-- `validate_write_tool_definition`: false where it raises.
unfoldable pub write_tool_definition_is_valid : ToolDefinition → Bool
write_tool_definition_is_valid definition =
    let a = definition.annotations in
    not (is_read definition.risk_level)
    && (is_false a.read_only_hint
        && (destructive_is_valid definition.risk_level a.destructive_hint
            && (is_true a.idempotent_hint && is_true a.open_world_hint)))

-- `modules.get(name, False)`
unfoldable pub module_available : String → List (String × Bool) → Bool
module_available name [] = false
module_available name ((n, b) ∷ r) = if str_eq n name then b else module_available name r

abbrev pub reserved_key_used : Dict → Bool
reserved_key_used d = has_key "company_id" d || (has_key "dry_run" d || has_key "idempotency_key" d)

abbrev pub capability_missing : Option String → CapabilitySnapshot → Bool
capability_missing none snapshot = false
capability_missing (some name) snapshot = not (module_available name snapshot.modules)

unfoldable pub gate_error :
    ConnectionBinding → ToolDefinition → CapabilitySnapshot → WriteCommand → Option OdooMcpError
gate_error binding definition snapshot command =
    if reserved_key_used command.request_payload
    then some (record {
      code = invalid_input;
      safe_message = "The business payload contains a reserved write-control field.";
      remediation_hint =
          "Remove company_id, dry_run, and idempotency_key from the business payload.";
    })
    else (if leb_ℤ command.company_id (pos 0)
        then some (record {
          code = invalid_input;
          safe_message = "The write request company ID is invalid.";
          remediation_hint = "Use a positive authorized company ID.";
        })
        else (if not (text_in definition.required_permission binding.permissions)
            then some (record {
              code = odoo_auth_failed;
              safe_message = "The resolved MCP identity is not authorized for this write.";
              remediation_hint = "Reconnect with the required write permission and retry.";
            })
            else (if not (any_of (λ c. eqb_ℤ c command.company_id) binding.allowed_company_ids)
                then some (record {
                  code = company_not_found;
                  safe_message = "The requested company is not authorized for this connection.";
                  remediation_hint = "Use an authorized company ID and retry.";
                })
                else (if capability_missing definition.required_capability snapshot
                    then some (record {
                      code = capability_not_available;
                      safe_message = "The required Odoo capability is unavailable.";
                      remediation_hint =
                          "Enable the required module access or use an available tool.";
                    })
                    else none))))
