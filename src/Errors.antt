-- ===== src/Errors.antt =====
-- The structured public errors of src/odoo_mcp/mcp/error_codes.py.
use odoo_mcp.Prelude.{String, Option, none, some, List, [], ◌∷◌, str_eq, if◌then◌else◌}

pub data ErrorCode : Type 0 where
  odoo_auth_failed odoo_api_error odoo_version_unsupported : ErrorCode
  odoo_transport_negotiation_failed odoo_permission_denied : ErrorCode
  company_not_found capability_not_available execution_not_explicit : ErrorCode
  odoo_state_conflict concurrent_operation_in_progress : ErrorCode
  idempotency_key_payload_mismatch journal_not_found : ErrorCode
  statement_line_not_found account_not_found journal_entry_not_draft : ErrorCode
  journal_entry_unbalanced payroll_period_not_found : ErrorCode
  insufficient_comparison_data payroll_batch_not_found payslip_not_found : ErrorCode
  payroll_structure_not_found contract_data_missing employee_not_found : ErrorCode
  payroll_source_inconsistent payroll_result_too_large : ErrorCode
  payroll_input_not_found payroll_input_type_not_allowed : ErrorCode
  payroll_state_not_editable payroll_recalculation_failed invalid_input : ErrorCode
  model_not_allowed field_denied unknown_error : ErrorCode

-- `ErrorCode.value`
unfoldable pub code_value : ErrorCode → String
code_value odoo_auth_failed = "ODOO_AUTH_FAILED"
code_value odoo_api_error = "ODOO_API_ERROR"
code_value odoo_version_unsupported = "ODOO_VERSION_UNSUPPORTED"
code_value odoo_transport_negotiation_failed = "ODOO_TRANSPORT_NEGOTIATION_FAILED"
code_value odoo_permission_denied = "ODOO_PERMISSION_DENIED"
code_value company_not_found = "COMPANY_NOT_FOUND"
code_value capability_not_available = "CAPABILITY_NOT_AVAILABLE"
code_value execution_not_explicit = "EXECUTION_NOT_EXPLICIT"
code_value odoo_state_conflict = "ODOO_STATE_CONFLICT"
code_value concurrent_operation_in_progress = "CONCURRENT_OPERATION_IN_PROGRESS"
code_value idempotency_key_payload_mismatch = "IDEMPOTENCY_KEY_PAYLOAD_MISMATCH"
code_value journal_not_found = "JOURNAL_NOT_FOUND"
code_value statement_line_not_found = "STATEMENT_LINE_NOT_FOUND"
code_value account_not_found = "ACCOUNT_NOT_FOUND"
code_value journal_entry_not_draft = "JOURNAL_ENTRY_NOT_DRAFT"
code_value journal_entry_unbalanced = "JOURNAL_ENTRY_UNBALANCED"
code_value payroll_period_not_found = "PAYROLL_PERIOD_NOT_FOUND"
code_value insufficient_comparison_data = "INSUFFICIENT_COMPARISON_DATA"
code_value payroll_batch_not_found = "PAYROLL_BATCH_NOT_FOUND"
code_value payslip_not_found = "PAYSLIP_NOT_FOUND"
code_value payroll_structure_not_found = "PAYROLL_STRUCTURE_NOT_FOUND"
code_value contract_data_missing = "CONTRACT_DATA_MISSING"
code_value employee_not_found = "EMPLOYEE_NOT_FOUND"
code_value payroll_source_inconsistent = "PAYROLL_SOURCE_INCONSISTENT"
code_value payroll_result_too_large = "PAYROLL_RESULT_TOO_LARGE"
code_value payroll_input_not_found = "PAYROLL_INPUT_NOT_FOUND"
code_value payroll_input_type_not_allowed = "PAYROLL_INPUT_TYPE_NOT_ALLOWED"
code_value payroll_state_not_editable = "PAYROLL_STATE_NOT_EDITABLE"
code_value payroll_recalculation_failed = "PAYROLL_RECALCULATION_FAILED"
code_value invalid_input = "INVALID_INPUT"
code_value model_not_allowed = "MODEL_NOT_ALLOWED"
code_value field_denied = "FIELD_DENIED"
code_value unknown_error = "UNKNOWN_ERROR"

-- The members in the order of the class.
abbrev pub all_codes : List ErrorCode
all_codes =
    odoo_auth_failed ∷ odoo_api_error ∷ odoo_version_unsupported ∷ odoo_transport_negotiation_failed
    ∷ odoo_permission_denied ∷ company_not_found ∷ capability_not_available ∷ execution_not_explicit
    ∷ odoo_state_conflict ∷ concurrent_operation_in_progress ∷ idempotency_key_payload_mismatch
    ∷ journal_not_found ∷ statement_line_not_found ∷ account_not_found ∷ journal_entry_not_draft
    ∷ journal_entry_unbalanced ∷ payroll_period_not_found ∷ insufficient_comparison_data
    ∷ payroll_batch_not_found ∷ payslip_not_found ∷ payroll_structure_not_found
    ∷ contract_data_missing ∷ employee_not_found ∷ payroll_source_inconsistent
    ∷ payroll_result_too_large ∷ payroll_input_not_found ∷ payroll_input_type_not_allowed
    ∷ payroll_state_not_editable ∷ payroll_recalculation_failed ∷ invalid_input ∷ model_not_allowed
    ∷ field_denied ∷ unknown_error ∷ []

unfoldable pub find_code : String → List ErrorCode → Option ErrorCode
find_code value [] = none
find_code value (c ∷ cs) = if str_eq (code_value c) value then some c else find_code value cs

-- `ErrorCode(value)`, where `none` is the `ValueError`.
unfoldable pub parse_code : String → Option ErrorCode
unfolding find_code code_value
parse_code value = find_code value all_codes

pub record OdooMcpError : Type 0 where
  pub code : ErrorCode
  pub safe_message : String
  pub remediation_hint : String
