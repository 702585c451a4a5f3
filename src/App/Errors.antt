-- ===== src/App/Errors.antt =====
-- core/internal/app/errors.go and core/internal/caddy/runtime_errors.go, and
-- `safeRuntimeFailure` of core/internal/app/apply_service.go. The causes of an error are left out.
use dav_deck.Common.{ℕ, String, Bool, ◌||◌, ◌==◌, ltb, [], ◌∷◌, take, if◌then◌else◌}
use dav_deck.Common.Text.{Text, codes, is_empty, trim_space}

pub data ErrorCode : Type 0 where
  user_not_found user_already_exists invalid_username invalid_password database : ErrorCode
  share_not_found share_already_exists invalid_share_name invalid_share_slug : ErrorCode
  invalid_share_path share_path_not_found share_path_unreadable share_path_unwritable : ErrorCode
  invalid_permission permission_not_found revision_not_found : ErrorCode
  revision_state_unavailable revision_active revision_desired apply_in_progress : ErrorCode
  caddy_validate_failed caddy_apply_failed caddy_start_failed caddy_stop_failed : ErrorCode
  caddy_not_found caddy_module_missing runtime_unhealthy tls_configuration : ErrorCode
  tls_certificate tls_private_key tls_renewal_in_progress dns_check_failed : ErrorCode
  dns_provider_not_found dns_provider_already_exists dns_provider_in_use : ErrorCode
  invalid_dns_provider invalid_dns_provider_secret dns_provider_secret_missing : ErrorCode
  dns_provider_zone_not_allowed config_import_invalid config_version_unsupported : ErrorCode
  config_export_failed invalid_server_ports server_port_unavailable : ErrorCode
  server_settings_not_found : ErrorCode

-- A message that the program holds as a literal.
unfoldable pub literal : String → Text
literal s = codes s

pub record Error : Type 0 where
  pub code : ErrorCode
  pub message : Text

-- `databaseError`
abbrev pub database_error : Error
database_error = record { code = database; message = literal "Database operation failed" }

abbrev pub failure : ErrorCode → String → Error
failure code message = record { code = code; message = literal message }

pub data RuntimeErrorCode : Type 0 where
  not_found module_missing validate_failed start_failed : RuntimeErrorCode
  stop_failed reload_failed unhealthy : RuntimeErrorCode

-- The conversion `ErrorCode(code)`: both types spell these codes alike.
unfoldable pub error_code : RuntimeErrorCode → ErrorCode
error_code not_found = caddy_not_found
error_code module_missing = caddy_module_missing
error_code validate_failed = caddy_validate_failed
error_code start_failed = caddy_start_failed
error_code stop_failed = caddy_stop_failed
error_code reload_failed = caddy_apply_failed
error_code unhealthy = runtime_unhealthy

-- `string(code)`
unfoldable pub code_text : RuntimeErrorCode → Text
unfolding literal
code_text not_found = literal "CADDY_NOT_FOUND"
code_text module_missing = literal "CADDY_MODULE_MISSING"
code_text validate_failed = literal "CADDY_VALIDATE_FAILED"
code_text start_failed = literal "CADDY_START_FAILED"
code_text stop_failed = literal "CADDY_STOP_FAILED"
code_text reload_failed = literal "CADDY_RELOAD_FAILED"
code_text unhealthy = literal "RUNTIME_UNHEALTHY"

-- An error of the runtime: one that `errors.As` finds a `RuntimeError` in, or any other.
pub data RuntimeFailure : Type 0 where
  runtime_error : RuntimeErrorCode → Text → RuntimeFailure
  other_error : RuntimeFailure

abbrev is_line_control : ℕ → Bool
is_line_control c = ltb c 0x20 || c == 0x7f

unfoldable pub drop_line_controls : Text → Text
drop_line_controls [] = []
drop_line_controls (c ∷ s) =
    let rest = drop_line_controls s in if is_line_control c then rest else c ∷ rest

abbrev failure_parts : RuntimeFailure → RuntimeErrorCode → Text → RuntimeErrorCode × Text
failure_parts (runtime_error code message) fallback summary = (code, message)
failure_parts other_error fallback summary = (fallback, summary)

unfoldable pub safe_summary : Text → Text → Text
unfolding drop_line_controls trim_space
safe_summary message fallback =
    let cleaned = take 512 (drop_line_controls (trim_space message)) in
    if is_empty cleaned then fallback else cleaned

unfoldable pub safe_runtime_failure :
    RuntimeFailure → RuntimeErrorCode → Text → RuntimeErrorCode × Text
unfolding safe_summary
safe_runtime_failure e fallback fallback_summary =
    let (code, message) = failure_parts e fallback fallback_summary in
    (code, safe_summary message fallback_summary)

-- The error that a use case returns for a failure of the runtime.
unfoldable pub runtime_failure : RuntimeErrorCode → String → RuntimeFailure → Error
unfolding safe_runtime_failure
runtime_failure fallback summary e =
    let (code, message) = safe_runtime_failure e fallback (literal summary) in
    record { code = error_code code; message = message }
