-- ===== src/Core/Errors.antt =====
-- server/src/superboss/core/errors.py, and the exceptions that the services raise among
-- themselves. A message is a fixed function of the code, and is not modelled.
use super_boss.Base.{ℕ, Option, String}

-- the `code` of a DomainError that is raised with one
pub data Code : Type 0 where
  project_forbidden project_create_forbidden project_not_found project_name_conflict : Code
  owner_required user_not_found owner_protected username_conflict validation_error : Code
  file_not_found file_upload_not_found file_upload_not_active file_upload_conflict : Code
  file_upload_size_mismatch file_infected file_scan_failed file_not_ready : Code
  import_create_forbidden import_upload_forbidden import_submit_forbidden : Code
  import_read_forbidden import_job_not_found import_attachment_not_found : Code
  import_attachments_incomplete import_idempotency_conflict : Code

-- the code as the client reads it
abbrev pub code_text : Code → String
code_text project_forbidden = "PROJECT_FORBIDDEN"
code_text project_create_forbidden = "PROJECT_CREATE_FORBIDDEN"
code_text project_not_found = "PROJECT_NOT_FOUND"
code_text project_name_conflict = "PROJECT_NAME_CONFLICT"
code_text owner_required = "OWNER_REQUIRED"
code_text user_not_found = "USER_NOT_FOUND"
code_text owner_protected = "OWNER_PROTECTED"
code_text username_conflict = "USERNAME_CONFLICT"
code_text validation_error = "VALIDATION_ERROR"
code_text file_not_found = "FILE_NOT_FOUND"
code_text file_upload_not_found = "FILE_UPLOAD_NOT_FOUND"
code_text file_upload_not_active = "FILE_UPLOAD_NOT_ACTIVE"
code_text file_upload_conflict = "FILE_UPLOAD_CONFLICT"
code_text file_upload_size_mismatch = "FILE_UPLOAD_SIZE_MISMATCH"
code_text file_infected = "FILE_INFECTED"
code_text file_scan_failed = "FILE_SCAN_FAILED"
code_text file_not_ready = "FILE_NOT_READY"
code_text import_create_forbidden = "IMPORT_CREATE_FORBIDDEN"
code_text import_upload_forbidden = "IMPORT_UPLOAD_FORBIDDEN"
code_text import_submit_forbidden = "IMPORT_SUBMIT_FORBIDDEN"
code_text import_read_forbidden = "IMPORT_READ_FORBIDDEN"
code_text import_job_not_found = "IMPORT_JOB_NOT_FOUND"
code_text import_attachment_not_found = "IMPORT_ATTACHMENT_NOT_FOUND"
code_text import_attachments_incomplete = "IMPORT_ATTACHMENTS_INCOMPLETE"
code_text import_idempotency_conflict = "IMPORT_IDEMPOTENCY_CONFLICT"

-- `LoginFailure.reason`
pub data LoginReason : Type 0 where
  invalid_credentials locked : LoginReason

-- the fixed messages of the connector, integrations/kimi-superboss/connector errors.py
pub data ConnectorMessage : Type 0 where
  invalid_input outbox_busy outbox_conflict outbox_invalid pair_incomplete : ConnectorMessage
  update_replace_failed : ConnectorMessage
  pair_temporary_failure credential_error file_changed server_rejected temporary_failure :
      ConnectorMessage

pub data Error : Type 0 where
  -- the subclasses of DomainError, and DomainError with its own status
  unauthenticated authentication_failed password_change_required : Error
  password_reuse_forbidden file_provisioning_pending file_completion_pending : Error
  forbidden not_found conflict : Code → Error
  domain : Code → ℕ → Error
  -- exceptions that no handler renders as it is
  token_error password_policy_error invalid_session invalid_device_grant : Error
  invalid_device_credential value_error runtime_error integrity_error scan_error : Error
  storage_error : Error
  login_failure : Option ℕ → LoginReason → Error
  credential_rejected : Option ℕ → Error
  -- ConnectorError, with the exit code of the process
  connector_error : (exit_code : ℕ) → ConnectorMessage → Error

-- `DomainError.status_code`; an exception that is no DomainError is a server error.
pub status_code : Error → ℕ
status_code unauthenticated = 401
status_code authentication_failed = 401
status_code password_change_required = 403
status_code password_reuse_forbidden = 422
status_code file_provisioning_pending = 503
status_code file_completion_pending = 503
status_code (forbidden c) = 403
status_code (not_found c) = 404
status_code (conflict c) = 409
status_code (domain c status) = status
status_code _ = 500
