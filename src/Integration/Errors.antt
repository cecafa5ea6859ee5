-- ===== src/Integration/Errors.antt =====
-- The exceptions of backend/src/integrations/core/exceptions.py, and the answer to each.
use bookkeeping.Base.{Bool, List, Option, String, [], false, true, ℕ}

-- A validation error holds the fields of its details; the others' details are fixed texts.
pub data IntegrationError : Type 0 where
  validation_error : List String → IntegrationError
  authentication_failed signature_invalid timestamp_expired tenant_not_resolved : IntegrationError
  tenant_disabled replay_detected idempotency_conflict internal_error : IntegrationError

unfoldable pub status_code : IntegrationError → ℕ
status_code (validation_error _) = 400
status_code authentication_failed = 401
status_code signature_invalid = 403
status_code timestamp_expired = 403
status_code tenant_not_resolved = 403
status_code tenant_disabled = 403
status_code replay_detected = 409
status_code idempotency_conflict = 409
status_code internal_error = 500

unfoldable pub error_code : IntegrationError → String
error_code (validation_error _) = "VALIDATION_ERROR"
error_code authentication_failed = "AUTH_FAILED"
error_code signature_invalid = "SIGNATURE_INVALID"
error_code timestamp_expired = "TIMESTAMP_EXPIRED"
error_code tenant_not_resolved = "TENANT_NOT_RESOLVED"
error_code tenant_disabled = "TENANT_DISABLED"
error_code replay_detected = "REPLAY_DETECTED"
error_code idempotency_conflict = "IDEMPOTENCY_CONFLICT"
error_code internal_error = "INTERNAL_ERROR"

unfoldable pub is_retryable : IntegrationError → Bool
is_retryable internal_error = true
is_retryable _ = false

pub record ErrorBody : Type 0 where
  pub code : String
  pub fields : List String
  pub retryable : Bool
  pub request_id : String
  pub event_id : Option String
  pub tenant_id : Option String

abbrev pub detail_fields : IntegrationError → List String
detail_fields (validation_error fs) = fs
detail_fields _ = []

unfoldable pub response_body : IntegrationError → String → Option String → Option String → ErrorBody
unfolding error_code is_retryable
response_body e request_id event_id tenant_id = record {
  code = error_code e;
  fields = detail_fields e;
  retryable = is_retryable e;
  request_id = request_id;
  event_id = event_id;
  tenant_id = tenant_id;
}
