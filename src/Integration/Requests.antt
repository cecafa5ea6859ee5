-- ===== src/Integration/Requests.antt =====
-- A request and its envelope, and the libraries that the code calls on them
-- (backend/src/integrations/core/auth.py, models.py and utils.py).
use bookkeeping.Base.{Option, String, ℕ, ◌≡◌}
use bookkeeping.Integration.Errors.{ErrorBody}

-- The envelope in the body. Its other fields are not read by this code.
pub record EventEnvelope : Type 0 where
  pub event_id : String
  pub event_name : String
  pub event_version : String
  pub tenant_id : String
  pub source_id : String
  pub idempotency_key : String

-- The headers that are read, and the body as a text.
pub record Request : Type 0 where
  pub api_key_header : Option String
  pub tenant_header : Option String
  pub event_header : Option String
  pub key_header : Option String
  pub timestamp_header : Option String
  pub signature_header : Option String
  pub method : String
  pub path : String
  pub raw_body : String

pub data ConnectionStatus : Type 0 where
  enabled disabled : ConnectionStatus

pub record IntegrationConnection : Type 0 where
  pub id : ℕ
  pub tenant_id : ℕ
  pub integration_name : String
  pub external_tenant_id : String
  pub api_key_hash : String
  pub hmac_secret_encrypted : String
  pub status : ConnectionStatus
  pub clock_skew_seconds : ℕ
  pub replay_retention_days : ℕ

pub record AuthenticatedRequest : Type 0 where
  pub connection : IntegrationConnection
  pub internal_tenant_id : ℕ
  pub external_tenant_id : String
  pub envelope : EventEnvelope
  pub request_hash : String
  pub signature_hash : String
  pub method : String
  pub path : String

-- What hashlib, hmac, Fernet, json with pydantic, and datetime do for the code. A time is a number of
-- microseconds.
pub record Libraries : Type 0 where
  pub sha256_hex : String → String
  pub hmac_sha256_hex : String → String → String
  pub encrypt_text : String → String
  pub decrypt_text : String → String
  pub upper : String → String
  -- `canonical_json_bytes` of the body of an error
  pub canonical_json : ErrorBody → String
  pub parse_envelope : String → Option EventEnvelope
  pub fromisoformat : String → Option ℕ
  -- a text that was encrypted is decrypted to itself
  pub decrypts : (s : String) → decrypt_text (encrypt_text s) ≡ s
