-- ===== src/Integration/Authenticate.antt =====
-- `TenantResolver.resolve`, `verify_signature` and `IntegrationAuthenticator.authenticate`
-- (backend/src/integrations/core/tenant.py, signatures.py and auth.py).
use Prim.Native.String.{◌++◌ as concat, len, slice}
use text.Mathlib.Text.{◌==◌ as str_eq}
use bookkeeping.Base.{
  Bool, List, Option, Result, String, [], any_of, codes, err, false, if◌then◌else◌, leb, length,
  ltb, none, not, ok, raise_if, some, true, ℕ, ◌&&◌, ◌*◌, ◌++◌, ◌+◌, ◌-◌, ◌==◌, ◌>>=◌, ◌>>◌, ◌||◌,
  ◌∷◌,
}
use bookkeeping.Gst.Modes.{Tenant, find_tenant}
use bookkeeping.Integration.Errors.{
  IntegrationError, authentication_failed, signature_invalid, tenant_disabled, tenant_not_resolved,
  timestamp_expired, validation_error,
}
use bookkeeping.Integration.Requests.{
  AuthenticatedRequest, ConnectionStatus, EventEnvelope, IntegrationConnection, Libraries, Request,
  disabled, enabled,
}

-- The tables that are read.
pub record Directory : Type 0 where
  pub connections : List IntegrationConnection
  pub tenants : List Tenant

abbrev pub is_opt : Option String → String → Bool
is_opt none t = false
is_opt (some s) t = str_eq s t

-- `query(...).one_or_none()`: the filters are a unique key, so the first row is the only one.
unfoldable pub one_or_none {ℓ} : {A : Type ℓ} → (A → Bool) → List A → Option A
one_or_none test [] = none
one_or_none test (x ∷ xs) = if test x then some x else one_or_none test xs

abbrev pub is_connection : String → String → String → IntegrationConnection → Bool
is_connection name external_tenant_id api_key_hash c =
    str_eq c.integration_name name
    && str_eq c.external_tenant_id external_tenant_id
    && str_eq c.api_key_hash api_key_hash

abbrev pub is_client : String → String → IntegrationConnection → Bool
is_client name api_key_hash c = str_eq c.integration_name name && str_eq c.api_key_hash api_key_hash

abbrev pub is_enabled : ConnectionStatus → Bool
is_enabled enabled = true
is_enabled disabled = false

-- `if not external_tenant_id`
abbrev pub named : Option String → Result IntegrationError String
named none = err tenant_not_resolved
named (some s) = if str_eq s "" then err tenant_not_resolved else ok s

-- The tenant of an enabled connection.
unfoldable pub mapped_tenant :
    Directory → IntegrationConnection → Result IntegrationError (IntegrationConnection × Tenant)
mapped_tenant db connection = do
  raise_if (not (is_enabled connection.status)) tenant_disabled
  elim (find_tenant connection.tenant_id db.tenants) [
    | none ↦ err tenant_disabled
    | some tenant ↦ ok (connection, tenant)
  ]

-- No connection and no tenant is the source's `None, None`.
unfoldable pub resolve_tenant :
    Libraries
    → String
    → Directory
    → Option String
    → String
    → Result IntegrationError (Option (IntegrationConnection × Tenant))
unfolding mapped_tenant one_or_none
resolve_tenant lib name db header api_key = do
  external_tenant_id ← named header
  let api_key_hash = lib.sha256_hex api_key
  elim (one_or_none (is_connection name external_tenant_id api_key_hash) db.connections) [
    | none ↦
        raise_if (any_of (is_client name api_key_hash) db.connections) tenant_not_resolved
        >> ok none
    | some connection ↦ mapped_tenant db connection >>= λ found. ok (some found)
  ]

abbrev pub is_lower_hex : ℕ → Bool
is_lower_hex c = (leb 48 c && leb c 57) || (leb 97 c && leb c 102)

abbrev pub after_prefix : List ℕ → List ℕ → Option (List ℕ)
after_prefix [] cs = some cs
after_prefix (p ∷ ps) [] = none
after_prefix (p ∷ ps) (c ∷ cs) = if p == c then after_prefix ps cs else none

abbrev pub are_hex : List ℕ → Bool
are_hex [] = true
are_hex (c ∷ cs) = is_lower_hex c && are_hex cs

abbrev pub is_digest : Option (List ℕ) → Bool
is_digest none = false
is_digest (some cs) = length cs == 64 && are_hex cs

-- `SIGNATURE_PATTERN.fullmatch`
unfoldable pub is_signature : String → Bool
is_signature s = is_digest (after_prefix (codes "sha256=") (codes s))

unfoldable pub canonical_signature_input : Libraries → String → String → String → String → String
canonical_signature_input lib timestamp method raw_path raw_body =
    concat timestamp
      (concat "." (concat (lib.upper method) (concat "." (concat raw_path (concat "." raw_body)))))

unfoldable pub create_signature : Libraries → String → String → String → String → String → String
unfolding canonical_signature_input
create_signature lib secret timestamp method raw_path raw_body =
    concat "sha256=" (
      lib.hmac_sha256_hex secret (canonical_signature_input lib timestamp method raw_path raw_body))

unfoldable pub verify_signature :
    Libraries
    → Option String
    → String
    → String
    → String
    → String
    → String
    → Result IntegrationError (Unit {0})
unfolding is_signature
verify_signature lib none secret timestamp method raw_path raw_body = err signature_invalid
verify_signature lib (some supplied) secret timestamp method raw_path raw_body = do
  raise_if (not (is_signature supplied)) signature_invalid
  raise_if (not (str_eq supplied (create_signature lib secret timestamp method raw_path raw_body)))
      signature_invalid

-- `value.endswith("Z")` and `value[:-1] + "+00:00"`
abbrev pub ends_with_z : String → Bool
ends_with_z s = str_eq (slice s (len s - 1) (len s)) "Z"

abbrev pub with_offset : String → String
with_offset s = concat (slice s 0 (len s - 1)) "+00:00"

-- The distance of two times.
abbrev pub skew : ℕ → ℕ → ℕ
skew a b = (a - b) + (b - a)

unfoldable pub validate_timestamp :
    Libraries → ℕ → Option String → ℕ → Result IntegrationError String
validate_timestamp lib now none maximum_skew_seconds = err timestamp_expired
validate_timestamp lib now (some value) maximum_skew_seconds = do
  raise_if (not (ends_with_z value)) timestamp_expired
  elim (lib.fromisoformat (with_offset value)) [
    | none ↦ err timestamp_expired
    | some parsed ↦
        raise_if (ltb (maximum_skew_seconds * 1_000_000) (skew now parsed)) timestamp_expired
        >> ok value
  ]

abbrev pub read_envelope : Option EventEnvelope → Result IntegrationError EventEnvelope
read_envelope none = err (validation_error ("event_envelope" ∷ []))
read_envelope (some e) = ok e

abbrev pub detail_if : Bool → String → List String
detail_if true field = field ∷ []
detail_if false field = []

unfoldable pub canonical_key : EventEnvelope → String
canonical_key e = concat e.tenant_id (
    concat ":" (concat e.event_name (concat ":" (concat e.source_id (concat ":" e.event_version)))))

-- The details of what does not match, in the order of the checks.
unfoldable pub inconsistencies : Request → EventEnvelope → List String
inconsistencies r e =
    detail_if (not (is_opt r.tenant_header e.tenant_id)) "X-Tenant-Id"
    ++ (detail_if (not (is_opt r.event_header e.event_id)) "X-Event-Id"
        ++ (detail_if (not (is_opt r.key_header e.idempotency_key)) "X-Idempotency-Key"
            ++ (detail_if (not (str_eq e.idempotency_key (canonical_key e))) "idempotency_key"
                ++ detail_if (not (str_eq e.event_version "v1")) "event_version")))

abbrev pub raise_details : List String → Result IntegrationError (Unit {0})
raise_details [] = ok tt
raise_details (d ∷ ds) = err (validation_error (d ∷ ds))

abbrev pub checked_key : Option String → Result IntegrationError String
checked_key none = err authentication_failed
checked_key (some k) =
    if leb 32 (length (codes k)) && leb (length (codes k)) 256
    then ok k
    else err authentication_failed

-- `connection is None or not connection.matches_api_key(api_key)`
abbrev pub matched :
    Libraries
    → String
    → Option (IntegrationConnection × Tenant)
    → Result IntegrationError (IntegrationConnection × Tenant)
matched lib api_key none = err authentication_failed
matched lib api_key (some (c, t)) =
    if str_eq c.api_key_hash (lib.sha256_hex api_key) then ok (c, t) else err authentication_failed

abbrev pub or_empty : Option String → String
or_empty none = ""
or_empty (some s) = s

unfoldable pub authenticate :
    Libraries → String → Directory → ℕ → Request → Result IntegrationError AuthenticatedRequest
authenticate lib name db now r = do
  api_key ← checked_key r.api_key_header
  resolved ← resolve_tenant lib name db r.tenant_header api_key
  found ← matched lib api_key resolved
  timestamp ← validate_timestamp lib now r.timestamp_header found.0.clock_skew_seconds
  verify_signature lib r.signature_header (lib.decrypt_text found.0.hmac_secret_encrypted) timestamp
      r.method r.path r.raw_body
  envelope ← read_envelope (lib.parse_envelope r.raw_body)
  raise_details (inconsistencies r envelope)
  ok (record {
    connection = found.0;
    internal_tenant_id = found.1.id;
    external_tenant_id = envelope.tenant_id;
    envelope = envelope;
    request_hash = lib.sha256_hex r.raw_body;
    signature_hash = lib.sha256_hex (or_empty r.signature_header);
    method = lib.upper r.method;
    path = r.path;
  })
