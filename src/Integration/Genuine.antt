-- ===== src/Integration/Genuine.antt =====
-- What an authenticated request has shown.
use bookkeeping.Base.{
  String, ap, bind-ok, codes, length, ok, ok-injective, refl, some, true, ℕ, ◌*◌, ◌∙◌, ◌≡◌, ◌≤◌,
}
use bookkeeping.Gst.Modes.{Tenant, find_tenant}
use bookkeeping.Integration.Authenticate.{
  Directory, authenticate, canonical_key, checked_key, create_signature, inconsistencies,
  is_enabled, matched, raise_details, read_envelope, resolve_tenant, skew, validate_timestamp,
  verify_signature, with_offset,
}
use bookkeeping.Integration.Requests.{AuthenticatedRequest, Libraries, Request}
use bookkeeping.Integration.Shown.{
  checked_key_ok, consistent, matched_ok, raise_details_ok, read_envelope_ok, resolve_tenant_ok,
  validate_timestamp_ok, verify_signature_ok,
}
use bookkeeping.Posting.Effect.{on}

-- Everything that a request has to show: a key of 32 to 256 characters that the connection was made
-- for, an enabled connection of this integration with a live tenant, a time within the allowed skew, the
-- signature of this time, method, path and body under the connection's secret, and an envelope in the
-- body that agrees with the headers and holds the canonical key.
pub record Genuine (lib : Libraries) (name : String) (db : Directory) (now : ℕ) (r : Request)
    (q : AuthenticatedRequest) : Type 0 where
  pub key : String
  pub key_sent : r.api_key_header ≡ some key
  pub key_length : (32 ≤ length (codes key)) × (length (codes key) ≤ 256)
  pub key_matches : q.connection.api_key_hash ≡ lib.sha256_hex key
  pub own : q.connection.integration_name ≡ name
  pub switched_on : is_enabled q.connection.status ≡ true
  pub tenant : Tenant
  pub live : find_tenant q.connection.tenant_id db.tenants ≡ some tenant
  pub tenant_id : q.internal_tenant_id ≡ tenant.id
  pub timestamp : String
  pub timestamp_sent : r.timestamp_header ≡ some timestamp
  pub time : ℕ
  pub time_read : lib.fromisoformat (with_offset timestamp) ≡ some time
  pub recent : skew now time ≤ q.connection.clock_skew_seconds * 1_000_000
  pub signed :
      r.signature_header
      ≡ some (
          create_signature lib
            (lib.decrypt_text q.connection.hmac_secret_encrypted)
            timestamp
            r.method
            r.path
            r.raw_body)
  pub read : lib.parse_envelope r.raw_body ≡ some q.envelope
  pub tenant_header : r.tenant_header ≡ some q.connection.external_tenant_id
  pub tenant_named : r.tenant_header ≡ some q.envelope.tenant_id
  pub event_named : r.event_header ≡ some q.envelope.event_id
  pub key_named : r.key_header ≡ some q.envelope.idempotency_key
  pub canonical : q.envelope.idempotency_key ≡ canonical_key q.envelope
  pub hashed : q.request_hash ≡ lib.sha256_hex r.raw_body

-- A request that is authenticated is genuine: it has sent a key of 32 to 256 characters that its
-- enabled connection of this integration was made for, a time within the connection's skew, the
-- signature of that time, the method, path and body under the connection's secret, and headers that
-- agree with the envelope in the body, whose key is the canonical one.
pub authenticate-Genuine :
    (lib : Libraries) (name : String) (db : Directory) (now : ℕ) (r : Request)
    {q : AuthenticatedRequest}
    → authenticate lib name db now r ≡ ok q
    → Genuine lib name db now r q
unfolding authenticate
authenticate-Genuine lib name db now r {q} h =
    let (key, a, h1) = bind-ok (checked_key r.api_key_header) _ h in
    let (resolved, b, h2) = bind-ok (resolve_tenant lib name db r.tenant_header key) _ h1 in
    let (found, c, h3) = bind-ok (matched lib key resolved) _ h2 in
    let (timestamp, d, h4) =
      bind-ok (validate_timestamp lib now r.timestamp_header found.0.clock_skew_seconds) _ h3 in
    let (u, f, h5) =
      bind-ok
        (verify_signature lib r.signature_header (lib.decrypt_text found.0.hmac_secret_encrypted)
          timestamp r.method r.path r.raw_body)
        _ h4 in
    let (envelope, g, h6) = bind-ok (read_envelope (lib.parse_envelope r.raw_body)) _ h5 in
    let (w, k, last) = bind-ok (raise_details (inconsistencies r envelope)) _ h6 in
    let made = ok-injective last in
    let (sent, least, most) = checked_key_ok r.api_key_header a in
    let (some_found, hash) = matched_ok lib key resolved c in
    let (header, own, on, live) =
      resolve_tenant_ok lib name db r.tenant_header key (b ∙ ap ok some_found) in
    let (timestamp_sent, (time, time_read, recent)) =
      validate_timestamp_ok lib now r.timestamp_header found.0.clock_skew_seconds d in
    let (tenant_named, event_named, key_named, canonical) =
      consistent r envelope (raise_details_ok (inconsistencies r envelope) k) in
    rw (← made) (record {
      key = key;
      key_sent = sent;
      key_length = (least, most);
      key_matches = hash;
      own = own;
      switched_on = on;
      tenant = found.1;
      live = live;
      tenant_id = refl;
      timestamp = timestamp;
      timestamp_sent = timestamp_sent;
      time = time;
      time_read = time_read;
      recent = recent;
      signed = verify_signature_ok lib r.signature_header _ timestamp r.method r.path r.raw_body f;
      read = read_envelope_ok (lib.parse_envelope r.raw_body) g;
      tenant_header = header;
      tenant_named = tenant_named;
      event_named = event_named;
      key_named = key_named;
      canonical = canonical;
      hashed = refl;
    })
