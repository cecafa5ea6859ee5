-- ===== src/Tests/IntegrationTests.antt =====
-- A connection, its requests, and a handler that counts.
use text.Mathlib.Text.{◌==◌ as str_eq}
use bookkeeping.Base.{String, [], false, if◌then◌else◌, none, ok, refl, some, ℕ, ◌+◌, ◌∷◌, ◌≡◌, ◌≤◌}
use bookkeeping.Gst.Modes.{Tenant, find_tenant, gst_regular}
use bookkeeping.Integration.Again.{Replayed, repeated_request-Replayed}
use bookkeeping.Integration.Authenticate.{
  Directory, authenticate, canonical_key, canonical_signature_input, create_signature,
  inconsistencies, is_signature, mapped_tenant, one_or_none, resolve_tenant, validate_timestamp,
  verify_signature,
}
use bookkeeping.Integration.Effect.{Effect, process-Effect}
use bookkeeping.Integration.Errors.{internal_error, replay_detected, response_body}
use bookkeeping.Integration.Genuine.{Genuine, authenticate-Genuine}
use bookkeeping.Integration.Once.{by_event, completed_once, completes, count, new_database}
use bookkeeping.Integration.Process.{
  Arrival, Handled, answered, claimed_session, crashed, failed, process, process_authenticated,
  process_claim, refuse_request, run_handler, serve, write_log,
}
use bookkeeping.Integration.Sessions.{Database}
use bookkeeping.Integration.Refused.{AllButLog, Refused, process_failed, reused_event-Refused}
use bookkeeping.Integration.Replay.{claim, is_taken, new_record}
use bookkeeping.Integration.Requests.{
  AuthenticatedRequest, EventEnvelope, IntegrationConnection, Libraries, Request, enabled,
}

abbrev envelope : EventEnvelope
envelope = record {
  event_id = "evt-1";
  event_name = "invoice.created";
  event_version = "v1";
  tenant_id = "shop";
  source_id = "7";
  idempotency_key = "shop:invoice.created:7:v1";
}

-- Texts stand for their hashes and for their encryption.
abbrev plain : Libraries
plain = record {
  sha256_hex = λ s. s;
  hmac_sha256_hex = λ k s. "aaaaaaaaaaaaaaaaaaaaaaaaaaaaaaaaaaaaaaaaaaaaaaaaaaaaaaaaaaaaaaaa";
  encrypt_text = λ s. s;
  decrypt_text = λ s. s;
  upper = λ s. s;
  canonical_json = λ b. b.code;
  parse_envelope = λ s. if str_eq s "" then none else some envelope;
  fromisoformat = λ s. some 5_000_000;
  decrypts = λ s. refl;
}

abbrev api_key : String
api_key = "0123456789abcdef0123456789abcdef"

abbrev request_of : String → Request
request_of raw_body = record {
  api_key_header = some api_key;
  tenant_header = some "shop";
  event_header = some "evt-1";
  key_header = some "shop:invoice.created:7:v1";
  timestamp_header = some "2026-01-01T00:00:00Z";
  signature_header = some "sha256=aaaaaaaaaaaaaaaaaaaaaaaaaaaaaaaaaaaaaaaaaaaaaaaaaaaaaaaaaaaaaaaa";
  method = "POST";
  path = "/events";
  raw_body = raw_body;
}

abbrev shop_connection : IntegrationConnection
shop_connection = record {
  id = 3;
  tenant_id = 1;
  integration_name = "cartunez";
  external_tenant_id = "shop";
  api_key_hash = api_key;
  hmac_secret_encrypted = "secret";
  status = enabled;
  clock_skew_seconds = 300;
  replay_retention_days = 30;
}

abbrev shop : Tenant
shop = record { id = 1; tax_mode = gst_regular; deleted = false }

abbrev directory_of_shop : Directory
directory_of_shop = record { connections = shop_connection ∷ []; tenants = shop ∷ [] }

abbrev arrival_of : String → ℕ → Arrival
arrival_of raw_body now = record {
  request = request_of raw_body;
  request_id = "req";
  now = now;
  seen = [];
}

abbrev authenticated_of : String → AuthenticatedRequest
authenticated_of raw_body = record {
  connection = shop_connection;
  internal_tenant_id = 1;
  external_tenant_id = "shop";
  envelope = envelope;
  request_hash = raw_body;
  signature_hash = "sha256=aaaaaaaaaaaaaaaaaaaaaaaaaaaaaaaaaaaaaaaaaaaaaaaaaaaaaaaaaaaaaaaa";
  method = "POST";
  path = "/events";
}

abbrev counting : ℕ → AuthenticatedRequest → Handled ℕ
counting n q = answered 201 "{\"ok\":true}" (n + 1)

abbrev fresh_database : Database ℕ
fresh_database = new_database directory_of_shop 0

first_authenticated :
    authenticate plain "cartunez" directory_of_shop 0 (request_of "a") ≡ ok (authenticated_of "a")
unfolding authenticate resolve_tenant one_or_none mapped_tenant find_tenant validate_timestamp
    verify_signature is_signature create_signature canonical_signature_input inconsistencies
    canonical_key
first_authenticated = refl

later_authenticated :
    authenticate plain "cartunez" directory_of_shop 9_000_000 (request_of "a")
    ≡ ok (authenticated_of "a")
unfolding authenticate resolve_tenant one_or_none mapped_tenant find_tenant validate_timestamp
    verify_signature is_signature create_signature canonical_signature_input inconsistencies
    canonical_key
later_authenticated = refl

other_authenticated :
    authenticate plain "cartunez" directory_of_shop 9_000_000 (request_of "b")
    ≡ ok (authenticated_of "b")
unfolding authenticate resolve_tenant one_or_none mapped_tenant find_tenant validate_timestamp
    verify_signature is_signature create_signature canonical_signature_input inconsistencies
    canonical_key
other_authenticated = refl

authenticate-Genuine_example :
    Genuine plain "cartunez" directory_of_shop 0 (request_of "a") (authenticated_of "a")
authenticate-Genuine_example =
    authenticate-Genuine plain "cartunez" directory_of_shop 0 (request_of "a") first_authenticated

process-Effect_example :
    Effect plain "cartunez" counting
      (arrival_of "a" 0)
      fresh_database
      (process plain "cartunez" counting (arrival_of "a" 0) fresh_database).1
process-Effect_example = process-Effect plain "cartunez" counting (arrival_of "a" 0) fresh_database

completed_once_example :
    count
      (completes by_event 1 "evt-1")
      (serve plain "cartunez" counting
        (arrival_of "a" 0 ∷ arrival_of "b" 0 ∷ arrival_of "a" 9_000_000 ∷ [])
        fresh_database).event_log
    ≤ 1
completed_once_example =
    completed_once plain "cartunez" counting
      (arrival_of "a" 0 ∷ arrival_of "b" 0 ∷ arrival_of "a" 9_000_000 ∷ []) directory_of_shop 0
      by_event 1 "evt-1"

untaken_at_first :
    is_taken fresh_database.replay_cache (new_record (authenticated_of "a") 0) ≡ false
untaken_at_first = refl

repeated_request-Replayed_example :
    (let served =
        serve plain "cartunez" counting (arrival_of "a" 0 ∷ arrival_of "b" 1 ∷ []) fresh_database in
      Replayed "{\"ok\":true}" served
        (process plain "cartunez" counting (arrival_of "a" 9_000_000) served))
repeated_request-Replayed_example =
    repeated_request-Replayed plain "cartunez" counting (arrival_of "a" 0)
      (arrival_of "a" 9_000_000) (arrival_of "b" 1 ∷ []) fresh_database (authenticated_of "a")
      (authenticated_of "a") 201 "{\"ok\":true}" 1 first_authenticated untaken_at_first refl refl
      later_authenticated
      (record {
        tenant = refl;
        integration = refl;
        envelope = refl;
        method = refl;
        path = refl;
        hash = refl;
      })

reused_event-Refused_example :
    (let served = serve plain "cartunez" counting (arrival_of "a" 0 ∷ []) fresh_database in
      Refused replay_detected served
        (process plain "cartunez" counting (arrival_of "b" 9_000_000) served))
reused_event-Refused_example =
    reused_event-Refused plain "cartunez" counting (arrival_of "a" 0) (arrival_of "b" 9_000_000) []
      fresh_database (authenticated_of "a") (authenticated_of "b") 201 "{\"ok\":true}" 1
      first_authenticated untaken_at_first refl other_authenticated
      (record { tenant = refl; integration = refl; event = refl }) refl

-- Counts, and fails then.
abbrev crashing : ℕ → AuthenticatedRequest → Handled ℕ
crashing n q = crashed (n + 1)

crash_failed :
    (process plain "cartunez" crashing (arrival_of "a" 0) fresh_database).0.body
    ≡ failed (response_body internal_error "req" (some "evt-1") (some "shop"))
unfolding process process_authenticated process_claim claim run_handler claimed_session
    refuse_request write_log response_body new_record authenticate resolve_tenant one_or_none
    mapped_tenant find_tenant validate_timestamp verify_signature is_signature create_signature
    canonical_signature_input inconsistencies canonical_key
crash_failed = refl

process_failed_example :
    AllButLog fresh_database (process plain "cartunez" crashing (arrival_of "a" 0) fresh_database).1
process_failed_example =
    process_failed plain "cartunez" crashing (arrival_of "a" 0) fresh_database crash_failed
