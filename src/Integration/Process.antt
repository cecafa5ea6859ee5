-- ===== src/Integration/Process.antt =====
-- `IntegrationRequestProcessor.process` (backend/src/integrations/core/idempotency.py).
use text.Mathlib.Text.{◌==◌ as str_eq}
use bookkeeping.Base.{
  Bool, List, Option, Result, String, [], err, false, if◌then◌else◌, none, ok, some, true, ℕ, ◌∷◌,
}
use bookkeeping.Integration.Authenticate.{authenticate, or_empty}
use bookkeeping.Integration.Errors.{
  ErrorBody, IntegrationError, error_code, internal_error, response_body, status_code,
}
use bookkeeping.Integration.Replay.{ReplayClaim, ReplayRecord, claim, completed, fresh, replayed}
use bookkeeping.Integration.Requests.{AuthenticatedRequest, EventEnvelope, Libraries, Request}
use bookkeeping.Integration.Sessions.{
  Database, EventLog, EventStatus, RequestSession, commit, event_completed, event_failed,
  event_processing, event_rejected, event_replayed, opened_session, rollback, with_log,
}

-- What a handler comes to, with the rest of the database as it has left it in the session: an answer,
-- whose body is its canonical JSON text, an `IntegrationError`, or another exception.
pub data Handled (D : Type 0) : Type 0 where
  answered : ℕ → String → D → Handled D
  raised : IntegrationError → D → Handled D
  crashed : D → Handled D

pub data Body : Type 0 where
  handled : String → Body
  failed : ErrorBody → Body

pub record IntegrationResult : Type 0 where
  pub status_code : ℕ
  pub body : Body
  -- the header "Idempotency-Replayed"
  pub replayed_header : Bool

-- What the processor reads of its surroundings for one request.
pub record Arrival : Type 0 where
  pub request : Request
  pub request_id : String
  pub now : ℕ
  -- the cache as each round of waiting sees it
  pub seen : List (List ReplayRecord)

abbrev pub tenant_of : Option AuthenticatedRequest → Option ℕ
tenant_of none = none
tenant_of (some q) = some q.internal_tenant_id

abbrev pub connection_of : Option AuthenticatedRequest → Option ℕ
connection_of none = none
connection_of (some q) = some q.connection.id

abbrev pub envelope_field : (EventEnvelope → String) → Option AuthenticatedRequest → Option String
envelope_field f none = none
envelope_field f (some q) = some (f q.envelope)

abbrev pub event_of : Option AuthenticatedRequest → Request → Option String
event_of none r = r.event_header
event_of (some q) r = some q.envelope.event_id

abbrev pub key_of : Option AuthenticatedRequest → Request → Option String
key_of none r = r.key_header
key_of (some q) r = some q.envelope.idempotency_key

abbrev pub external_tenant_of : Option AuthenticatedRequest → Request → Option String
external_tenant_of none r = r.tenant_header
external_tenant_of (some q) r = some q.external_tenant_id

-- `json.loads(record.get_response_body() or "{}")`, the body as its JSON text.
abbrev pub stored_body : Libraries → Option String → String
stored_body lib none = "{}"
stored_body lib (some s) = let text = lib.decrypt_text s in if str_eq text "" then "{}" else text

-- The record of the claim with the answer.
abbrev pub completed_record : Libraries → ReplayRecord → ℕ → ℕ → String → ReplayRecord
completed_record lib r now status_code body = record r {
  status = completed;
  response_status = some status_code;
  response_hash = some (lib.sha256_hex body);
  response_body_encrypted = some (lib.encrypt_text body);
  processed_at = some now;
}

module _ (lib : Libraries) (name : String) where
  unfoldable pub write_log :
      Arrival
      → EventStatus
      → Option ℕ
      → Option AuthenticatedRequest
      → Option String
      → Option String
      → EventLog
  write_log a status response_status q response_hash error_code = record {
    request_id = a.request_id;
    tenant_id = tenant_of q;
    connection_id = connection_of q;
    integration_name = name;
    external_tenant_id = external_tenant_of q a.request;
    method = lib.upper a.request.method;
    path = a.request.path;
    event_id = event_of q a.request;
    idempotency_key = key_of q a.request;
    event_name = envelope_field (λ e. e.event_name) q;
    source_id = envelope_field (λ e. e.source_id) q;
    signature_hash = lib.sha256_hex (or_empty a.request.signature_header);
    payload_hash = lib.sha256_hex a.request.raw_body;
    response_hash = response_hash;
    response_status = response_status;
    error_code = error_code;
    status = status;
  }

module _ {D : Type 0} (lib : Libraries) (name : String)
    (handler : D → AuthenticatedRequest → Handled D) where
  -- The `except` branches: what the transaction has written is rolled back, and a row of the log is
  -- committed.
  unfoldable pub refuse_request :
      Arrival
      → RequestSession D
      → Option AuthenticatedRequest
      → EventStatus
      → IntegrationError
      → IntegrationResult × Database D
  unfolding write_log
  refuse_request a s q status e =
      let body =
        response_body e a.request_id (event_of q a.request) (external_tenant_of q a.request) in
      (
        record { status_code = status_code e; body = failed body; replayed_header = false },
        commit (
            with_log (rollback s) (
              write_log lib name a status (some (status_code e)) q
                (some (lib.sha256_hex (lib.canonical_json body))) (some (error_code e)))),
      )

  unfoldable pub replay_answer :
      Arrival
      → RequestSession D
      → AuthenticatedRequest
      → ReplayRecord
      → IntegrationResult × Database D
  unfolding write_log
  replay_answer a s q r = (
    record {
      status_code = 200;
      body = handled (stored_body lib r.response_body_encrypted);
      replayed_header = true;
    },
    commit
        (with_log s (write_log lib name a event_replayed (some 200) (some q) r.response_hash none)),
  )

  -- The session as the handler finds it: the claim's record and a row of the log are added.
  unfoldable pub claimed_session :
      Arrival → RequestSession D → AuthenticatedRequest → ReplayRecord → RequestSession D
  unfolding write_log
  claimed_session a s q r =
      with_log (record s { claimed = some r })
        (write_log lib name a event_processing none (some q) none none)

  -- After an answer the claim, the log and what the handler changed are committed together; after an
  -- exception what the handler changed is still in the session.
  unfoldable pub run_handler :
      Arrival
      → RequestSession D
      → AuthenticatedRequest
      → ReplayRecord
      → Handled D
      → IntegrationResult × Database D
  unfolding refuse_request write_log claimed_session
  run_handler a s q r (raised e domain) =
      refuse_request a (record (claimed_session a s q r) { domain = domain }) (some q)
        event_rejected e
  run_handler a s q r (crashed domain) =
      refuse_request a (record (claimed_session a s q r) { domain = domain }) (some q) event_failed
        internal_error
  run_handler a s q r (answered status_code body domain) = (
    record { status_code = status_code; body = handled body; replayed_header = false },
    commit (record (claimed_session a s q r) {
      claimed = some (completed_record lib r a.now status_code body);
      event_log = some (
          write_log lib name a event_completed (some status_code) (some q)
            (some (lib.sha256_hex body)) none);
      domain = domain;
    }),
  )

  unfoldable pub process_claim :
      Arrival
      → RequestSession D
      → AuthenticatedRequest
      → Result IntegrationError ReplayClaim
      → IntegrationResult × Database D
  unfolding run_handler replay_answer refuse_request
  process_claim a s q (err e) = refuse_request a s (some q) event_rejected e
  process_claim a s q (ok (replayed r)) = replay_answer a s q r
  process_claim a s q (ok (fresh r)) = run_handler a s q r (handler s.domain q)

  unfoldable pub process_authenticated :
      Arrival
      → Database D
      → Result IntegrationError AuthenticatedRequest
      → IntegrationResult × Database D
  unfolding process_claim refuse_request claim
  process_authenticated a db (err e) = refuse_request a (opened_session db) none event_rejected e
  process_authenticated a db (ok q) =
      process_claim a (opened_session db) q (claim db.replay_cache a.seen q a.now)

  unfoldable pub process : Arrival → Database D → IntegrationResult × Database D
  unfolding process_authenticated authenticate
  process a db = process_authenticated a db (authenticate lib name db.directory a.now a.request)

  -- One request after another.
  unfoldable pub serve : List Arrival → Database D → Database D
  unfolding process
  serve [] db = db
  serve (a ∷ rest) db = serve rest (process a db).1
