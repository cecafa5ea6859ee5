-- ===== src/Integration/Replay.antt =====
-- `ReplayService` (backend/src/integrations/core/replay.py) on the rows of `IntegrationReplayCache`.
use text.Mathlib.Text.{◌==◌ as str_eq}
use bookkeeping.Base.{
  Bool, List, Option, Result, String, [], any_of, err, false, if◌then◌else◌, none, not, ok, or_else,
  raise_if, some, suc, true, zero, ℕ, ◌&&◌, ◌*◌, ◌+◌, ◌==◌, ◌>>◌, ◌||◌, ◌∷◌,
}
use bookkeeping.Integration.Authenticate.{one_or_none}
use bookkeeping.Integration.Errors.{IntegrationError, idempotency_conflict, replay_detected}
use bookkeeping.Integration.Requests.{AuthenticatedRequest}

pub data ReplayStatus : Type 0 where
  processing completed : ReplayStatus

pub record ReplayRecord : Type 0 where
  pub tenant_id : ℕ
  pub connection_id : ℕ
  pub integration_name : String
  pub event_id : String
  pub idempotency_key : String
  pub event_name : String
  pub source_id : String
  pub method : String
  pub path : String
  pub signature_hash : String
  pub request_hash : String
  pub response_hash : Option String
  pub response_status : Option ℕ
  pub response_body_encrypted : Option String
  pub status : ReplayStatus
  pub processed_at : Option ℕ
  pub expires_at : ℕ

abbrev pub is_completed : ReplayStatus → Bool
is_completed completed = true
is_completed processing = false

-- 24 hours of 3600 seconds
abbrev pub day : ℕ
day = 86_400_000_000

unfoldable pub new_record : AuthenticatedRequest → ℕ → ReplayRecord
new_record q now = record {
  tenant_id = q.internal_tenant_id;
  connection_id = q.connection.id;
  integration_name = q.connection.integration_name;
  event_id = q.envelope.event_id;
  idempotency_key = q.envelope.idempotency_key;
  event_name = q.envelope.event_name;
  source_id = q.envelope.source_id;
  method = q.method;
  path = q.path;
  signature_hash = q.signature_hash;
  request_hash = q.request_hash;
  response_hash = none;
  response_status = none;
  response_body_encrypted = none;
  status = processing;
  processed_at = none;
  expires_at = now + q.connection.replay_retention_days * day;
}

abbrev pub same_owner : ReplayRecord → ReplayRecord → Bool
same_owner a b = b.tenant_id == a.tenant_id && str_eq b.integration_name a.integration_name

-- `uq_integration_replay_event` and `uq_integration_replay_idempotency`
abbrev pub same_event : ReplayRecord → ReplayRecord → Bool
same_event a b = same_owner a b && str_eq b.event_id a.event_id

abbrev pub same_key : ReplayRecord → ReplayRecord → Bool
same_key a b = same_owner a b && str_eq b.idempotency_key a.idempotency_key

-- The records that the two queries look for, by the record that could not be added.
unfoldable pub event_record : List ReplayRecord → ReplayRecord → Option ReplayRecord
event_record cache new = one_or_none (same_event new) cache

unfoldable pub key_record : List ReplayRecord → ReplayRecord → Option ReplayRecord
key_record cache new = one_or_none (same_key new) cache

unfoldable pub is_exact : ReplayRecord → AuthenticatedRequest → Bool
is_exact r q =
    str_eq r.event_id q.envelope.event_id
    && str_eq r.idempotency_key q.envelope.idempotency_key
    && r.tenant_id == q.internal_tenant_id
    && str_eq r.event_name q.envelope.event_name
    && str_eq r.source_id q.envelope.source_id
    && str_eq r.method q.method
    && str_eq r.path q.path
    && str_eq r.request_hash q.request_hash

-- `record is not None and not self._is_exact(record, request)`
abbrev pub differs : Option ReplayRecord → AuthenticatedRequest → Bool
differs none q = false
differs (some r) q = not (is_exact r q)

abbrev pub is_settled : Option ReplayRecord → Bool
is_settled none = true
is_settled (some r) = is_completed r.status

-- The rounds left of `_wait_for_completed_record`. What other sessions have committed by each round is
-- given: the cache as the query of that round sees it.
unfoldable pub wait_for_completed_record :
    ℕ → List (List ReplayRecord) → ReplayRecord → Option ReplayRecord → Option ReplayRecord
unfolding event_record
wait_for_completed_record zero seen new existing = existing
wait_for_completed_record (suc rounds) [] new existing = existing
wait_for_completed_record (suc rounds) (cache ∷ seen) new existing =
    let found = event_record cache new in
    let waited = wait_for_completed_record rounds seen new found in
    if is_settled found then found else waited

abbrev pub wait_rounds : ℕ
wait_rounds = 100

pub data ReplayClaim : Type 0 where
  -- `ReplayClaim(record, replayed=False)`: the record was added
  fresh : ReplayRecord → ReplayClaim
  -- `ReplayClaim(record, replayed=True)`
  replayed : ReplayRecord → ReplayClaim

-- The last tests of `claim`, on the record that the waiting ended with.
abbrev pub replay_completed : Option ReplayRecord → Result IntegrationError ReplayClaim
replay_completed none = err replay_detected
replay_completed (some r) = if is_completed r.status then ok (replayed r) else err replay_detected

abbrev pub is_processing : Option ReplayRecord → Bool
is_processing none = false
is_processing (some r) = not (is_completed r.status)

-- Whether the insertion violates a unique key.
abbrev pub is_taken : List ReplayRecord → ReplayRecord → Bool
is_taken cache new = any_of (same_event new) cache || any_of (same_key new) cache

unfoldable pub claim_existing :
    List ReplayRecord
    → List (List ReplayRecord)
    → AuthenticatedRequest
    → ReplayRecord
    → Result IntegrationError ReplayClaim
unfolding event_record key_record
claim_existing cache seen q new = do
  raise_if (differs (event_record cache new) q) replay_detected
  raise_if (differs (key_record cache new) q) idempotency_conflict
  let existing = or_else (event_record cache new) (key_record cache new)
  let waited = wait_for_completed_record wait_rounds seen new existing
  replay_completed (if is_processing existing then waited else existing)

-- The claim alone; a fresh record is added to the cache by the caller of this function.
unfoldable pub claim :
    List ReplayRecord
    → List (List ReplayRecord)
    → AuthenticatedRequest
    → ℕ
    → Result IntegrationError ReplayClaim
unfolding new_record
claim cache seen q now =
    if is_taken cache (new_record q now)
    then claim_existing cache seen q (new_record q now)
    else ok (fresh (new_record q now))
