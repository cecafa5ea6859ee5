-- ===== src/Integration/Sessions.antt =====
-- The database and the session of a request: the rows of backend/src/integrations/core/models.py, and
-- what `IntegrationRequestProcessor.process` (idempotency.py beside it) does with the transaction.
use bookkeeping.Base.{List, Option, String, [], none, some, ℕ, ◌++◌, ◌∷◌}
use bookkeeping.Integration.Authenticate.{Directory}
use bookkeeping.Integration.Replay.{ReplayRecord}

pub data EventStatus : Type 0 where
  event_processing event_completed event_replayed event_rejected event_failed : EventStatus

-- A row of `IntegrationEventLog`. Its times are left out.
pub record EventLog : Type 0 where
  pub request_id : String
  pub tenant_id : Option ℕ
  pub connection_id : Option ℕ
  pub integration_name : String
  pub external_tenant_id : Option String
  pub method : String
  pub path : String
  pub event_id : Option String
  pub idempotency_key : Option String
  pub event_name : Option String
  pub source_id : Option String
  pub signature_hash : String
  pub payload_hash : String
  pub response_hash : Option String
  pub response_status : Option ℕ
  pub error_code : Option String
  pub status : EventStatus

-- The rows that the code reads and writes, and all else that a handler may change.
pub record Database (D : Type 0) : Type 0 where
  pub directory : Directory
  pub replay_cache : List ReplayRecord
  pub event_log : List EventLog
  pub domain : D

-- The session of a request: the committed rows, the record of the claim and the row of the log where
-- the transaction has added them, and the rest as the transaction sees it.
pub record RequestSession (D : Type 0) : Type 0 where
  pub committed : Database D
  pub claimed : Option ReplayRecord
  pub event_log : Option EventLog
  pub domain : D

abbrev pub logged : {D : Type 0} → Database D → EventLog → Database D
logged db l = record db { event_log = db.event_log ++ l ∷ [] }

abbrev pub opened_session : {D : Type 0} → Database D → RequestSession D
opened_session db = record { committed = db; claimed = none; event_log = none; domain = db.domain }

-- `db.add` of a row of the log
abbrev pub with_log : {D : Type 0} → RequestSession D → EventLog → RequestSession D
with_log s l = record s { event_log = some l }

-- `db.rollback()`
abbrev pub rollback : {D : Type 0} → RequestSession D → RequestSession D
rollback s = record s { claimed = none; event_log = none; domain = s.committed.domain }

abbrev pub with_row {ℓ} : {A : Type ℓ} → List A → Option A → List A
with_row rows none = rows
with_row rows (some row) = rows ++ row ∷ []

-- `db.commit()`: the committed rows from then on.
abbrev pub commit : {D : Type 0} → RequestSession D → Database D
commit s = record s.committed {
  replay_cache = with_row s.committed.replay_cache s.claimed;
  event_log = with_row s.committed.event_log s.event_log;
  domain = s.domain;
}
