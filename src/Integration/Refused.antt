-- ===== src/Integration/Refused.antt =====
-- Requests that are refused.
use text.Mathlib.Text.{◌==◌ as str_eq}
use bookkeeping.Base.{List, Result, String, arith, err, false, ok, refl, some, ℕ, ◌∷◌, ◌≡◌}
use bookkeeping.Integration.Again.{
  Found, Found-completed, any_of-one_or_none, process_answered, serve-Found, serve-directory,
}
use bookkeeping.Integration.Authenticate.{authenticate}
use bookkeeping.Integration.Errors.{ErrorBody, IntegrationError, replay_detected, status_code}
use bookkeeping.Integration.Process.{
  Arrival, Handled, IntegrationResult, answered, claimed_session, completed_record, crashed, failed,
  process, process_authenticated, process_claim, raised, refuse_request, replay_answer, run_handler,
  serve, write_log,
}
use bookkeeping.Integration.Sessions.{Database, EventLog, logged, opened_session}
use bookkeeping.Integration.Replay.{
  ReplayClaim, ReplayRecord, claim, claim_existing, event_record, fresh, is_exact, is_taken,
  new_record, replayed, same_event,
}
use bookkeeping.Integration.Requests.{AuthenticatedRequest, Libraries}
use bookkeeping.Inventory.Warehouses.{later}

-- The answer is an error's, and nothing but the log has changed.
pub record Refused {D : Type 0} (e : IntegrationError) (db : Database D)
    (x : IntegrationResult × Database D) : Type 0 where
  pub error_status : x.0.status_code ≡ status_code e
  pub domain_kept : x.1.domain ≡ db.domain
  pub cache_kept : x.1.replay_cache ≡ db.replay_cache

-- Another request of the same event.
pub record SameEvent (q p : AuthenticatedRequest) : Type 0 where
  pub tenant : p.internal_tenant_id ≡ q.internal_tenant_id
  pub integration : p.connection.integration_name ≡ q.connection.integration_name
  pub event : p.envelope.event_id ≡ q.envelope.event_id

event_record_same :
    (q p : AuthenticatedRequest) (now later : ℕ) (cache : List ReplayRecord) (r : ReplayRecord)
    → SameEvent q p
    → event_record cache (new_record q now) ≡ some r
    → event_record cache (new_record p later) ≡ some r
unfolding new_record event_record
event_record_same q p now later cache r s h = rw (s.tenant, s.integration, s.event) h

is_exact_other :
    (lib : Libraries) (q p : AuthenticatedRequest) (now status_code : ℕ) (body : String)
    → str_eq q.request_hash p.request_hash ≡ false
    → is_exact (completed_record lib (new_record q now) now status_code body) p ≡ false
unfolding is_exact new_record
is_exact_other lib q p now status_code body h = ground (arith, h)

claim_differs :
    (cache : List ReplayRecord) (seen : List (List ReplayRecord)) (p : AuthenticatedRequest)
    (now : ℕ) (r : ReplayRecord)
    → event_record cache (new_record p now) ≡ some r
    → is_exact r p ≡ false
    → claim cache seen p now ≡ err replay_detected
unfolding claim claim_existing event_record
claim_differs cache seen p now r found other =
    rw (any_of-one_or_none (same_event (new_record p now)) cache found, found, other) refl

module _ {D : Type 0} (lib : Libraries) (name : String)
    (handler : D → AuthenticatedRequest → Handled D) where
  process_differs :
      (b : Arrival) (db : Database D) (p : AuthenticatedRequest) (e : IntegrationError)
      → authenticate lib name db.directory b.now b.request ≡ ok p
      → claim db.replay_cache b.seen p b.now ≡ err e
      → Refused e db (process lib name handler b db)
  unfolding process process_authenticated process_claim refuse_request write_log
  process_differs b db p e shown claimed =
      rw (shown, claimed) (record { error_status = refl; domain_kept = refl; cache_kept = refl })

  -- Once a request of an event was answered, a request of the same event, tenant and integration with
  -- another body is refused as a replay with 409, whatever is served in between: neither the handler's
  -- state nor the records change. The bodies are told apart by their hashes.
  pub reused_event-Refused :
      (a b : Arrival) (between : List Arrival) (db : Database D) (q p : AuthenticatedRequest)
      (status_code : ℕ) (body : String) (domain : D)
      → authenticate lib name db.directory a.now a.request ≡ ok q
      → is_taken db.replay_cache (new_record q a.now) ≡ false
      → handler db.domain q ≡ answered status_code body domain
      → authenticate lib name db.directory b.now b.request ≡ ok p
      → SameEvent q p
      → str_eq q.request_hash p.request_hash ≡ false
      → (let served = serve lib name handler (a ∷ between) db in
          Refused replay_detected served (process lib name handler b served))
  unfolding serve
  reused_event-Refused a b between db q p status_code body domain shown free answer again same
        other =
      let r = completed_record lib (new_record q a.now) a.now status_code body in
      let stored : Found (new_record q a.now) (process lib name handler a db).1.replay_cache r =
        rw (process_answered lib name handler a db q status_code body domain shown free answer)
          (Found-completed lib db.replay_cache (new_record q a.now) a.now status_code body free) in
      let served = serve lib name handler (a ∷ between) db in
      let found = serve-Found lib name handler between (process lib name handler a db).1 stored in
      process_differs b served p replay_detected
        (rw (serve-directory lib name handler (a ∷ between) db) again)
        (claim_differs served.replay_cache b.seen p b.now r
          (event_record_same q p a.now b.now served.replay_cache r same found.event_found)
          (is_exact_other lib q p a.now status_code body other))

-- All but the log is as before.
pub record AllButLog {D : Type 0} (db after : Database D) : Type 0 where
  pub same_domain : after.domain ≡ db.domain
  pub same_cache : after.replay_cache ≡ db.replay_cache
  pub same_directory : after.directory ≡ db.directory

logged-AllButLog : {D : Type 0} (db : Database D) (l : EventLog) → AllButLog db (logged db l)
logged-AllButLog db l = record { same_domain = refl; same_cache = refl; same_directory = refl }

module _ {D : Type 0} (lib : Libraries) (name : String)
    (handler : D → AuthenticatedRequest → Handled D) (a : Arrival) (db : Database D) where
  run_handler_failed :
      (q : AuthenticatedRequest) (r : ReplayRecord) (answer : Handled D) {e : ErrorBody}
      → (run_handler lib name handler a (opened_session db) q r answer).0.body ≡ failed e
      → AllButLog db (run_handler lib name handler a (opened_session db) q r answer).1
  unfolding run_handler refuse_request write_log claimed_session
  run_handler_failed q r (raised x written) h = logged-AllButLog db _
  run_handler_failed q r (crashed written) h = logged-AllButLog db _
  run_handler_failed q r (answered code body domain) h = cc

  process_claim_failed :
      (q : AuthenticatedRequest) (c : Result IntegrationError ReplayClaim) {e : ErrorBody}
      → (process_claim lib name handler a (opened_session db) q c).0.body ≡ failed e
      → AllButLog db (process_claim lib name handler a (opened_session db) q c).1
  unfolding process_claim refuse_request replay_answer write_log
  process_claim_failed q (err e) h = logged-AllButLog db _
  process_claim_failed q (ok (replayed r)) h = logged-AllButLog db _
  process_claim_failed q (ok (fresh r)) h = run_handler_failed q r _ h

  process_authenticated_failed :
      (r : Result IntegrationError AuthenticatedRequest) {e : ErrorBody}
      → (process_authenticated lib name handler a db r).0.body ≡ failed e
      → AllButLog db (process_authenticated lib name handler a db r).1
  unfolding process_authenticated refuse_request write_log
  process_authenticated_failed (err e) h = logged-AllButLog db _
  process_authenticated_failed (ok q) h = process_claim_failed q _ h

  -- Where a request is answered by an error, of the authentication, of the claim or of the handler,
  -- whatever the handler had written by then, the handler's state, the replay records and the
  -- directory are those from before.
  pub process_failed :
      {e : ErrorBody}
      → (process lib name handler a db).0.body ≡ failed e
      → AllButLog db (process lib name handler a db).1
  unfolding process
  process_failed h = process_authenticated_failed _ h
