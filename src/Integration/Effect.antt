-- ===== src/Integration/Effect.antt =====
-- What one processed request does to the database.
use bookkeeping.Base.{
  Bool, Bool-cases, List, Option, Result, String, [], arith, bind-ok, err, false, inl, inr, none,
  ok, ok-injective, raise_if, refl, some, true, ℕ, ◌++◌, ◌∷◌, ◌≡◌,
}
use bookkeeping.Integration.Authenticate.{authenticate}
use bookkeeping.Integration.Errors.{
  IntegrationError, idempotency_conflict, replay_detected, status_code,
}
use bookkeeping.Integration.Genuine.{Genuine, authenticate-Genuine}
use bookkeeping.Integration.Process.{
  Arrival, Handled, answered, claimed_session, completed_record, crashed, process,
  process_authenticated, process_claim, raised, refuse_request, replay_answer, run_handler,
  write_log,
}
use bookkeeping.Integration.Sessions.{
  Database, EventLog, EventStatus, event_completed, logged, opened_session,
}
use bookkeeping.Integration.Replay.{
  ReplayClaim, ReplayRecord, claim, claim_existing, differs, event_record, fresh, is_taken,
  key_record, new_record, replay_completed, replayed,
}
use bookkeeping.Integration.Requests.{AuthenticatedRequest, Libraries}

abbrev pub is_completion : EventStatus → Bool
is_completion event_completed = true
is_completion _ = false

-- The database after an answer of the handler.
abbrev pub with_answer :
    {D : Type 0}
    → Libraries
    → String
    → Arrival
    → Database D
    → AuthenticatedRequest
    → ℕ
    → String
    → D
    → Database D
with_answer lib name a db q status_code body domain = record db {
  replay_cache =
      db.replay_cache ++ completed_record lib (new_record q a.now) a.now status_code body ∷ [];
  event_log =
      db.event_log
      ++ write_log lib name a event_completed (some status_code) (some q)
          (some (lib.sha256_hex body)) none
        ∷ [];
  domain = domain;
}

-- Either the log alone grows, by a row that is no completion; or the request was genuine, no record
-- held its event or its key, the handler has answered it, and the record, the completion and what the
-- handler did are stored together.
pub data Effect {D : Type 0} (lib : Libraries) (name : String)
    (handler : D → AuthenticatedRequest → Handled D) (a : Arrival) (db : Database D)
    : Database D → Type 0 where
  quiet :
      (l : EventLog) → is_completion l.status ≡ false → Effect lib name handler a db (logged db l)
  stored :
      (q : AuthenticatedRequest) (status_code : ℕ) (body : String) (domain : D)
      → Genuine lib name db.directory a.now a.request q
      → is_taken db.replay_cache (new_record q a.now) ≡ false
      → handler db.domain q ≡ answered status_code body domain
      → Effect lib name handler a db (with_answer lib name a db q status_code body domain)

replay_completed_stale :
    (o : Option ReplayRecord) {r : ReplayRecord} → replay_completed o ≡ ok (fresh r) → ⊥
replay_completed_stale none h = cc
replay_completed_stale (some x) h = ground arith

claim_existing_stale :
    (cache : List ReplayRecord) (seen : List (List ReplayRecord)) (q : AuthenticatedRequest)
    (new : ReplayRecord) {r : ReplayRecord}
    → claim_existing cache seen q new ≡ ok (fresh r)
    → ⊥
unfolding claim_existing
claim_existing_stale cache seen q new h =
    let (u, a, h1) = bind-ok (raise_if (differs (event_record cache new) q) replay_detected) _ h in
    let (w, b, h2) =
      bind-ok (raise_if (differs (key_record cache new) q) idempotency_conflict) _ h1 in
    replay_completed_stale _ h2

-- A fresh claim is of a record whose event and key nothing holds.
pub claim_fresh :
    (cache : List ReplayRecord) (seen : List (List ReplayRecord)) (q : AuthenticatedRequest)
    (now : ℕ) {r : ReplayRecord}
    → claim cache seen q now ≡ ok (fresh r)
    → (new_record q now ≡ r) × (is_taken cache (new_record q now) ≡ false)
unfolding claim
claim_fresh cache seen q now h = elim (Bool-cases (is_taken cache (new_record q now))) [
  | inl taken ↦ absurd (claim_existing_stale cache seen q (new_record q now) (rw taken at h))
  | inr free ↦ let e = ok-injective (rw free at h) in (fresh-injective e, free)
]
  where
    fresh-injective : {s t : ReplayRecord} → ◌≡◌ {A = ReplayClaim} (fresh s) (fresh t) → s ≡ t
    fresh-injective e = cc

module _ {D : Type 0} (lib : Libraries) (name : String)
    (handler : D → AuthenticatedRequest → Handled D) (a : Arrival) (db : Database D) where
  run_handler-Effect :
      (q : AuthenticatedRequest) (r : ReplayRecord) (answer : Handled D)
      → Genuine lib name db.directory a.now a.request q
      → new_record q a.now ≡ r
      → is_taken db.replay_cache (new_record q a.now) ≡ false
      → handler db.domain q ≡ answer
      → Effect lib name handler a db
          (run_handler lib name handler a (opened_session db) q r answer).1
  unfolding run_handler refuse_request write_log claimed_session
  run_handler-Effect q r (raised e written) g s free h = quiet _ refl
  run_handler-Effect q r (crashed written) g s free h = quiet _ refl
  run_handler-Effect q r (answered status_code body domain) g s free h =
      rw (← s) (stored q status_code body domain g free h)

  process_claim-Effect :
      (q : AuthenticatedRequest) (c : Result IntegrationError ReplayClaim)
      → Genuine lib name db.directory a.now a.request q
      → claim db.replay_cache a.seen q a.now ≡ c
      → Effect lib name handler a db (process_claim lib name handler a (opened_session db) q c).1
  unfolding process_claim refuse_request replay_answer write_log
  process_claim-Effect q (err e) g h = quiet _ refl
  process_claim-Effect q (ok (replayed r)) g h = quiet _ refl
  process_claim-Effect q (ok (fresh r)) g h =
      let (same, free) = claim_fresh db.replay_cache a.seen q a.now h in
      run_handler-Effect q r (handler db.domain q) g same free refl

  process_authenticated-Effect :
      (r : Result IntegrationError AuthenticatedRequest)
      → authenticate lib name db.directory a.now a.request ≡ r
      → Effect lib name handler a db (process_authenticated lib name handler a db r).1
  unfolding process_authenticated refuse_request write_log
  process_authenticated-Effect (err e) h = quiet _ refl
  process_authenticated-Effect (ok q) h =
      process_claim-Effect q _ (authenticate-Genuine lib name db.directory a.now a.request h) refl

  -- A processed request either changes nothing but the log, where it leaves a row that is no
  -- completion, or was genuine and claimed an event and a key that no record held, and then its record,
  -- its completion and what the handler did are stored together.
  pub process-Effect : Effect lib name handler a db (process lib name handler a db).1
  unfolding process
  process-Effect = process_authenticated-Effect _ refl
