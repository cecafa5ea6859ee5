-- ===== src/Integration/Again.antt =====
-- The same request again.
use text.Mathlib.Text.{◌==◌ as str_eq}
use text.Mathlib.TextPositions.{eq_refl}
use bookkeeping.Base.{
  Bool, List, String, [], any_of, ap, arith, false, ok, refl, some, true, ℕ, ◌++◌, ◌∙◌, ◌∷◌, ◌≡◌,
}
use bookkeeping.Integration.Authenticate.{authenticate, one_or_none}
use bookkeeping.Integration.Effect.{Effect, process-Effect, quiet, stored, with_answer}
use bookkeeping.Integration.Errors.{status_code}
use bookkeeping.Integration.Process.{
  Arrival, Handled, IntegrationResult, answered, claimed_session, completed_record, handled,
  process, process_authenticated, process_claim, replay_answer, run_handler, serve, stored_body,
  write_log,
}
use bookkeeping.Integration.Sessions.{Database}
use bookkeeping.Integration.Replay.{
  ReplayRecord, claim, claim_existing, event_record, is_completed, is_exact, is_taken, key_record,
  new_record, replayed, same_event, same_key,
}
use bookkeeping.Integration.Requests.{AuthenticatedRequest, Libraries}
use bookkeeping.Inventory.Warehouses.{later}

one_or_none-append {ℓ} :
    {A : Type ℓ} (test : A → Bool) (xs ys : List A) {x : A}
    → one_or_none test xs ≡ some x
    → one_or_none test (xs ++ ys) ≡ some x
unfolding one_or_none
one_or_none-append test [] ys h = cc
one_or_none-append test (y ∷ xs) ys {x} h = ground (arith, one_or_none-append test xs ys {x = x})

one_or_none_last {ℓ} :
    {A : Type ℓ} (test : A → Bool) (xs : List A) (x : A)
    → any_of test xs ≡ false
    → test x ≡ true
    → one_or_none test (xs ++ x ∷ []) ≡ some x
unfolding one_or_none
one_or_none_last test [] x h t = rw t refl
one_or_none_last test (y ∷ xs) x h t = ground (arith, one_or_none_last test xs x)

pub any_of-one_or_none {ℓ} :
    {A : Type ℓ} (test : A → Bool) (xs : List A) {x : A}
    → one_or_none test xs ≡ some x
    → any_of test xs ≡ true
unfolding one_or_none
any_of-one_or_none test [] h = cc
any_of-one_or_none test (y ∷ xs) {x} h = ground (arith, any_of-one_or_none test xs {x = x})

-- Two requests that only their connection's row and their signature may tell apart.
pub record SameRequest (q p : AuthenticatedRequest) : Type 0 where
  pub tenant : p.internal_tenant_id ≡ q.internal_tenant_id
  pub integration : p.connection.integration_name ≡ q.connection.integration_name
  pub envelope : p.envelope ≡ q.envelope
  pub method : p.method ≡ q.method
  pub path : p.path ≡ q.path
  pub hash : p.request_hash ≡ q.request_hash

-- The record that both queries for a request find.
pub record Found (new : ReplayRecord) (cache : List ReplayRecord) (r : ReplayRecord) : Type 0 where
  pub event_found : event_record cache new ≡ some r
  pub key_found : key_record cache new ≡ some r

Found-append :
    {new r : ReplayRecord} {cache : List ReplayRecord} (more : List ReplayRecord)
    → Found new cache r
    → Found new (cache ++ more) r
unfolding event_record key_record
Found-append {cache = cache} more f = record {
  event_found = one_or_none-append _ cache more f.event_found;
  key_found = one_or_none-append _ cache more f.key_found;
}

pub Found-completed :
    (lib : Libraries) (cache : List ReplayRecord) (new : ReplayRecord) (now status_code : ℕ)
    (body : String)
    → is_taken cache new ≡ false
    → Found new
        (cache ++ completed_record lib new now status_code body ∷ [])
        (completed_record lib new now status_code body)
unfolding event_record key_record
Found-completed lib cache new now status_code body free = record {
  event_found =
      one_or_none_last (same_event new) cache _ (ground arith)
        (rw (eq_refl new.integration_name, eq_refl new.event_id) (ground arith));
  key_found =
      one_or_none_last (same_key new) cache _ (ground arith)
        (rw (eq_refl new.integration_name, eq_refl new.idempotency_key) (ground arith));
}

-- The queries read the same of both.
Found-same :
    (q p : AuthenticatedRequest) (now later : ℕ) (cache : List ReplayRecord) (r : ReplayRecord)
    → SameRequest q p
    → Found (new_record q now) cache r
    → Found (new_record p later) cache r
unfolding new_record event_record key_record
Found-same q p now later cache r s f = record {
  event_found = rw (s.tenant, s.integration, s.envelope) f.event_found;
  key_found = rw (s.tenant, s.integration, s.envelope) f.key_found;
}

is_exact_same :
    (lib : Libraries) (q p : AuthenticatedRequest) (now status_code : ℕ) (body : String)
    → SameRequest q p
    → is_exact (completed_record lib (new_record q now) now status_code body) p ≡ true
unfolding is_exact new_record
is_exact_same lib q p now status_code body s =
    rw
      (
        s.tenant,
        s.envelope,
        s.method,
        s.path,
        s.hash,
        eq_refl q.envelope.event_id,
        eq_refl q.envelope.idempotency_key,
        eq_refl q.envelope.event_name,
        eq_refl q.envelope.source_id,
        eq_refl q.method,
        eq_refl q.path,
        eq_refl q.request_hash,
      )
      (ground arith)

claim-Found :
    (cache : List ReplayRecord) (seen : List (List ReplayRecord)) (p : AuthenticatedRequest)
    (now : ℕ) (r : ReplayRecord)
    → Found (new_record p now) cache r
    → is_exact r p ≡ true
    → is_completed r.status ≡ true
    → claim cache seen p now ≡ ok (replayed r)
unfolding claim claim_existing event_record key_record
claim-Found cache seen p now r f exact done =
    rw
      (
        any_of-one_or_none (same_event (new_record p now)) cache f.event_found,
        f.event_found,
        f.key_found,
        exact,
      )
      (ground (arith, done))

stored_body_encrypted :
    (lib : Libraries) (body : String)
    → str_eq body "" ≡ false
    → stored_body lib (some (lib.encrypt_text body)) ≡ body
stored_body_encrypted lib body h = rw (lib.decrypts body, h) refl

-- The answer of the replay, and nothing but the log has changed.
pub record Replayed {D : Type 0} (body : String) (db : Database D)
    (x : IntegrationResult × Database D) : Type 0 where
  pub ok_status : x.0.status_code ≡ 200
  pub body_again : x.0.body ≡ handled body
  pub marked : x.0.replayed_header ≡ true
  pub domain_kept : x.1.domain ≡ db.domain
  pub cache_kept : x.1.replay_cache ≡ db.replay_cache

module _ {D : Type 0} (lib : Libraries) (name : String)
    (handler : D → AuthenticatedRequest → Handled D) where
  process_found :
      (b : Arrival) (db : Database D) (p : AuthenticatedRequest) (r : ReplayRecord) (body : String)
      → authenticate lib name db.directory b.now b.request ≡ ok p
      → claim db.replay_cache b.seen p b.now ≡ ok (replayed r)
      → stored_body lib r.response_body_encrypted ≡ body
      → Replayed body db (process lib name handler b db)
  unfolding process process_authenticated process_claim replay_answer write_log
  process_found b db p r body shown claimed same =
      rw (shown, claimed)
        (record {
          ok_status = refl;
          body_again = ap handled same;
          marked = refl;
          domain_kept = refl;
          cache_kept = refl;
        })

  Effect-Found :
      {a : Arrival} {db after : Database D} {new r : ReplayRecord}
      → Effect lib name handler a db after
      → Found new db.replay_cache r
      → Found new after.replay_cache r
  Effect-Found (quiet l h) f = f
  Effect-Found (stored q status_code body domain g free answer) f = Found-append _ f

  Effect-directory :
      {a : Arrival} {db after : Database D}
      → Effect lib name handler a db after
      → after.directory ≡ db.directory
  Effect-directory (quiet l h) = refl
  Effect-directory (stored q status_code body domain g free answer) = refl

  pub serve-Found :
      (between : List Arrival) (db : Database D) {new r : ReplayRecord}
      → Found new db.replay_cache r
      → Found new (serve lib name handler between db).replay_cache r
  unfolding serve
  serve-Found [] db f = f
  serve-Found (a ∷ rest) db f =
      serve-Found rest _ (Effect-Found (process-Effect lib name handler a db) f)

  pub serve-directory :
      (between : List Arrival) (db : Database D)
      → (serve lib name handler between db).directory ≡ db.directory
  unfolding serve
  serve-directory [] db = refl
  serve-directory (a ∷ rest) db =
      serve-directory rest _ ∙ Effect-directory (process-Effect lib name handler a db)

  pub process_answered :
      (a : Arrival) (db : Database D) (q : AuthenticatedRequest) (status_code : ℕ) (body : String)
      (domain : D)
      → authenticate lib name db.directory a.now a.request ≡ ok q
      → is_taken db.replay_cache (new_record q a.now) ≡ false
      → handler db.domain q ≡ answered status_code body domain
      → (process lib name handler a db).1 ≡ with_answer lib name a db q status_code body domain
  unfolding process process_authenticated process_claim run_handler claim write_log claimed_session
  process_answered a db q status_code body domain shown free answer = rw (shown, free, answer) refl

  -- A request that was answered is answered the same again: whatever is served in between, the same
  -- request of the same tenant, authenticated anew, gets 200 with the first answer's body and the
  -- replay header, and neither the handler's state nor the records change. The body is not empty.
  pub repeated_request-Replayed :
      (a b : Arrival) (between : List Arrival) (db : Database D) (q p : AuthenticatedRequest)
      (status_code : ℕ) (body : String) (domain : D)
      → authenticate lib name db.directory a.now a.request ≡ ok q
      → is_taken db.replay_cache (new_record q a.now) ≡ false
      → handler db.domain q ≡ answered status_code body domain
      → str_eq body "" ≡ false
      → authenticate lib name db.directory b.now b.request ≡ ok p
      → SameRequest q p
      → (let served = serve lib name handler (a ∷ between) db in
          Replayed body served (process lib name handler b served))
  unfolding serve
  repeated_request-Replayed a b between db q p status_code body domain shown free answer full again
        same =
      let r = completed_record lib (new_record q a.now) a.now status_code body in
      let stored : Found (new_record q a.now) (process lib name handler a db).1.replay_cache r =
        rw (process_answered a db q status_code body domain shown free answer)
          (Found-completed lib db.replay_cache (new_record q a.now) a.now status_code body free) in
      let served = serve lib name handler (a ∷ between) db in
      let found =
        Found-same q p a.now b.now served.replay_cache r same
          (serve-Found between (process lib name handler a db).1 stored) in
      process_found b served p r body (rw (serve-directory (a ∷ between) db) again)
        (claim-Found served.replay_cache b.seen p b.now r found
          (is_exact_same lib q p a.now status_code body same) refl)
        (stored_body_encrypted lib body full)
