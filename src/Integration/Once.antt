-- ===== src/Integration/Once.antt =====
-- No event and no key is completed twice.
use text.Mathlib.Text.{◌==◌ as str_eq}
use text.Mathlib.TextEquality.{eq_iff}
use text.Mathlib.TextPositions.{eq_refl}
use bookkeeping.Base.{
  Bool, Bool-cases, List, Option, String, [], any_of, arith, false, if◌then◌else◌, inl, inr, none,
  refl, some, sym, true, ℕ, ◌&&◌, ◌++◌, ◌+◌, ◌==◌, ◌∙◌, ◌∷◌, ◌≡◌, ◌≤◌,
}
use bookkeeping.Integration.Authenticate.{Directory, is_opt}
use bookkeeping.Integration.Effect.{Effect, is_completion, process-Effect, quiet, stored}
use bookkeeping.Integration.Errors.{status_code}
use bookkeeping.Integration.Process.{Arrival, Handled, completed_record, serve, write_log}
use bookkeeping.Integration.Sessions.{Database, EventLog, event_completed}
use bookkeeping.Integration.Replay.{ReplayRecord, is_taken, new_record, same_event, same_key}
use bookkeeping.Integration.Requests.{AuthenticatedRequest, Libraries}

pub data Claimed : Type 0 where
  by_event by_key : Claimed

-- What of a record or of a row of the log is claimed.
abbrev pub claimed_of : Claimed → ReplayRecord → String
claimed_of by_event r = r.event_id
claimed_of by_key r = r.idempotency_key

abbrev pub logged_of : Claimed → EventLog → Option String
logged_of by_event l = l.event_id
logged_of by_key l = l.idempotency_key

abbrev pub holds : Claimed → String → ℕ → String → ReplayRecord → Bool
holds k name tenant e r =
    r.tenant_id == tenant && str_eq r.integration_name name && str_eq (claimed_of k r) e

abbrev pub is_tenant : Option ℕ → ℕ → Bool
is_tenant none t = false
is_tenant (some u) t = u == t

-- A row that says that the tenant's event or key was completed.
abbrev pub completes : Claimed → ℕ → String → EventLog → Bool
completes k tenant e l =
    is_completion l.status && is_tenant l.tenant_id tenant && is_opt (logged_of k l) e

abbrev pub count {ℓ} : {A : Type ℓ} → (A → Bool) → List A → ℕ
count test [] = 0
count test (x ∷ xs) = (if test x then 1 else 0) + count test xs

count-append {ℓ} :
    {A : Type ℓ} (test : A → Bool) (xs : List A) (x : A)
    → count test (xs ++ x ∷ []) ≡ count test xs + (if test x then 1 else 0)
count-append test [] x = omega arith
count-append test (y ∷ xs) x = omega (arith, count-append test xs x)

count_none {ℓ} :
    {A : Type ℓ} (test : A → Bool) (xs : List A) → any_of test xs ≡ false → count test xs ≡ 0
count_none test [] h = refl
count_none test (x ∷ xs) h = ground (arith, count_none test xs)

-- Completions are counted by records, and no event or key has two records.
pub record IsOnce {D : Type 0} (name : String) (db : Database D) : Type 0 where
  pub recorded :
      (k : Claimed) (tenant : ℕ) (e : String)
      → count (completes k tenant e) db.event_log ≤ count (holds k name tenant e) db.replay_cache
  pub unique :
      (k : Claimed) (tenant : ℕ) (e : String) → count (holds k name tenant e) db.replay_cache ≤ 1

-- The test of the unique key of a record.
abbrev same_claim : Claimed → ReplayRecord → ReplayRecord → Bool
same_claim by_event = same_event
same_claim by_key = same_key

untaken :
    (k : Claimed) (cache : List ReplayRecord) (new : ReplayRecord)
    → is_taken cache new ≡ false
    → any_of (same_claim k new) cache ≡ false
untaken by_event cache new h = ground arith
untaken by_key cache new h = ground arith

-- Where the new record holds a claim, no stored record does.
holds-untaken :
    (k : Claimed) (name : String) (tenant : ℕ) (e : String) (cache : List ReplayRecord)
    (new : ReplayRecord)
    → is_taken cache new ≡ false
    → holds k name tenant e new ≡ true
    → count (holds k name tenant e) cache ≡ 0
holds-untaken by_event name tenant e cache new free h =
    let t : new.tenant_id ≡ tenant = ground arith in
    let n : new.integration_name ≡ name = ground (arith, eq_iff new.integration_name name) in
    let v : new.event_id ≡ e = ground (arith, eq_iff new.event_id e) in
    rw (← t, ← n, ← v) (count_none (same_event new) cache (untaken by_event cache new free))
holds-untaken by_key name tenant e cache new free h =
    let t : new.tenant_id ≡ tenant = ground arith in
    let n : new.integration_name ≡ name = ground (arith, eq_iff new.integration_name name) in
    let v : new.idempotency_key ≡ e = ground (arith, eq_iff new.idempotency_key e) in
    rw (← t, ← n, ← v) (count_none (same_key new) cache (untaken by_key cache new free))

count_quiet :
    (k : Claimed) (tenant : ℕ) (e : String) (log : List EventLog) (l : EventLog)
    → is_completion l.status ≡ false
    → count (completes k tenant e) (log ++ l ∷ []) ≡ count (completes k tenant e) log
count_quiet k tenant e log l h = ground (arith, count-append (completes k tenant e) log l)

-- The completion of a request holds what its record holds.
completes-holds :
    (lib : Libraries) (name : String) (a : Arrival) (q : AuthenticatedRequest) (status_code : ℕ)
    (body : String) (k : Claimed) (tenant : ℕ) (e : String)
    → q.connection.integration_name ≡ name
    → completes k tenant e (
        write_log lib name a event_completed
          (some status_code)
          (some q)
          (some (lib.sha256_hex body))
          none)
      ≡ holds k name tenant e (completed_record lib (new_record q a.now) a.now status_code body)
unfolding write_log new_record
completes-holds lib name a q status_code body by_event tenant e own =
    rw (own, eq_refl name) (ground arith)
completes-holds lib name a q status_code body by_key tenant e own =
    rw (own, eq_refl name) (ground arith)

-- The answer does not change what a record claims.
holds_completed :
    (lib : Libraries) (name : String) (k : Claimed) (tenant : ℕ) (e : String) (r : ReplayRecord)
    (now status_code : ℕ) (body : String)
    → holds k name tenant e (completed_record lib r now status_code body) ≡ holds k name tenant e r
holds_completed lib name by_event tenant e r now status_code body = refl
holds_completed lib name by_key tenant e r now status_code body = refl

count_unique {ℓ} :
    {A : Type ℓ} (test : A → Bool) (xs : List A) (x : A)
    → count test xs ≤ 1
    → (test x ≡ true → count test xs ≡ 0)
    → count test (xs ++ x ∷ []) ≤ 1
count_unique test xs x least none_held =
    rw (count-append test xs x)
      (elim (Bool-cases (test x)) as (λ _. count test xs + (if test x then 1 else 0) ≤ 1) [
        | inl held ↦ rw (held, none_held held) (omega arith)
        | inr other ↦ rw other (omega (arith, least))
      ])

count_together {ℓ} :
    {A B : Type ℓ} (p : A → Bool) (q : B → Bool) (xs : List A) (ys : List B) (x : A) (y : B)
    → p x ≡ q y
    → count p xs ≤ count q ys
    → count p (xs ++ x ∷ []) ≤ count q (ys ++ y ∷ [])
count_together p q xs ys x y same least =
    rw (count-append p xs x, count-append q ys y, same) (omega (arith, least))

module _ {D : Type 0} (lib : Libraries) (name : String)
    (handler : D → AuthenticatedRequest → Handled D) (a : Arrival) (db : Database D) where
  pub Effect-IsOnce :
      {after : Database D} → Effect lib name handler a db after → IsOnce name db → IsOnce name after
  Effect-IsOnce (quiet l h) once = record {
    recorded =
        λ k tenant e. rw (count_quiet k tenant e db.event_log l h) (once.recorded k tenant e);
    unique = once.unique;
  }
  Effect-IsOnce (stored q status_code body domain g free answer) once = record {
    recorded = λ k tenant e.
        count_together (completes k tenant e) (holds k name tenant e) db.event_log db.replay_cache _
          _ (completes-holds lib name a q status_code body k tenant e g.own)
          (once.recorded k tenant e);
    unique = λ k tenant e.
        count_unique (holds k name tenant e) db.replay_cache _ (once.unique k tenant e) (λ held.
          holds-untaken k name tenant e db.replay_cache (new_record q a.now) free (
            sym (holds_completed lib name k tenant e (new_record q a.now) a.now status_code body)
            ∙ held));
  }

abbrev pub new_database : {D : Type 0} → Directory → D → Database D
new_database directory domain = record {
  directory = directory;
  replay_cache = [];
  event_log = [];
  domain = domain;
}

new_database-IsOnce :
    {D : Type 0} {name : String} (directory : Directory) (domain : D)
    → IsOnce name (new_database directory domain)
new_database-IsOnce directory domain = record {
  recorded = λ j t v. omega arith;
  unique = λ j t v. omega arith;
}

module _ {D : Type 0} (lib : Libraries) (name : String)
    (handler : D → AuthenticatedRequest → Handled D) where
  pub serve-IsOnce :
      (arrivals : List Arrival) (db : Database D)
      → IsOnce name db
      → IsOnce name (serve lib name handler arrivals db)
  unfolding serve
  serve-IsOnce [] db once = once
  serve-IsOnce (a ∷ rest) db once =
      serve-IsOnce rest _
        (Effect-IsOnce lib name handler a db (process-Effect lib name handler a db) once)

  -- However many requests arrive, and whatever each sends, a database that starts without records and
  -- without log rows gets at most one completion for every event id and at most one for
  -- every idempotency key of a tenant.
  pub completed_once :
      (arrivals : List Arrival) (directory : Directory) (domain : D) (k : Claimed) (tenant : ℕ)
      (e : String)
      → count
          (completes k tenant e)
          (serve lib name handler arrivals (new_database directory domain)).event_log
        ≤ 1
  completed_once arrivals directory domain k tenant e =
      let once =
        serve-IsOnce arrivals (new_database directory domain)
          (new_database-IsOnce directory domain) in
      omega (arith, once.recorded k tenant e, once.unique k tenant e)
