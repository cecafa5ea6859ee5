-- ===== src/Integration/Shown.antt =====
-- What each step of `authenticate` has shown when it does not raise.
use text.Mathlib.Text.{◌==◌ as str_eq}
use text.Mathlib.TextEquality.{eq_iff}
use bookkeeping.Base.{
  Bool, Bool-cases, List, Option, Option-cases, Result, String, [], any_of, ap, arith, bind-ok,
  codes, false, inl, inr, leb, length, none, not, ok, ok-injective, raise_if, refl, some,
  some-injective, sym, true, ℕ, ◌&&◌, ◌*◌, ◌++◌, ◌>>=◌, ◌>>◌, ◌∙◌, ◌∷◌, ◌≡◌, ◌≤◌,
}
use bookkeeping.Gst.Modes.{Tenant, find_tenant}
use bookkeeping.Integration.Authenticate.{
  Directory, canonical_key, checked_key, create_signature, detail_if, inconsistencies, is_client,
  is_connection, is_enabled, is_opt, mapped_tenant, matched, named, one_or_none, raise_details,
  read_envelope, resolve_tenant, skew, validate_timestamp, verify_signature, with_offset,
}
use bookkeeping.Integration.Errors.{IntegrationError, tenant_not_resolved}
use bookkeeping.Integration.Requests.{EventEnvelope, IntegrationConnection, Libraries, Request}
use bookkeeping.Posting.Effect.{on}

pub checked_key_ok :
    (o : Option String) {k : String}
    → checked_key o ≡ ok k
    → (o ≡ some k) × (32 ≤ length (codes k)) × (length (codes k) ≤ 256)
checked_key_ok none h = cc
checked_key_ok (some s) {k} h =
    elim (Bool-cases (leb 32 (length (codes s)) && leb (length (codes s)) 256)) [
      | inl fits ↦
          let same : s ≡ k = ground arith in
          (ap some same, rw (← same) (ground arith), rw (← same) (ground arith))
      | inr other ↦ ground arith
    ]

named_ok : (o : Option String) {s : String} → named o ≡ ok s → o ≡ some s
named_ok none h = cc
named_ok (some t) {s} h = ground arith

pub one_or_none-passes {ℓ} :
    {A : Type ℓ} (test : A → Bool) (xs : List A) {x : A}
    → one_or_none test xs ≡ some x
    → test x ≡ true
unfolding one_or_none
one_or_none-passes test [] h = cc
one_or_none-passes test (y ∷ xs) {x} h = ground (arith, one_or_none-passes test xs {x = x})

mapped_tenant_ok :
    (db : Directory) (c : IntegrationConnection) {d : IntegrationConnection} {t : Tenant}
    → mapped_tenant db c ≡ ok (d, t)
    → (c ≡ d) × (is_enabled c.status ≡ true) × (find_tenant c.tenant_id db.tenants ≡ some t)
unfolding mapped_tenant
mapped_tenant_ok db c h = elim (Option-cases (find_tenant c.tenant_id db.tenants)) [
  | inl missing ↦ ground arith
  | inr (u, found) ↦ ground arith
]

pub matched_ok :
    (lib : Libraries) (key : String) (o : Option (IntegrationConnection × Tenant))
    {p : IntegrationConnection × Tenant}
    → matched lib key o ≡ ok p
    → (o ≡ some p) × (p.0.api_key_hash ≡ lib.sha256_hex key)
matched_ok lib key none h = cc
matched_ok lib key (some (c, t)) {p} h =
    elim (Bool-cases (str_eq c.api_key_hash (lib.sha256_hex key))) [
      | inl same ↦
          let e : (c, t) ≡ p = ok-injective (rw same at h) in
          (
            ap some e,
            ap (λ (x : IntegrationConnection × Tenant). x.0.api_key_hash) (sym e)
                ∙ (eq_iff c.api_key_hash (lib.sha256_hex key)).0 same,
          )
      | inr other ↦ ground arith
    ]

pub verify_signature_ok :
    (lib : Libraries) (o : Option String) (secret timestamp method path body : String)
    {u : Unit {0}}
    → verify_signature lib o secret timestamp method path body ≡ ok u
    → o ≡ some (create_signature lib secret timestamp method path body)
unfolding verify_signature
verify_signature_ok lib none secret timestamp method path body h = cc
verify_signature_ok lib (some s) secret timestamp method path body h =
    ground (arith, eq_iff s (create_signature lib secret timestamp method path body))

pub validate_timestamp_ok :
    (lib : Libraries) (now : ℕ) (o : Option String) (maximum : ℕ) {v : String}
    → validate_timestamp lib now o maximum ≡ ok v
    → (o ≡ some v)
      × ((t : ℕ) × (lib.fromisoformat (with_offset v) ≡ some t)
          × (skew now t ≤ maximum * 1_000_000))
unfolding validate_timestamp
validate_timestamp_ok lib now none maximum h = cc
validate_timestamp_ok lib now (some s) maximum {v} h =
    elim (Option-cases (lib.fromisoformat (with_offset s))) [
      | inl unread ↦ ground arith
      | inr (t, parsed) ↦
          let same : s ≡ v = ground arith in (ap some same, (t, rw (← same) parsed, ground arith))
    ]

pub read_envelope_ok :
    (o : Option EventEnvelope) {e : EventEnvelope} → read_envelope o ≡ ok e → o ≡ some e
read_envelope_ok none h = cc
read_envelope_ok (some d) h = cc

is_opt-some : (o : Option String) (t : String) → is_opt o t ≡ true → o ≡ some t
is_opt-some none t h = cc
is_opt-some (some s) t h = ap some ((eq_iff s t).0 h)

detail_if_none :
    (b : Bool) (f : String) (rest : List String)
    → detail_if (not b) f ++ rest ≡ []
    → (b ≡ true) × (rest ≡ [])
detail_if_none true f rest h = (refl, h)
detail_if_none false f rest h = cc

pub raise_details_ok : (ds : List String) {u : Unit {0}} → raise_details ds ≡ ok u → ds ≡ []
raise_details_ok [] h = refl
raise_details_ok (d ∷ ds) h = cc

-- The connection that was found for a header and a key, and its live tenant.
abbrev pub Resolved :
    Libraries
    → String
    → Directory
    → Option String
    → String
    → IntegrationConnection
    → Tenant
    → Type 0
Resolved lib name db header key c t =
    (header ≡ some c.external_tenant_id)
    × (c.integration_name ≡ name)
    × (is_enabled c.status ≡ true)
    × (find_tenant c.tenant_id db.tenants ≡ some t)

is_connection_parts :
    (name external hash : String) (c : IntegrationConnection)
    → is_connection name external hash c ≡ true
    → (c.integration_name ≡ name) × (c.external_tenant_id ≡ external)
is_connection_parts name external hash c h =
    ground (arith, eq_iff c.integration_name name, eq_iff c.external_tenant_id external)

found_Resolved :
    (lib : Libraries) (name : String) (db : Directory) (header : Option String) (key s : String)
    (found : Option IntegrationConnection) {c : IntegrationConnection} {t : Tenant}
    → header ≡ some s
    → one_or_none (is_connection name s (lib.sha256_hex key)) db.connections ≡ found
    → ◌≡◌ {A = Result IntegrationError (Option (IntegrationConnection × Tenant))}
        (elim found [
          | none ↦
              raise_if
                (any_of (is_client name (lib.sha256_hex key)) db.connections)
                tenant_not_resolved
              >> ok none
          | some connection ↦ mapped_tenant db connection >>= λ x. ok (some x)
        ])
        (ok (some (c, t)))
    → Resolved lib name db header key c t
found_Resolved lib name db header key s none e f h =
    elim (Bool-cases (any_of (is_client name (lib.sha256_hex key)) db.connections)) [
      | inl known ↦ ground arith
      | inr unknown ↦ ground arith
    ]
found_Resolved lib name db header key s (some d) {c} {t} e f h =
    let (p, mapped, q) = bind-ok (mapped_tenant db d) _ h in
    let pair : p ≡ (c, t) = some-injective (ok-injective q) in
    let (same, on, live) = mapped_tenant_ok db d (mapped ∙ ap ok pair) in
    let (own, external) =
      is_connection_parts name s (lib.sha256_hex key) d (one_or_none-passes _ db.connections f) in
    rw (← same) (e ∙ ap some (sym external), own, on, live)

pub resolve_tenant_ok :
    (lib : Libraries) (name : String) (db : Directory) (header : Option String) (key : String)
    {c : IntegrationConnection} {t : Tenant}
    → resolve_tenant lib name db header key ≡ ok (some (c, t))
    → Resolved lib name db header key c t
unfolding resolve_tenant
resolve_tenant_ok lib name db header key h =
    let (s, e, h') = bind-ok (named header) _ h in
    found_Resolved lib name db header key s _ (named_ok header e) refl h'

pub consistent :
    (r : Request) (e : EventEnvelope)
    → inconsistencies r e ≡ []
    → (r.tenant_header ≡ some e.tenant_id)
      × (r.event_header ≡ some e.event_id)
      × (r.key_header ≡ some e.idempotency_key)
      × (e.idempotency_key ≡ canonical_key e)
unfolding inconsistencies
consistent r e h =
    let (tenant, h1) = detail_if_none (is_opt r.tenant_header e.tenant_id) _ _ h in
    let (event, h2) = detail_if_none (is_opt r.event_header e.event_id) _ _ h1 in
    let (key, h3) = detail_if_none (is_opt r.key_header e.idempotency_key) _ _ h2 in
    let (canonical, h4) = detail_if_none (str_eq e.idempotency_key (canonical_key e)) _ _ h3 in
    (
      is_opt-some r.tenant_header e.tenant_id tenant,
      is_opt-some r.event_header e.event_id event,
      is_opt-some r.key_header e.idempotency_key key,
      (eq_iff e.idempotency_key (canonical_key e)).0 canonical,
    )
