-- ===== src/Accounts/Session.antt =====
-- A resolver that is used for one key after another.
use bookkeeping.Accounts.Resolver.{
  AccountKey, Contact, ResolveError, Resolving, Texts, cached, is_key, is_live, remembered, resolve,
  resolve_cached,
}
use bookkeeping.Accounts.ResolverLaws.{
  Extends, FoundAccount, Owned, added, any_of_left, resolve_key-FoundAccount, same,
}
use bookkeeping.Accounts.Sound.{Extends-IsSound}
use bookkeeping.Base.{
  All, Bool-cases, List, Option, Result, [], err, inl, inr, none, ok, refl, some, some-injective, ℕ,
  ◌∷◌, ◌≡◌,
}
use bookkeeping.Ledger.Reach.{IsSound}
use bookkeeping.Ledger.Tables.{Account, JournalEntry}

abbrev pub CacheOwned : ℕ → Resolving → Type 0
CacheOwned tenant r = All (λ c. Owned tenant c.1 r.accounts) r.cache

-- The accounts that were there are there still, and a ledger that was sound is sound.
pub record Progress (tenant : ℕ) (before after : List Account) : Type 0 where
  pub kept : (id : ℕ) → Owned tenant id before → Owned tenant id after
  pub sound :
      (entries : List JournalEntry)
      → IsSound (record { accounts = before; entries = entries })
      → IsSound (record { accounts = after; entries = entries })

pub Progress-refl : {tenant : ℕ} {xs : List Account} → Progress tenant xs xs
Progress-refl = record { kept = λ id h. h; sound = λ entries h. h }

pub Progress-trans :
    {tenant : ℕ} {xs ys zs : List Account}
    → Progress tenant xs ys
    → Progress tenant ys zs
    → Progress tenant xs zs
Progress-trans p q = record {
  kept = λ id h. q.kept id (p.kept id h);
  sound = λ entries h. q.sound entries (p.sound entries h);
}

Extends-Owned :
    {tenant : ℕ} {accounts after : List Account} (id : ℕ)
    → Extends tenant accounts after
    → Owned tenant id accounts
    → Owned tenant id after
Extends-Owned id same h = h
Extends-Owned {tenant} {accounts} id (added a unused blank) h =
    any_of_left (is_live tenant id) accounts (a ∷ []) h

Extends-Progress :
    {tenant : ℕ} {accounts after : List Account}
    → Extends tenant accounts after
    → Progress tenant accounts after
Extends-Progress e = record {
  kept = λ id h. Extends-Owned id e h;
  sound = λ entries h. Extends-IsSound entries e h;
}

CacheOwned-Progress :
    {tenant : ℕ} {before after : List Account} (cache : List (AccountKey × ℕ))
    → Progress tenant before after
    → All (λ c. Owned tenant c.1 before) cache
    → All (λ c. Owned tenant c.1 after) cache
CacheOwned-Progress [] p h = tt
CacheOwned-Progress (c ∷ cache) p h = (p.kept c.1 h.0, CacheOwned-Progress cache p h.1)

cached-Owned :
    (tenant : ℕ) (accounts : List Account) (key : AccountKey) (cache : List (AccountKey × ℕ))
    {id : ℕ}
    → cached key cache ≡ some id
    → All (λ c. Owned tenant c.1 accounts) cache
    → Owned tenant id accounts
unfolding cached
cached-Owned tenant accounts key [] h o = cc
cached-Owned tenant accounts key (c ∷ rest) {id} h o = elim (Bool-cases (is_key c.0 key)) [
  | inl hit ↦ let e : c.1 ≡ id = some-injective (rw hit at h) in rw (← e) o.0
  | inr other ↦ cached-Owned tenant accounts key rest (rw other at h) o.1
]

-- One resolution of a session.
pub record Moved (tenant : ℕ) (r : Resolving) (id : ℕ) (after : Resolving) : Type 0 where
  pub progress : Progress tenant r.accounts after.accounts
  pub cache_owned : CacheOwned tenant after
  pub owned : Owned tenant id after.accounts

remembered-Moved :
    {tenant : ℕ} (key : AccountKey) (r : Resolving) (found : Result ResolveError (ℕ × List Account))
    {id : ℕ} {after : Resolving}
    → CacheOwned tenant r
    → ((i : ℕ) (accounts : List Account)
        → found ≡ ok (i, accounts)
        → FoundAccount tenant r.accounts i accounts)
    → remembered key r.cache found ≡ ok (id, after)
    → Moved tenant r id after
remembered-Moved key r (err e) own found h = cc
remembered-Moved {tenant} key r (ok (i, accounts)) {id} {after} own found h =
    let same_account : i ≡ id = cc in
    let same_state : record { cache = (key, i) ∷ r.cache; accounts = accounts } ≡ after = cc in
    let resolved = found i accounts refl in
    let p = Extends-Progress resolved.extends in
    rw (← same_account, ← same_state)
      (record {
        progress = p;
        cache_owned = (resolved.owned, CacheOwned-Progress r.cache p own);
        owned = resolved.owned;
      })

module _ (texts : Texts) (tenant : ℕ) (contacts : List Contact) (key : AccountKey)
    (r : Resolving) where
  resolve_cached-Moved :
      (o : Option ℕ) {id : ℕ} {after : Resolving}
      → CacheOwned tenant r
      → cached key r.cache ≡ o
      → resolve_cached texts tenant contacts key r o ≡ ok (id, after)
      → Moved tenant r id after
  resolve_cached-Moved (some i) {id} {after} own hit h =
      let same_account : i ≡ id = cc in
      let same_state : r ≡ after = cc in
      rw (← same_account, ← same_state)
        (record {
          progress = Progress-refl;
          cache_owned = own;
          owned = cached-Owned tenant r.accounts key r.cache hit own;
        })
  resolve_cached-Moved none own hit h =
      remembered-Moved key r _ own
        (λ i accounts e. resolve_key-FoundAccount texts tenant contacts key r.accounts e) h

  pub resolve-Moved :
      {id : ℕ} {after : Resolving}
      → CacheOwned tenant r
      → resolve texts tenant contacts key r ≡ ok (id, after)
      → Moved tenant r id after
  unfolding resolve
  resolve-Moved own h = resolve_cached-Moved (cached key r.cache) own refl h
