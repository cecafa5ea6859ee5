-- ===== src/Accounts/ResolverLaws.antt =====
-- What resolving a key comes to.
use bookkeeping.Accounts.Resolver.{
  AccountKey, Contact, Side, Texts, add_account, contact_account, customer, duplicate_account_code,
  duplicate_account_id, find_account, find_contact, found_or_added, is_coded, is_live, new_account,
  payable_to, receivable_from, resolve_contact_account, resolve_defined, resolve_key,
  resolve_standard, same_code, same_id, standard, vendor,
}
use bookkeeping.Accounts.Standard.{Definition, definition_of, standard_accounts}
use bookkeeping.Base.{
  Bool, Bool-cases, List, Option, String, [], any_of, ap, arith, bind-ok, false, inl, inr, none, ok,
  ok-injective, or_else, raise_if, refl, some, some-injective, sym, true, ℕ, ◌++◌, ◌∙◌, ◌∷◌, ◌≡◌,
}
use bookkeeping.Int.{pos}
use bookkeeping.Ledger.Tables.{Account, AccountType, asset, liability}

pub record IsNew (tenant : ℕ) (a : Account) : Type 0 where
  pub of_tenant : a.tenant_id ≡ tenant
  pub opening : a.opening_balance ≡ pos 0
  pub current : a.current_balance ≡ pos 0
  pub undeleted : a.deleted ≡ false

-- Nothing, or one account that is new in the table and has moved nothing.
pub data Extends (tenant : ℕ) (accounts : List Account) : List Account → Type 0 where
  same : Extends tenant accounts accounts
  added :
      (a : Account)
      → any_of (same_id a) accounts ≡ false
      → IsNew tenant a
      → Extends tenant accounts (accounts ++ a ∷ [])

-- The identifier is that of a live account of the tenant.
abbrev pub Owned : ℕ → ℕ → List Account → Type 0
Owned tenant id accounts = any_of (is_live tenant id) accounts ≡ true

pub any_of_right {ℓ} :
    {A : Type ℓ} (test : A → Bool) (xs : List A) (x : A)
    → test x ≡ true
    → any_of test (xs ++ x ∷ []) ≡ true
any_of_right test [] x h = ground arith
any_of_right test (y ∷ xs) x h = ground (arith, any_of_right test xs x)

pub any_of_left {ℓ} :
    {A : Type ℓ} (test : A → Bool) (xs ys : List A)
    → any_of test xs ≡ true
    → any_of test (xs ++ ys) ≡ true
any_of_left test [] ys h = cc
any_of_left test (y ∷ xs) ys h = ground (arith, any_of_left test xs ys)

find_account-any_of :
    (test other : Account → Bool) (accounts : List Account) {a : Account}
    → find_account test accounts ≡ some a
    → ((x : Account) → test x ≡ true → x ≡ a → other x ≡ true)
    → any_of other accounts ≡ true
unfolding find_account
find_account-any_of test other [] h p = cc
find_account-any_of test other (x ∷ rest) {a} h p = elim (Bool-cases (test x)) [
  | inl passed ↦
      let found : x ≡ a = some-injective (rw passed at h) in ground (arith, p x passed found)
  | inr missed ↦ ground (arith, find_account-any_of test other rest {a = a} (rw missed at h) p)
]

pub find_account-append :
    (test : Account → Bool) (accounts : List Account) (a : Account)
    → find_account test accounts ≡ none
    → test a ≡ true
    → find_account test (accounts ++ a ∷ []) ≡ some a
unfolding find_account
find_account-append test [] a h t = rw t refl
find_account-append test (x ∷ rest) a h t = ground (arith, find_account-append test rest a)

pub add_account_ok :
    (a : Account) (accounts : List Account) {after : List Account}
    → add_account a accounts ≡ ok after
    → (any_of (same_id a) accounts ≡ false) × (accounts ++ a ∷ [] ≡ after)
unfolding add_account
add_account_ok a accounts h =
    let (u, e, h1) = bind-ok (raise_if (any_of (same_id a) accounts) duplicate_account_id) _ h in
    let (w, f, h2) =
      bind-ok (raise_if (any_of (same_code a) accounts) duplicate_account_code) _ h1 in
    (ground arith, ok-injective h2)

pub record FoundAccount (tenant : ℕ) (accounts : List Account) (id : ℕ) (after : List Account)
    : Type 0 where
  pub extends : Extends tenant accounts after
  pub owned : Owned tenant id after

module _ (tenant : ℕ) (accounts : List Account) where
  found_or_added-FoundAccount :
      (new : Account) (o : Option Account) {i : ℕ} {after : List Account}
      → IsNew tenant new
      → ((a : Account) → o ≡ some a → Owned tenant a.id accounts)
      → found_or_added o new accounts ≡ ok (i, after)
      → FoundAccount tenant accounts i after
  unfolding found_or_added
  found_or_added-FoundAccount new (some a) {i} {after} blank owned h =
      let e : a.id ≡ i = cc in
      let s : accounts ≡ after = cc in
      rw (← e, ← s) (record { extends = same; owned = owned a refl })
  found_or_added-FoundAccount new none {i} {after} blank owned h =
      let (more, e, f) = bind-ok (add_account new accounts) _ h in
      let (unused, grown) = add_account_ok new accounts e in
      let i' : new.id ≡ i = cc in
      let s : accounts ++ new ∷ [] ≡ after = grown ∙ cc in
      rw (← i', ← s)
        (record {
          extends = added new unused blank;
          owned =
              any_of_right (is_live tenant new.id) accounts new
                (rw (blank.of_tenant, blank.undeleted) (ground arith));
        })

by_id-Owned :
    (tenant id : ℕ) (accounts : List Account) (a : Account)
    → find_account (is_live tenant id) accounts ≡ some a
    → Owned tenant a.id accounts
by_id-Owned tenant id accounts a h =
    find_account-any_of (is_live tenant id) (is_live tenant a.id) accounts h
      (λ x passed found. rw (ap (λ (y : Account). y.id) (sym found)) (ground arith))

by_code-Owned :
    (texts : Texts) (tenant : ℕ) (code : String) (accounts : List Account) (a : Account)
    → find_account (is_coded texts tenant code) accounts ≡ some a
    → Owned tenant a.id accounts
by_code-Owned texts tenant code accounts a h =
    find_account-any_of (is_coded texts tenant code) (is_live tenant a.id) accounts h
      (λ x passed found. rw (ap (λ (y : Account). y.id) (sym found)) (ground arith))

or_else-Owned :
    (tenant : ℕ) (accounts : List Account) (o p : Option Account)
    → ((a : Account) → o ≡ some a → Owned tenant a.id accounts)
    → ((a : Account) → p ≡ some a → Owned tenant a.id accounts)
    → (a : Account) → or_else o p ≡ some a
    → Owned tenant a.id accounts
or_else-Owned tenant accounts none p f g = g
or_else-Owned tenant accounts (some x) p f g = f

pub new_account-IsNew :
    (id tenant : ℕ) (name code : String) (type : AccountType) (group : Option String)
    → IsNew tenant (new_account id tenant name code type group)
new_account-IsNew id tenant name code type group = record {
  of_tenant = refl;
  opening = refl;
  current = refl;
  undeleted = refl;
}

pub contact_account-IsNew :
    (texts : Texts) (tenant id : ℕ) (side : Side) (contact : ℕ) (c : Contact)
    → IsNew tenant (contact_account texts tenant id side contact c)
contact_account-IsNew texts tenant id receivable_from contact c =
    new_account-IsNew id tenant _ _ asset none
contact_account-IsNew texts tenant id payable_to contact c =
    new_account-IsNew id tenant _ _ liability none

module _ (texts : Texts) (tenant : ℕ) where
  resolve_defined-FoundAccount :
      (key : String) (accounts : List Account) (o : Option Definition) {id : ℕ}
      {after : List Account}
      → resolve_defined texts tenant key accounts o ≡ ok (id, after)
      → FoundAccount tenant accounts id after
  unfolding resolve_defined
  resolve_defined-FoundAccount key accounts none h = cc
  resolve_defined-FoundAccount key accounts (some d) h =
      found_or_added-FoundAccount tenant accounts _ _
        (new_account-IsNew _ tenant d.name d.code d.account_type (some d.account_group))
        (or_else-Owned tenant accounts _ _ (by_id-Owned tenant _ accounts)
          (by_code-Owned texts tenant d.code accounts))
        h

  resolve_contact_account-FoundAccount :
      (side : Side) (contact : ℕ) (accounts : List Account) (o : Option Contact) {id : ℕ}
      {after : List Account}
      → resolve_contact_account texts tenant side contact accounts o ≡ ok (id, after)
      → FoundAccount tenant accounts id after
  unfolding resolve_contact_account
  resolve_contact_account-FoundAccount side contact accounts none h = cc
  resolve_contact_account-FoundAccount side contact accounts (some c) h =
      found_or_added-FoundAccount tenant accounts _ _
        (contact_account-IsNew texts tenant _ side contact c) (by_id-Owned tenant _ accounts) h

  -- A key that is resolved comes to a live account of the tenant; the table is as it was, or has one more
  -- account, of that tenant, with an identifier that was not in it and balances of zero.
  pub resolve_key-FoundAccount :
      (contacts : List Contact) (key : AccountKey) (accounts : List Account) {id : ℕ}
      {after : List Account}
      → resolve_key texts tenant contacts key accounts ≡ ok (id, after)
      → FoundAccount tenant accounts id after
  unfolding resolve_key resolve_standard
  resolve_key-FoundAccount contacts (standard s) accounts h =
      resolve_defined-FoundAccount s accounts (definition_of s standard_accounts) h
  resolve_key-FoundAccount contacts (customer c) accounts h =
      resolve_contact_account-FoundAccount receivable_from c accounts
        (find_contact tenant c contacts) h
  resolve_key-FoundAccount contacts (vendor c) accounts h =
      resolve_contact_account-FoundAccount payable_to c accounts (find_contact tenant c contacts) h
