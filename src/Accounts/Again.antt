-- ===== src/Accounts/Again.antt =====
-- Resolving a key once more.
use bookkeeping.Accounts.Resolver.{
  AccountKey, Contact, Side, Texts, add_account, contact_account, contact_key, customer,
  find_account, find_contact, found_or_added, is_coded, is_live, new_account, payable_to,
  receivable_from, resolve_contact_account, resolve_defined, resolve_key, resolve_standard,
  standard, vendor,
}
use bookkeeping.Accounts.ResolverLaws.{
  IsNew, add_account_ok, contact_account-IsNew, find_account-append, new_account-IsNew,
}
use bookkeeping.Accounts.Standard.{Definition, definition_of, standard_accounts}
use bookkeeping.Base.{
  List, Option, Option-cases, String, [], arith, bind-ok, inl, inr, none, ok, or_else, refl, some,
  ℕ, ◌++◌, ◌∙◌, ◌∷◌, ◌≡◌,
}
use bookkeeping.Ledger.Tables.{Account}

found_or_added_again :
    (f : List Account → Option Account) (new : Account) (accounts : List Account) {i : ℕ}
    {after : List Account}
    → (f accounts ≡ none → f (accounts ++ new ∷ []) ≡ some new)
    → found_or_added (f accounts) new accounts ≡ ok (i, after)
    → found_or_added (f after) new after ≡ ok (i, after)
unfolding found_or_added
found_or_added_again f new accounts {i} {after} grows h = elim (Option-cases (f accounts)) [
  | inl missing ↦
      let (more, e, last) = bind-ok (add_account new accounts) _ (rw missing at h) in
      let (unused, grown) = add_account_ok new accounts e in
      let s : accounts ++ new ∷ [] ≡ after = grown ∙ cc in
      let id : new.id ≡ i = cc in rw (← s, grows missing, id) refl
  | inr (a, found) ↦
      let s : accounts ≡ after = cc in let id : a.id ≡ i = cc in rw (← s, found, id) refl
]

or_else-none : (o p : Option Account) → or_else o p ≡ none → o ≡ none
or_else-none none p h = refl
or_else-none (some a) p h = cc

contact_account-id :
    (texts : Texts) (tenant id : ℕ) (side : Side) (contact : ℕ) (c : Contact)
    → (contact_account texts tenant id side contact c).id ≡ id
contact_account-id texts tenant id receivable_from contact c = refl
contact_account-id texts tenant id payable_to contact c = refl

module _ (texts : Texts) (tenant : ℕ) where
  find_account-new :
      (id : ℕ) (new : Account) (accounts : List Account)
      → new.id ≡ id
      → IsNew tenant new
      → find_account (is_live tenant id) accounts ≡ none
      → find_account (is_live tenant id) (accounts ++ new ∷ []) ≡ some new
  find_account-new id new accounts named_so blank h =
      find_account-append (is_live tenant id) accounts new h
        (rw (named_so, blank.of_tenant, blank.undeleted) (ground arith))

  resolve_defined_again :
      (key : String) (accounts : List Account) (o : Option Definition) {id : ℕ}
      {after : List Account}
      → resolve_defined texts tenant key accounts o ≡ ok (id, after)
      → resolve_defined texts tenant key after o ≡ ok (id, after)
  unfolding resolve_defined
  resolve_defined_again key accounts none h = cc
  resolve_defined_again key accounts (some d) h =
      let id = texts.account_uuid (standard key) tenant in
      let new = new_account id tenant d.name d.code d.account_type (some d.account_group) in
      found_or_added_again
        (λ xs.
          or_else (find_account (is_live tenant id) xs)
            (find_account (is_coded texts tenant d.code) xs))
        new accounts
        (λ missing.
          rw
            (find_account-new id new accounts refl
              (new_account-IsNew id tenant d.name d.code d.account_type (some d.account_group))
              (or_else-none _ _ missing))
            refl)
        h

  resolve_contact_account_again :
      (side : Side) (contact : ℕ) (accounts : List Account) (o : Option Contact) {id : ℕ}
      {after : List Account}
      → resolve_contact_account texts tenant side contact accounts o ≡ ok (id, after)
      → resolve_contact_account texts tenant side contact after o ≡ ok (id, after)
  unfolding resolve_contact_account
  resolve_contact_account_again side contact accounts none h = cc
  resolve_contact_account_again side contact accounts (some c) h =
      let id = texts.account_uuid (contact_key side contact) tenant in
      let new = contact_account texts tenant id side contact c in
      found_or_added_again (λ xs. find_account (is_live tenant id) xs) new accounts
        (λ missing.
          find_account-new id new accounts (contact_account-id texts tenant id side contact c)
            (contact_account-IsNew texts tenant id side contact c) missing)
        h

  -- Resolving the same key again on the table that a resolution has left, by any new resolver, comes to
  -- the same account and adds none.
  pub resolve_key_again :
      (contacts : List Contact) (key : AccountKey) (accounts : List Account) {id : ℕ}
      {after : List Account}
      → resolve_key texts tenant contacts key accounts ≡ ok (id, after)
      → resolve_key texts tenant contacts key after ≡ ok (id, after)
  unfolding resolve_key resolve_standard
  resolve_key_again contacts (standard s) accounts h =
      resolve_defined_again s accounts (definition_of s standard_accounts) h
  resolve_key_again contacts (customer c) accounts h =
      resolve_contact_account_again receivable_from c accounts (find_contact tenant c contacts) h
  resolve_key_again contacts (vendor c) accounts h =
      resolve_contact_account_again payable_to c accounts (find_contact tenant c contacts) h
