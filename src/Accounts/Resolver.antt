-- ===== src/Accounts/Resolver.antt =====
-- `AccountResolver` (backend/src/domains/accounting/services.py) on the rows of `Account` and `Contact`.
use Prim.Native.String.{◌++◌ as concat}
use text.Mathlib.Text.{◌==◌ as str_eq}
use bookkeeping.Accounts.Standard.{Definition, definition_of, standard_accounts}
use bookkeeping.Base.{
  Bool, List, Option, Result, String, [], any_of, err, false, if◌then◌else◌, none, not, ok, or_else,
  raise_if, some, true, ℕ, ◌&&◌, ◌++◌, ◌==◌, ◌>>=◌, ◌>>◌, ◌∷◌,
}
use bookkeeping.Int.{pos}
use bookkeeping.Ledger.Tables.{Account, AccountType, asset, liability}

-- The keys of contacts are written from their identifiers wherever the code resolves one.
pub data AccountKey : Type 0 where
  standard : String → AccountKey
  customer : ℕ → AccountKey
  vendor : ℕ → AccountKey

pub record Contact : Type 0 where
  pub id : ℕ
  pub tenant_id : ℕ
  pub name : String
  -- `deleted_at` is set
  pub deleted : Bool

-- `uuid.uuid5` of the text of a key and a tenant, the text of an identifier, and `upper` of Python and
-- of the database.
pub record Texts : Type 0 where
  pub account_uuid : AccountKey → ℕ → ℕ
  pub uuid_text : ℕ → String
  pub upper : String → String
  pub sql_upper : String → String

pub data ResolveError : Type 0 where
  unknown_standard_key : String → ResolveError
  contact_not_found : AccountKey → ResolveError
  -- the primary key of `accounts`, and `uq_account_tenant_code`
  duplicate_account_id duplicate_account_code : ResolveError

abbrev pub is_key : AccountKey → AccountKey → Bool
is_key (standard s) (standard t) = str_eq s t
is_key (customer a) (customer b) = a == b
is_key (vendor a) (vendor b) = a == b
is_key _ _ = false

-- `query.first()`
unfoldable pub find_account : (Account → Bool) → List Account → Option Account
find_account test [] = none
find_account test (a ∷ rest) = if test a then some a else find_account test rest

abbrev pub is_live : ℕ → ℕ → Account → Bool
is_live tenant id a = a.id == id && a.tenant_id == tenant && not a.deleted

abbrev pub is_coded : Texts → ℕ → String → Account → Bool
is_coded texts tenant code a =
    a.tenant_id == tenant && str_eq (texts.sql_upper a.code) (texts.upper code) && not a.deleted

unfoldable pub find_contact : ℕ → ℕ → List Contact → Option Contact
find_contact tenant id [] = none
find_contact tenant id (c ∷ cs) =
    if c.id == id && c.tenant_id == tenant && not c.deleted
    then some c
    else find_contact tenant id cs

abbrev pub same_id : Account → Account → Bool
same_id a b = b.id == a.id

abbrev pub same_code : Account → Account → Bool
same_code a b = b.tenant_id == a.tenant_id && str_eq b.code a.code

-- `db.add(account)` and `db.flush()`
unfoldable pub add_account : Account → List Account → Result ResolveError (List Account)
add_account a accounts = do
  raise_if (any_of (same_id a) accounts) duplicate_account_id
  raise_if (any_of (same_code a) accounts) duplicate_account_code
  ok (accounts ++ a ∷ [])

abbrev pub new_account : ℕ → ℕ → String → String → AccountType → Option String → Account
new_account id tenant name code type group = record {
  id = id;
  tenant_id = tenant;
  name = name;
  code = code;
  account_type = type;
  account_group = group;
  opening_balance = pos 0;
  current_balance = pos 0;
  is_active = true;
  deleted = false;
}

-- The account that is found, or the one that is added.
unfoldable pub found_or_added :
    Option Account → Account → List Account → Result ResolveError (ℕ × List Account)
unfolding add_account
found_or_added (some a) new accounts = ok (a.id, accounts)
found_or_added none new accounts = add_account new accounts >>= λ more. ok (new.id, more)

-- What is done with the definition of the key.
unfoldable pub resolve_defined :
    Texts → ℕ → String → List Account → Option Definition → Result ResolveError (ℕ × List Account)
unfolding found_or_added find_account
resolve_defined texts tenant key accounts none = err (unknown_standard_key key)
resolve_defined texts tenant key accounts (some d) =
    let id = texts.account_uuid (standard key) tenant in
    found_or_added
      (or_else (find_account (is_live tenant id) accounts)
        (find_account (is_coded texts tenant d.code) accounts))
      (new_account id tenant d.name d.code d.account_type (some d.account_group)) accounts

unfoldable pub resolve_standard :
    Texts → ℕ → String → List Account → Result ResolveError (ℕ × List Account)
unfolding resolve_defined
resolve_standard texts tenant key accounts =
    resolve_defined texts tenant key accounts (definition_of key standard_accounts)

-- The prefix of the key of a contact, "customer" or "vendor".
pub data Side : Type 0 where
  receivable_from payable_to : Side

abbrev pub contact_account : Texts → ℕ → ℕ → Side → ℕ → Contact → Account
contact_account texts tenant id receivable_from contact c =
    new_account id tenant (concat "Accounts Receivable - " c.name)
      (concat "AR-" (texts.uuid_text contact)) asset none
contact_account texts tenant id payable_to contact c =
    new_account id tenant (concat "Accounts Payable - " c.name)
      (concat "AP-" (texts.uuid_text contact)) liability none

abbrev pub contact_key : Side → ℕ → AccountKey
contact_key receivable_from contact = customer contact
contact_key payable_to contact = vendor contact

unfoldable pub resolve_contact_account :
    Texts → ℕ → Side → ℕ → List Account → Option Contact → Result ResolveError (ℕ × List Account)
unfolding found_or_added find_account
resolve_contact_account texts tenant side contact accounts none =
    err (contact_not_found (contact_key side contact))
resolve_contact_account texts tenant side contact accounts (some c) =
    let id = texts.account_uuid (contact_key side contact) tenant in
    found_or_added (find_account (is_live tenant id) accounts)
      (contact_account texts tenant id side contact c) accounts

unfoldable pub resolve_key :
    Texts → ℕ → List Contact → AccountKey → List Account → Result ResolveError (ℕ × List Account)
unfolding resolve_standard resolve_contact_account find_contact
resolve_key texts tenant contacts (standard s) accounts = resolve_standard texts tenant s accounts
resolve_key texts tenant contacts (customer c) accounts =
    resolve_contact_account texts tenant receivable_from c accounts (find_contact tenant c contacts)
resolve_key texts tenant contacts (vendor c) accounts =
    resolve_contact_account texts tenant payable_to c accounts (find_contact tenant c contacts)

-- The table of accounts, and the resolver's `_cache`.
pub record Resolving : Type 0 where
  pub cache : List (AccountKey × ℕ)
  pub accounts : List Account

unfoldable pub cached : AccountKey → List (AccountKey × ℕ) → Option ℕ
cached key [] = none
cached key ((k, id) ∷ rest) = if is_key k key then some id else cached key rest

-- `self._cache[key] = account_id`
abbrev pub remembered :
    AccountKey
    → List (AccountKey × ℕ)
    → Result ResolveError (ℕ × List Account)
    → Result ResolveError (ℕ × Resolving)
remembered key cache (err e) = err e
remembered key cache (ok (id, accounts)) =
    ok (id, record { cache = (key, id) ∷ cache; accounts = accounts })

abbrev pub resolve_cached :
    Texts
    → ℕ
    → List Contact
    → AccountKey
    → Resolving
    → Option ℕ
    → Result ResolveError (ℕ × Resolving)
resolve_cached texts tenant contacts key r (some id) = ok (id, r)
resolve_cached texts tenant contacts key r none =
    remembered key r.cache (resolve_key texts tenant contacts key r.accounts)

unfoldable pub resolve :
    Texts → ℕ → List Contact → AccountKey → Resolving → Result ResolveError (ℕ × Resolving)
unfolding resolve_key cached
resolve texts tenant contacts key r =
    resolve_cached texts tenant contacts key r (cached key r.cache)
