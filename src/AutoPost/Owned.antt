-- ===== src/AutoPost/Owned.antt =====
-- The accounts that a document is posted to are the tenant's.
use Prim.Native.String.{◌++◌ as concat}
use bookkeeping.Accounts.Resolver.{
  AccountKey, Contact, Resolving, Texts, customer, resolve, standard, vendor,
}
use bookkeeping.Accounts.ResolverLaws.{Owned}
use bookkeeping.Accounts.Session.{
  CacheOwned, Progress, Progress-refl, Progress-trans, resolve-Moved,
}
use bookkeeping.AutoPost.Resolution.{
  DocumentAccounts, TaxAccounts, TaxSide, bill_accounts, input_tax_accounts, invoice_accounts,
  output_tax_accounts, resolve_if, resolve_tax_accounts, suffix,
}
use bookkeeping.Base.{
  All, Bool, List, Option, [], bind-ok, false, none, ok, ok-injective, some, true, ℕ, ◌++◌, ◌∷◌,
  ◌≡◌,
}
use bookkeeping.Ledger.Tables.{Account}

abbrev pub option_list : Option ℕ → List ℕ
option_list none = []
option_list (some id) = id ∷ []

abbrev tax_list : TaxAccounts → List ℕ
tax_list t = t.round_off ∷ t.cess ∷ t.utgst ∷ t.igst ∷ t.sgst ∷ t.cgst ∷ []

abbrev pub document_list : DocumentAccounts → List ℕ
document_list d =
    option_list d.tcs ++ (option_list d.tds ++ (tax_list d.tax ++ (d.subject ∷ d.party ∷ [])))

abbrev pub AllOwned : ℕ → List ℕ → List Account → Type 0
AllOwned tenant ids accounts = All (λ id. Owned tenant id accounts) ids

-- A resolver that has come from a table, and what it has resolved, the last first.
pub record Session (tenant : ℕ) (start : List Account) (ids : List ℕ) (r : Resolving) : Type 0 where
  pub progress : Progress tenant start r.accounts
  pub cache_owned : CacheOwned tenant r
  pub all_owned : AllOwned tenant ids r.accounts

AllOwned-Progress :
    {tenant : ℕ} {before after : List Account} (ids : List ℕ)
    → Progress tenant before after
    → AllOwned tenant ids before
    → AllOwned tenant ids after
AllOwned-Progress [] p h = tt
AllOwned-Progress (id ∷ ids) p h = (p.kept id h.0, AllOwned-Progress ids p h.1)

module _ (texts : Texts) (tenant : ℕ) (contacts : List Contact) {start : List Account} where
  Session-resolve :
      (key : AccountKey) {ids : List ℕ} {r : Resolving} {found : ℕ × Resolving}
      → Session tenant start ids r
      → resolve texts tenant contacts key r ≡ ok found
      → Session tenant start (found.0 ∷ ids) found.1
  Session-resolve key {ids} {r} {found} s h =
      let m = resolve-Moved texts tenant contacts key r s.cache_owned h in
      record {
        progress = Progress-trans s.progress m.progress;
        cache_owned = m.cache_owned;
        all_owned = (m.owned, AllOwned-Progress ids m.progress s.all_owned);
      }

  Session-resolve_if :
      (b : Bool) (key : AccountKey) {ids : List ℕ} {r : Resolving} {found : Option ℕ × Resolving}
      → Session tenant start ids r
      → resolve_if texts tenant contacts b key r ≡ ok found
      → Session tenant start (option_list found.0 ++ ids) found.1
  Session-resolve_if false key {ids} {r} {found} s h =
      let e : (none, r) ≡ found = ok-injective h in rw (← e) s
  Session-resolve_if true key {ids} {r} {found} s h =
      let (one, e, last) = bind-ok (resolve texts tenant contacts key r) _ h in
      let e' : (some one.0, one.1) ≡ found = ok-injective last in
      rw (← e') (Session-resolve key s e)

  Session-resolve_tax_accounts :
      (side : TaxSide) {ids : List ℕ} {r : Resolving} {found : TaxAccounts × Resolving}
      → Session tenant start ids r
      → resolve_tax_accounts texts tenant contacts side r ≡ ok found
      → Session tenant start (tax_list found.0 ++ ids) found.1
  unfolding resolve_tax_accounts
  Session-resolve_tax_accounts side {ids} {r} {found} s h =
      let (a, ea, ha) =
        bind-ok (resolve texts tenant contacts (standard (concat "cgst" (suffix side))) r) _ h in
      let (b, eb, hb) =
        bind-ok (resolve texts tenant contacts (standard (concat "sgst" (suffix side))) a.1) _ ha in
      let (c, ec, hc) =
        bind-ok (resolve texts tenant contacts (standard (concat "igst" (suffix side))) b.1) _ hb in
      let (d, ed, hd) =
        bind-ok (resolve texts tenant contacts (standard (concat "utgst" (suffix side))) c.1) _
          hc in
      let (e, ee, he) =
        bind-ok (resolve texts tenant contacts (standard (concat "cess" (suffix side))) d.1) _ hd in
      let (f, ef, last) = bind-ok (resolve texts tenant contacts (standard "round_off") e.1) _ he in
      let done = ok-injective last in
      rw (← done) (
        Session-resolve _
          (Session-resolve _
            (Session-resolve _
              (Session-resolve _ (Session-resolve _ (Session-resolve _ s ea) eb) ec) ed)
            ee)
          ef)

  start-Session : Session tenant start [] (record { cache = []; accounts = start })
  start-Session = record { progress = Progress-refl; cache_owned = tt; all_owned = tt }

  pub invoice_accounts-owned :
      (contact : ℕ) (has_tds has_tcs : Bool) {found : DocumentAccounts × List Account}
      → invoice_accounts texts tenant contacts contact has_tds has_tcs start ≡ ok found
      → Progress tenant start found.1 × AllOwned tenant (document_list found.0) found.1
  unfolding invoice_accounts
  invoice_accounts-owned contact has_tds has_tcs {found} h =
      let (a, ea, ha) =
        bind-ok
          (resolve texts tenant contacts (customer contact)
            (record { cache = []; accounts = start }))
          _ h in
      let (b, eb, hb) =
        bind-ok (resolve texts tenant contacts (standard "sales_revenue") a.1) _ ha in
      let (c, ec, hc) =
        bind-ok (resolve_tax_accounts texts tenant contacts output_tax_accounts b.1) _ hb in
      let (d, ed, hd) =
        bind-ok (resolve_if texts tenant contacts has_tds (standard "tds_receivable") c.1) _ hc in
      let (e, ee, last) =
        bind-ok (resolve_if texts tenant contacts has_tcs (standard "liability.tcs") d.1) _ hd in
      let done = ok-injective last in
      let s =
        Session-resolve_if has_tcs _
          (Session-resolve_if has_tds _
            (Session-resolve_tax_accounts output_tax_accounts
              (Session-resolve _ (Session-resolve (customer contact) start-Session ea) eb) ec)
            ed)
          ee in
      rw (← done) (s.progress, s.all_owned)

  pub bill_accounts-owned :
      (contact : ℕ) (has_tds : Bool) {found : DocumentAccounts × List Account}
      → bill_accounts texts tenant contacts contact has_tds start ≡ ok found
      → Progress tenant start found.1 × AllOwned tenant (document_list found.0) found.1
  unfolding bill_accounts
  bill_accounts-owned contact has_tds {found} h =
      let (a, ea, ha) =
        bind-ok
          (resolve texts tenant contacts (vendor contact) (record { cache = []; accounts = start }))
          _ h in
      let (b, eb, hb) = bind-ok (resolve texts tenant contacts (standard "purchases") a.1) _ ha in
      let (c, ec, hc) =
        bind-ok (resolve_tax_accounts texts tenant contacts input_tax_accounts b.1) _ hb in
      let (d, ed, last) =
        bind-ok (resolve_if texts tenant contacts has_tds (standard "liability.tds") c.1) _ hc in
      let done = ok-injective last in
      let s =
        Session-resolve_if has_tds _
          (Session-resolve_tax_accounts input_tax_accounts
            (Session-resolve _ (Session-resolve (vendor contact) start-Session ea) eb) ec)
          ed in
      rw (← done) (s.progress, s.all_owned)
