-- ===== src/Lib.antt =====
-- Bookkeeping: double-entry posting, the ledger, GST, open periods, stock locations, and requests of
-- other systems.
--
-- The program is the backend of a bookkeeping service. A document (an invoice, a bill, an expense, a
-- note, a return, a payment) is taxed by the GST engine and turned by the posting engine into a
-- journal entry draft; the draft is committed to the ledger, which stores the entry and recalculates
-- the balances of the accounts it names. A date is tested against the tenant's financial years and
-- periods before anything is posted to it, stock moves carry the balance of their warehouse, and a
-- year that is closed hands its balances to the next.
--
-- Money models the amounts: `Numeric(15, 4)` columns and `Decimal.quantize`, as integers of
-- ten-thousandths of a rupee. The width of the columns is not modelled: integers have no bound here.
--
-- Posting models the classes `JournalLineDraft`, `JournalEntryDraft` and `LedgerPostingEngine` of
-- backend/src/domains/accounting/services.py. A posting function is the list of the statements
-- `lines.append(JournalLineDraft(...))` that it runs, in their order (`invoice_appends` and so on), which
-- `build` runs; `entry_draft` then checks the entry. Posting.Draft, Posting.Lines, Posting.Invoices,
-- Posting.Bills, Posting.Documents, Posting.Notes, Posting.Returns and Posting.Payments hold the
-- definitions; Posting.Effect says what a list of appends moves on a selection of accounts,
-- Posting.Outcome when it goes through; Posting.Settlement and Posting.Reversal have the documents'
-- theorems. A refused line raises `LedgerValidationError`, which is a value of `Result`.
--
-- Ledger models `update_account_balances` and `commit_ledger_draft` of the same file
-- (Ledger.Commit) on the tables of backend/src/infrastructure/database/models.py (Ledger.Tables): the
-- ledger is the list of its accounts and the list of its entries with their lines, and a flush checks
-- the constraints of the two journal tables. Ledger.Invariant, Ledger.Trial, Ledger.Reach and
-- Ledger.Once are about sequences of commits. Ledger.RollForward is `carry_forward_balances` of
-- backend/src/domains/accounting/roll_forward.py, and Inventory.CarryForward is the
-- `carry_forward_inventory` of that file. The balances are sums of values of four places, so
-- that `quantize(Decimal("0.0001"))` changes nothing and is left out.
--
-- Accounts models `_STANDARD_ACCOUNTS` and `AccountResolver` of services.py: Accounts.Standard is
-- the table, Accounts.Resolver finds the account of a key by its identifier or its code, or adds it.
-- The identifiers that `uuid5` makes and `upper` are the record `Texts`, an argument of which
-- nothing is assumed. AutoPost models `auto_post_invoice`, `auto_post_bill`, `auto_post_credit_note`
-- and `auto_post_debit_note` of backend/src/domains/accounting/auto_post.py, which put the parts
-- together: AutoPost.Resolution has the accounts of a document, AutoPost.Stock its stock moves,
-- AutoPost.Documents and AutoPost.Notes the functions, from the guard against posting twice to the
-- last move. An exception leaves the caller's transaction to be rolled back, so that it is an error
-- without a state. The sessions of backend/src/core/database.py do not flush before a query: the
-- stock moves of a document are a session with the tables as last flushed, the movements that were
-- added and the stocks that were set, and `flush_stock` is the flush at the end. Quantities are in
-- ten-thousandths and the stock of a product in hundredths, as the columns are; what the column
-- keeps of a stock is an argument, the field `stock_column` of `Inventory`. That it keeps whole
-- hundredths is a hypothesis where it is needed. Accounts.ResolverLaws, Accounts.Again,
-- Accounts.Sound, Accounts.Session, AutoPost.Owned, AutoPost.Named, AutoPost.Sound,
-- AutoPost.Appends, AutoPost.Posted, AutoPost.StockLaws, AutoPost.Sessions, AutoPost.InStock,
-- AutoPost.Stocked, AutoPost.Kept and AutoPost.NotesKept hold the lemmas and theorems.
--
-- Gst models backend/src/domains/taxation/services.py: Gst.Decimals the roundings, Gst.StateCodes
-- the comparison of state codes as lists of character codes, Gst.Places where a supply is,
-- Gst.Engine `calculate_tax`, Gst.Modes the resolutions of the tax mode, and Gst.FilingLock the
-- guards of backend/src/domains/taxation/filing_lock.py. A `Decimal` is a coefficient and a number
-- of places; rates and amounts that are computed with are natural numbers of ten-thousandths, after
-- the guards have refused negative ones. Decimals are exact: the 28 digits of the default context
-- are not modelled.
--
-- Periods models `validate_period_open` of backend/src/domains/accounting/period_lock.py; dates are day
-- numbers. Inventory.Warehouses models backend/src/domains/inventory/services.py.
--
-- Integration models backend/src/integrations/core: Integration.Authenticate is auth.py, tenant.py
-- and signatures.py, Integration.Errors exceptions.py, Integration.Replay replay.py,
-- Integration.Sessions the database and the session, and Integration.Process
-- `IntegrationRequestProcessor.process` of idempotency.py. A request of another system is
-- authenticated, its event and key are claimed, its handler runs, and the record of the claim, the
-- log and what the handler did are committed together or rolled back together. `RequestSession` has
-- the committed database and what the transaction has written, which a handler leaves behind when it
-- fails, with `rollback` and `commit`. The database is the connections and tenants, the replay
-- records, the log, and a state of any type that the handler changes; the handler is an argument. So
-- is the record `Libraries` of hashing, encryption, JSON and time, of which the code relies on
-- decryption undoing encryption. A claim that waits for another session is given the records that
-- each of its 100 rounds sees. Times of the log are left out, and no code deletes records that have
-- expired. Integration.Genuine, Integration.Effect, Integration.Once, Integration.Again and
-- Integration.Refused hold the theorems, Integration.Shown their steps.
--
-- Every function is structural recursion over a list, or over the 100 rounds of the waiting claim, so
-- there is no other fuel. Identifiers are only compared and are natural numbers. Row locks, the
-- transaction that a caller commits or rolls back, the clock and the session's context are not
-- modelled, except that the context's values are arguments.
-- Not modelled: the allocation of tax over document lines, `recalculate_all_account_balances`, the
-- automatic posting of expenses and returns, the cancellations, the middleware for idempotency
-- keys, the request handlers, reports, printing, scanning and the mapping of the documents of other
-- systems.
--
-- Base and Int are the shared helpers: lists, results and integers over the native natural numbers.
-- Tests holds runs at concrete inputs.
pub mod Base
pub mod Int
pub mod Money
pub mod Posting
pub mod Ledger
pub mod Gst
pub mod Periods
pub mod Inventory
pub mod Integration
pub mod Accounts
pub mod AutoPost
mod Tests
