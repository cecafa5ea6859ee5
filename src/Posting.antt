-- ===== src/Posting.antt =====
-- `LedgerPostingEngine` (backend/src/domains/accounting/services.py): what each document posts.
pub mod Draft
pub mod Lines
pub mod Effect
pub mod Outcome
pub mod Parts
pub mod Invoices
pub mod Bills
pub mod Documents
pub mod Notes
pub mod Returns
pub mod Payments
pub mod Reversal
pub mod Amounts
pub mod Settlement
