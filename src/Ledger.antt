-- ===== src/Ledger.antt =====
-- The stored ledger: accounts, journal entries, and the balances that are kept beside them
-- (backend/src/domains/accounting/services.py, roll_forward.py, and the tables of
-- backend/src/infrastructure/database/models.py).
pub mod Tables
pub mod Commit
pub mod Balances
pub mod Update
pub mod Invariant
pub mod Trial
pub mod Reach
pub mod Once
pub mod RollForward
pub mod RollForwardLaws
pub mod RollForwardAgain
