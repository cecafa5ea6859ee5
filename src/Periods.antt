-- ===== src/Periods.antt =====
-- Which dates may be posted to (backend/src/domains/accounting/period_lock.py).
pub mod Lock
pub mod LockLaws
