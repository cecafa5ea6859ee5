-- ===== src/Gst.antt =====
-- Tax on supplies, and filed returns (backend/src/domains/taxation/services.py and filing_lock.py).
pub mod Decimals
pub mod StateCodes
pub mod Engine
pub mod Totals
pub mod Modes
pub mod Places
pub mod Routes
pub mod FilingLock
pub mod FilingLockLaws
