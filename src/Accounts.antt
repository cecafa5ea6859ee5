-- ===== src/Accounts.antt =====
-- The accounts that postings name (backend/src/domains/accounting/services.py).
pub mod Standard
pub mod Resolver
pub mod ResolverLaws
pub mod Again
pub mod Sound
pub mod Session
