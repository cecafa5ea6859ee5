-- ===== src/Integration.antt =====
-- Requests of other systems (backend/src/integrations/core).
pub mod Requests
pub mod Errors
pub mod Authenticate
pub mod Replay
pub mod Sessions
pub mod Process
pub mod Shown
pub mod Genuine
pub mod Effect
pub mod Once
pub mod Again
pub mod Refused
