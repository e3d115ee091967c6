-- ===== src/AuthState.antt =====
-- Package internal/authstate: admission of callers to the verification of an admin token.
pub mod Throttle
pub mod Queue
mod Examples
