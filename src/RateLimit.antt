-- ===== src/RateLimit.antt =====
-- Package internal/ratelimit: the parser of limit expressions, a token's window of counts, and
-- the limiter that keeps one window for each token.
pub mod Parser
pub mod Window
pub mod Limiter
mod Examples
