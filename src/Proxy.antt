-- ===== src/Proxy.antt =====
-- Package internal/proxy: the parts that decide which upstream and which key serve a request.
pub mod Health
pub mod Keys
pub mod Matcher
pub mod Cache
pub mod Usage
pub mod Sse
pub mod Stream
pub mod Active
mod Examples
