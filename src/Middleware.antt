-- ===== src/Middleware.antt =====
-- Package internal/middleware: who may send a request.
pub mod Downstream
