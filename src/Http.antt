-- ===== src/Http.antt =====
-- internal/api/middleware: what happens to a request before an operation's handler sees it.
pub mod Reason
pub mod Address
pub mod Cors
pub mod Auth
