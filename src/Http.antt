-- ===== src/Http.antt =====
-- Package http: the client of the cloud's API (pkg/http/kophttp.go), and when it tries again.
pub mod Kop
pub mod Send
pub mod Names
pub mod Retry
pub mod Client
pub mod Posting
mod Tests
