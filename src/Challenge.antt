-- ===== src/Challenge.antt =====
-- cloudflare/challenge-worker: the worker that trades a solved challenge for a signed ticket.
pub mod Platform
pub mod Tickets
pub mod Turnstile
pub mod Handler
pub mod Verified
pub mod Redirects
mod Tests
