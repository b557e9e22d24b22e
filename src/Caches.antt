-- ===== src/Caches.antt =====
-- internal/caches: which responses are cached, and what the cache answers.
pub mod Policy
