-- ===== src/RateLimits.antt =====
-- internal/ratelimiter: the limits on the requests to an upstream.
pub mod AutoTune
pub mod Budget
mod Tests
