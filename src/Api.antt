-- ===== src/Api.antt =====
-- The client of the site: api/rate_limiter.py.
pub mod RateLimiter
