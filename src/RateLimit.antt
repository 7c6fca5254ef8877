-- ===== src/RateLimit.antt =====
-- backend/app/services/rate_limit.py: the capped store of counters, and the client that a request
-- is counted against. Storage and Key are the code, Cap and Proxies what they keep.
pub mod Storage
pub mod Sweep
pub mod Key
pub mod Cap
pub mod Proxies
