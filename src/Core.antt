-- ===== src/Core.antt =====
-- v4/src/matchtrader/core: what the other packages share.
pub mod Reason
pub mod RateLimiter
pub mod Renewal
pub mod Request
