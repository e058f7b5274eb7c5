-- ===== src/RateLimit.antt =====
-- common/rate_limiter.py
pub mod Bucket
pub mod Window
pub mod Retry
pub mod Sweep
pub mod Limiter
pub mod Check
pub mod Counters
pub mod Connections
pub mod Leaves
pub mod Unmoved
pub mod Admission
mod Tests
