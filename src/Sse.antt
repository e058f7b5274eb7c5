-- ===== src/Sse.antt =====
-- common/sse_handler.py, and the framing of common/models.py
pub mod Parser
pub mod Chunks
pub mod Framing
pub mod Stream
pub mod Delivery
mod Tests
