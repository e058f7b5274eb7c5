-- ===== src/Pool.antt =====
-- inference_node/model_pool.py
pub mod State
pub mod Operations
pub mod Eviction
pub mod Sound
pub mod Loads
mod Tests
