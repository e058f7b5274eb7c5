-- ===== src/Downloads.antt =====
-- inference_node/download_manager.py
pub mod State
pub mod Operations
pub mod Steps
pub mod Files
mod Tests
