-- ===== src/RequestQueue.antt =====
-- inference_node/request_queue.py
pub mod State
pub mod Operations
pub mod Steps
pub mod Counts
pub mod Quiet
pub mod Work
pub mod Bounds
pub mod Futures
pub mod Running
mod Tests
