-- ===== src/Client.antt =====
-- client/router.py
pub mod Nodes
pub mod Select
pub mod Sorting
pub mod Chosen
pub mod Turns
mod Tests
