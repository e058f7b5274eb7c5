-- ===== src/Router.antt =====
-- gateway/router.py
pub mod State
pub mod Select
pub mod Selection
pub mod Strategies
pub mod Affinity
pub mod Sticky
pub mod Budget
pub mod Route
pub mod Slots
pub mod Interleaving
pub mod Spending
mod Tests
