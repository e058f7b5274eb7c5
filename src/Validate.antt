-- ===== src/Validate.antt =====
-- common/request_validator.py
pub mod Checks
pub mod Requests
pub mod Nodes
pub mod Accepted
pub mod Costs
pub mod Hosts
mod Tests
