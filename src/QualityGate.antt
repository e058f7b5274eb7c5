-- ===== src/QualityGate.antt =====
-- common/quality_gate.py
pub mod Gate
pub mod Hardware
pub mod Metrics
pub mod Admits
mod Tests
