-- ===== src/Tests/Hardware.antt =====
-- Probes, plans, soaks and observations of src/ptlab/hardware.py, on a simulated watch.
pub mod Watch
pub mod Plan
pub mod Soak
pub mod Advertising
