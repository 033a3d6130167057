-- ===== src/Tests.antt =====
-- Concrete runs of the definitions.
mod Wire
mod Gatt
mod Transfer
mod Control
mod Hardware
mod Scenario
mod Processes
mod Sim
mod Workspace
mod Artifacts
