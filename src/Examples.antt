-- ===== src/Examples.antt =====
-- Concrete runs of the model and the theorems at concrete states.
pub mod Engine
pub mod Image
pub mod Data
pub mod Runs
pub mod Serviced
pub mod Lookups
pub mod Isa
pub mod Apps
