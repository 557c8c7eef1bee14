-- ===== src/Examples.antt =====
-- Concrete runs of the model, and the theorems at concrete values.
pub mod Gpus
pub mod Runs
pub mod Services
pub mod Jobs
pub mod Runners
pub mod Stores
pub mod Executors
pub mod Texts
