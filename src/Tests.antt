-- ===== src/Tests.antt =====
-- Concrete runs, stages and services, and the theorems at work on them.
pub mod Data
pub mod Queue
pub mod Delivery
pub mod Steering
pub mod Stages
pub mod Registries
pub mod Checks
pub mod Requests
pub mod Tools
pub mod Gateway
pub mod Limits
