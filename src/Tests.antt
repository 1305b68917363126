-- ===== src/Tests.antt =====
-- Runs on concrete inputs, and the theorems at concrete inputs.
pub mod Names
pub mod Limits
pub mod Rules
pub mod Samples
pub mod Resources
pub mod Jobs
pub mod Runs
pub mod Keys
pub mod Store
pub mod Retries
pub mod Deliveries
pub mod Endings
pub mod CommandLine
pub mod Clients
pub mod Fakes
