-- ===== src/Core.antt =====
-- src/foliqant/core: the values and the engine that run one compiled workflow.
pub mod Errors
pub mod Result
pub mod Json
pub mod Usage
pub mod Pricing
pub mod Budget
pub mod Identity
pub mod Plan
pub mod Bindings
pub mod Conditions
pub mod Execution
pub mod Exec
pub mod Retry
pub mod Admission
pub mod Runner
