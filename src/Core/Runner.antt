-- ===== src/Core/Runner.antt =====
-- core/runner.py: the engine that runs one compiled workflow.
pub mod Self
pub mod Contexts
pub mod Ports
pub mod Flow
pub mod Repeat
pub mod Items
pub mod Batches
pub mod Collection
pub mod Routing
pub mod Routed
pub mod Whole
pub mod Admit
