-- ===== src/Tests.antt =====
-- Runs of the model at concrete inputs.
mod Values
mod Bindings
mod Sample
mod Runs
mod Slots
mod Decisions
mod Retries
mod Evaluations
