-- ===== src/Decisions.antt =====
-- src/foliqant/decisions and contracts/decisions.py: typed business decisions and their checks.
pub mod Graph
pub mod Contracts
pub mod Problems
pub mod Answerability
pub mod Relations
pub mod Output
pub mod Plan
pub mod Native
