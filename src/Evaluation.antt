-- ===== src/Evaluation.antt =====
-- src/foliqant/evaluation: the measurements of a run against gold.
pub mod Spans
pub mod Records
pub mod Comparisons
pub mod Metrics
