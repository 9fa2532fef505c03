-- ===== src/Adapters.antt =====
-- src/foliqant/adapters: the parts that classify what a provider answers.
pub mod Responses
