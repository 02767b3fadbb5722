-- ===== src/Policy.antt =====
-- The policy protocol: what is asked, the candidates, and the decision that combines them
-- (src/application/policy-decision.mjs, authorization-evaluator.mjs and their neighbours).
pub mod Types
pub mod Decision
pub mod Evaluator
pub mod Statement
pub mod Resolver
pub mod Point
