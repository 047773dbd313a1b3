-- ===== src/Governance.antt =====
-- packages/governance/src: the two pure evaluators that decide a tool call, the policy evaluator
-- (policy.ts, evaluate-policy.ts) and the spend evaluator (evaluate-spend.ts).
pub mod Policy
pub mod Spend
mod Examples
