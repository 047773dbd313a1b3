-- ===== src/Budget.antt =====
-- packages/engine/src/workflows/model-budget.ts: the budget that one workflow's model calls share. A
-- budget without a native-operation scope is modelled.
pub mod Data
pub mod Counted
pub mod State
pub mod Calls
pub mod Settle
pub mod Idle
pub mod Refusals
pub mod Bounds
pub mod Admission
pub mod Admitted
pub mod Accounts
pub mod Settled
pub mod Traces
pub mod Balanced
pub mod Make
pub mod Made
mod Examples
