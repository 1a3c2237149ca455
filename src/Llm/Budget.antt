-- ===== src/Llm/Budget.antt =====
-- scanner/src/aegify/llm/budget.py: `TokenBudget`. A method takes the budget and
-- returns its result, or the error that it raises, beside the budget that it leaves. The lock makes
-- each method one step.
pub mod State
pub mod Reserve
pub mod Settle
pub mod Usage
pub mod Invariant
pub mod Admission
pub mod Accounting
pub mod Snapshots
pub mod Reachable
pub mod Tests
