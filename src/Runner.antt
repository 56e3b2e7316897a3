-- ===== src/Runner.antt =====
-- The scenario runner: pkg/runner. `Params` prepares a step's parameters, `Executor` is the table
-- of operations, `Poll` the waiting for a message, `Expect` the assertions, `Scenario` the run of
-- a whole scenario with its cleanup, `Matrix` its runs against several registrars, and `Directory`
-- the run of all scenarios of a directory.
pub mod Params
pub mod Step
pub mod Expect
pub mod Executor
pub mod Poll
pub mod Scenario
pub mod Matrix
pub mod Directory
mod Sample
