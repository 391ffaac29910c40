-- ===== src/Execution.antt =====
-- Orders, fills and the account (execution/).
pub mod Number
mod Examples
mod OrderRuns
mod BrokerRuns
pub mod Orders
pub mod Portfolio
pub mod Router
pub mod Costs
pub mod Broker
