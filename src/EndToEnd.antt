-- ===== src/EndToEnd.antt =====
-- The gateway's handlers over the services behind them (account-service, transaction-service) and
-- a network with faults.
pub mod Patch
pub mod Saga
pub mod Money
pub mod Transfers
pub mod Reversal
pub mod Approval
pub mod Deposits
pub mod Lifecycle
pub mod Scoring
