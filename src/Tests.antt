-- ===== src/Tests.antt =====
-- The theorems at concrete data, and runs of the handlers that can be followed in the source.
mod Sample
mod Network
mod Tokens
mod Payments
mod Handlers
mod Accounts
mod Fraud
mod Traffic
mod Patches
mod Posting
mod Suite
