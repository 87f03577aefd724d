-- ===== src/Services.antt =====
-- The services behind the gateway, and the network between them.
pub mod Accounts
pub mod Payments
pub mod Posting
pub mod Stack
