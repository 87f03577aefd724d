-- ===== src/Gateway.antt =====
-- gateway-api/main.py: the public REST gateway.
pub mod Http
pub mod Auth
pub mod Models
pub mod Roles
pub mod Transfer
pub mod Payments
pub mod Accounts
pub mod Routes
