-- ===== src/Traffic.antt =====
-- scripts/generate-traffic.py: the HTTP helper, the token cache and the seeding of accounts
-- (Client), the scenarios (Scenarios), and the choice of scenarios with the main loop (Schedule).
pub mod Client
pub mod Scenarios
pub mod Schedule
