-- ===== src/Tests.antt =====
-- The theorems at concrete ledgers, pools and contracts, and tests of the definitions.
mod Ledger
mod Worker
mod Heartbeats
mod Planning
mod Analytics
mod Runs
mod Configured
mod Alerts
