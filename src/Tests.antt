-- ===== src/Tests.antt =====
-- Runs of the model, and its theorems at concrete data.
mod Memory
mod Pools
mod Accounts
mod Rules
mod Commands
mod Expansion
mod Journey
mod Bundles
mod Requests
