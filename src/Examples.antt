-- ===== src/Examples.antt =====
-- Runs of the model on concrete inputs, and each theorem at one of them.
mod Values
mod Statistics
mod Report
mod Addresses
mod Handlers
mod Bench
mod Routes
mod Search
mod Runs
mod Modules
mod Patch
mod Callers
