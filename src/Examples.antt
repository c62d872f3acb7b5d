-- ===== src/Examples.antt =====
-- Runs of the operations on small tables, and each theorem applied to one of them.
mod Ranking
mod Ledger
mod Plans
mod Tables
mod Runs
mod Closing
mod Reconciling
mod Market
mod Topups
mod Requests
mod Routes
