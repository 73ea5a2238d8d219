-- ===== src/Tests.antt =====
-- Sample accounts and runs of the program on them.
mod Sample
mod Numbers
mod Prices
mod Rounds
mod Ledgers
mod Battles
mod Admissions
mod Pairings
mod Services
mod Planner
