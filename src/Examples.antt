-- ===== src/Examples.antt =====
-- Concrete runs: a small repository that is exported, a coverage report, and repositories that meet
-- the contracts.
mod Source
mod Documentation
mod Delivery
mod Refinement
mod Coverage
mod Contracts
