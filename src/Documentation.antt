-- ===== src/Documentation.antt =====
-- scripts/check_documentation.py: the governance of the project's documents.
pub mod Pattern
pub mod Tree
pub mod Problem
pub mod Table
pub mod Backlog
pub mod Refinements
pub mod Status
pub mod Surviving
pub mod Links
pub mod Hygiene
pub mod Registers
pub mod Main
