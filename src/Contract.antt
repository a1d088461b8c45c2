-- ===== src/Contract.antt =====
-- The static contract checkers scripts/check_*.py that look for files and tokens in the repository.
pub mod Report
pub mod Repo
pub mod Laws
pub mod Surviving
pub mod Emp003
pub mod Emp004
pub mod Emp006
pub mod Emp007
pub mod Emp009
pub mod Emp010
pub mod Emp011
pub mod Refinement008
pub mod Refinement011
