-- ===== src/Coverage.antt =====
-- scripts/check_emp008.py: the static JaCoCo contract, the check of a measured report, and the
-- negative self-test of that check.
pub mod Xml
pub mod Counter
pub mod Floats
pub mod ReportTree
pub mod SelfTest
pub mod StaticContract
pub mod Main
