-- ===== src/Lib.antt =====
-- A model of the Python tooling of coupon-service: the scripts that gate and package the repository.
--
-- The program's parts, and the files that model them:
--   * scripts/package_source.py, the export of the tracked source as a ZIP archive. Package/Paths is
--     `forbidden` with what it uses of pathlib; Package/Index is `tracked_entries`; Package/Manifest is
--     `parse_checksums`; Package/Source is `verify_source`; Package/Archive is `main`. An early exit is a
--     value of Package/Failure, with the Python errors that the script does not catch.
--   * scripts/generate_checksums.py, in Package/Checksums. It writes the manifest that the export reads.
--   * scripts/check_emp003.py, check_emp004.py, check_emp006.py, check_emp007.py and check_emp009.py, in
--     Contract/Emp003, Emp004, Emp006, Emp007 and Emp009; scripts/check_emp008_refinement.py, the state of
--     a refinement document, in Contract/Refinement008. A checker is a function of the repository's
--     files (Contract/Repo) into a report: the errors in their order, or the exception that ends it
--     (Contract/Report). Each has its token lists in a module Tokens and its contract,
--     as conditions on the files, in a module Checked. Contract/Laws turns the steps of a
--     checker into the conditions they establish.
--   * scripts/check_emp008.py, the coverage gate. Coverage/Xml is the tree of an XML file with `find` and
--     `findall`; Coverage/Counter has `counter` and `aggregate_package_counter`; Coverage/ReportTree has
--     `validate_report_tree` and `validate_report`; Coverage/SelfTest has `run_negative_self_test` with
--     its mutators; Coverage/StaticContract has `static_contract_errors`; Coverage/Main has `main`.
--   * scripts/check_emp011.py, the contract of the final review, in Contract/Emp011.
--   * scripts/check_emp011_refinement.py, the refinement of the final review, in Contract/Refinement011:
--     its metadata, Content and Documents with the other functions `validate_*`, and Main. Phase has the
--     four phases of its life as a type.
--   * scripts/check_emp010.py: the static contract in Contract/Emp010, with a module for each group of
--     files; the delivery check in Delivery, which exports twice by package_source.py and looks at the
--     archives. Delivery/Evidence says what it has seen, and Delivery/Hygiene what it finds in an archive
--     of Package/Archive.
--   * scripts/check_documentation.py, the checker of the documents, in Documentation: a function of the
--     working tree (Tree) into the errors by name (Problem). Pattern has its regular expressions and
--     Table `parse_markdown_table`. Backlog, Refinements, Status, Links, Hygiene and Registers have the
--     functions `validate_*`, and Main has `main`. The tasks that the backlog returns are what the
--     refinements and the status are checked against. Surviving and Main/Surviving follow the exceptions of a
--     read through the run, by the rules of Contract/Surviving.
-- Base has what they share: strings as lists of code points, the string methods of Python, UTF-8
-- decoding, association lists for dicts, `sorted`, sets and integers. Examples has concrete runs.
--
-- Parameters: SHA-256 is a function of the bytes. Git is a record of the outputs of its commands, `none`
-- being a `CalledProcessError`. Floating-point division and comparison are a record of operations, with
-- the hypothesis `IsExact` where a threshold is compared; it is met by fractions. XML parsing and
-- writing are a record with the hypothesis `IsFaithful`; it is met by a store of trees.
--
-- The commands of the delivery check are a record of their exit status, output and archives.
-- Unicode's decimal digits and word characters are a record of two tests.
--
-- All functions are total: every loop is structural recursion, so there is no fuel. Python's integers
-- are unbounded, and so are those of the model; the 16-bit mask of the permission bits is written out.
-- A text is what `read_text` returns, with line ends translated. The order in which `rglob` lists files
-- is the order of the model's repository. The working tree of check_documentation.py has no symbolic
-- links, and paths are sorted part by part, as pathlib does.
--
-- Corner cases that are left out: `int` reads ASCII digits only; a refinement id is looked up as it is
-- written, without resolving `..` or `.` in it; a link that pathlib refuses, such as one with a NUL or
-- an over-long name, is a broken link; `IsFaithful` has every element survive writing and parsing, also
-- an empty text or a control character, with which ElementTree is less exact.
--
-- Not modelled: the bytes of the ZIP format, the printed summaries, argparse, the checkers
-- check_bootstrap.py and the refinement checkers of EMP-004, EMP-006, EMP-009 and
-- EMP-010, the shell scripts, and the Java application with its tests.
pub mod Base
pub mod Package
pub mod Contract
pub mod Coverage
pub mod Documentation
pub mod Delivery
mod Examples
