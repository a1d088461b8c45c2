-- ===== src/Contract/Emp010/Tooling.antt =====
-- What `static_check` of scripts/check_emp010.py asks of the API document and the scripts.
pub mod Checked
use coupon_service.Base.{
  Bool, true, false, not, ◌&&◌, List, [], ◌∷◌, ◌++◌, String, ◌<>◌, Text, codes, text_beq,
}
use coupon_service.Contract.Report.{Reported, ◌>>◌, for_each, complain_if}
use coupon_service.Contract.Repo.{in_text}
use coupon_service.Contract.Emp010.Pattern.{
  require, uses, is_pinned, has_managed_registry, occurs_once, has_target,
}
use coupon_service.Documentation.Pattern.{find_all}

unfoldable pub check_openapi : String → Reported Text
unfolding in_text complain_if for_each
check_openapi openapi = do
  require (in_text "X-Request-Id:" openapi && in_text "#/components/headers/RequestId" openapi)
      (codes "canonical OpenAPI request-ID response header missing")

abbrev pub package_py_tokens : List String
package_py_tokens =
    "git\", \"ls-files" ∷ "FIXED_TIME" ∷ "CHECKSUMS.sha256" ∷ "strict_timestamps=True"
    ∷ "compresslevel=9" ∷ []

unfoldable pub check_package_py : String → Reported Text
unfolding in_text complain_if for_each
check_package_py package_py = do
  for_each package_py_tokens (λ token.
      require (in_text token package_py)
        (codes ("deterministic packaging token missing: " <> token)))
  require (not (in_text "date -u" package_py) && not (in_text "time.time" package_py))
      (codes "packaging must not use wall-clock time")

abbrev pub smoke_tokens : List String
smoke_tokens =
    "/actuator/prometheus" ∷ "X-Request-Id: smoke-request-010"
    ∷ "container structured JSON logging detected" ∷ []

unfoldable pub check_smoke : String → Reported Text
unfolding in_text complain_if for_each
check_smoke smoke = do
  for_each smoke_tokens (λ token.
      require (in_text token smoke)
        (codes ("Docker smoke observability evidence missing: " <> token)))
  require
      (in_text "tr -d '\\r' < \"$headers_file\"" smoke
        && in_text "smoke-request-010[[:space:]]*$" smoke)
      (codes "Docker smoke must normalize HTTP CRLF before request-ID header validation")

unfoldable pub check_makefile : String → Reported Text
unfolding in_text complain_if for_each has_target
check_makefile makefile = do
  require (has_target "emp010-check:" makefile) (codes "make emp010-check missing")
  require (has_target "delivery-check:" makefile) (codes "make delivery-check missing")
  require (in_text "scripts/check_emp010.py" makefile)
      (codes "Makefile does not invoke EMP-010 checker")
