-- ===== src/Contract/Emp010/Tooling/Checked.antt =====
-- When the checks of the API document and the scripts find no error.
use coupon_service.Base.{◌≡◌, true, not, ◌&&◌, String, ◌<>◌, codes, All}
use coupon_service.Contract.Emp010.Pattern.{has_target}
use coupon_service.Contract.Laws.{Checks, seq, each, unless}
use coupon_service.Contract.Repo.{in_text}
use coupon_service.Contract.Emp010.Tooling.{
  check_openapi, check_package_py, check_smoke, check_makefile, package_py_tokens, smoke_tokens,
}

abbrev pub IsOpenapi : String → Type 0
IsOpenapi openapi =
    ((in_text "X-Request-Id:" openapi && in_text "#/components/headers/RequestId" openapi) ≡ true)

pub check_openapi-Checks : (openapi : String) → Checks (check_openapi openapi) (IsOpenapi openapi)
unfolding check_openapi
check_openapi-Checks openapi =
    (unless (in_text "X-Request-Id:" openapi && in_text "#/components/headers/RequestId" openapi)
      (codes "canonical OpenAPI request-ID response header missing"))

abbrev pub IsPackagePy : String → Type 0
IsPackagePy package_py =
    (All (λ token. (in_text token package_py) ≡ true) package_py_tokens
      × ((not (in_text "date -u" package_py) && not (in_text "time.time" package_py)) ≡ true))

pub check_package_py-Checks :
    (package_py : String) → Checks (check_package_py package_py) (IsPackagePy package_py)
unfolding check_package_py
check_package_py-Checks package_py =
    (seq _ _
      (each (λ token. (in_text token package_py) ≡ true) package_py_tokens _
        (λ token.
          unless (in_text token package_py)
            (codes ("deterministic packaging token missing: " <> token))))
      (unless (not (in_text "date -u" package_py) && not (in_text "time.time" package_py))
        (codes "packaging must not use wall-clock time")))

abbrev pub IsSmoke : String → Type 0
IsSmoke smoke =
    (All (λ token. (in_text token smoke) ≡ true) smoke_tokens
      × ((in_text "tr -d '\\r' < \"$headers_file\"" smoke
            && in_text "smoke-request-010[[:space:]]*$" smoke)
          ≡ true))

pub check_smoke-Checks : (smoke : String) → Checks (check_smoke smoke) (IsSmoke smoke)
unfolding check_smoke
check_smoke-Checks smoke =
    (seq _ _
      (each (λ token. (in_text token smoke) ≡ true) smoke_tokens _
        (λ token.
          unless (in_text token smoke)
            (codes ("Docker smoke observability evidence missing: " <> token))))
      (unless
        (in_text "tr -d '\\r' < \"$headers_file\"" smoke
          && in_text "smoke-request-010[[:space:]]*$" smoke)
        (codes "Docker smoke must normalize HTTP CRLF before request-ID header validation")))

abbrev pub IsMakefile : String → Type 0
IsMakefile makefile =
    (((has_target "emp010-check:" makefile) ≡ true)
      × (((has_target "delivery-check:" makefile) ≡ true)
          × ((in_text "scripts/check_emp010.py" makefile) ≡ true)))

pub check_makefile-Checks :
    (makefile : String) → Checks (check_makefile makefile) (IsMakefile makefile)
unfolding check_makefile
check_makefile-Checks makefile =
    (seq _ _ (unless (has_target "emp010-check:" makefile) (codes "make emp010-check missing")) (
      seq _ _ (unless (has_target "delivery-check:" makefile) (codes "make delivery-check missing"))
        (unless (in_text "scripts/check_emp010.py" makefile)
          (codes "Makefile does not invoke EMP-010 checker"))))
