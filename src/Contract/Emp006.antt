-- ===== src/Contract/Emp006.antt =====
-- scripts/check_emp006.py: the contract of the trusted client address and of the geolocation provider.
pub mod Tokens
pub mod Checked
use coupon_service.Base.{
  Bool, true, false, not, ◌&&◌, ◌||◌, Option, none, some, List, [], ◌∷◌, String, ◌<>◌,
  if◌then◌else◌, select, keys, any_of,
}
use coupon_service.Contract.Report.{
  Report, Exit, ◌>>◌, ◌>>=◌, complain, complain_if, for_each, error_lines, conclude,
}
use coupon_service.Contract.Repo.{
  Repo, is_file, read, in_text, missing_tokens, has_prompt_file, has_suffix, is_under,
}
use coupon_service.Contract.Emp006.Tokens.{required, pom_tokens, started_states}

abbrev pub absent : String → String
absent path = "missing EMP-006 implementation file: " <> path

abbrev pub lacking : String → String → String
lacking path token = path <> " missing token: " <> token

-- `require(path, tokens, errors)`
unfoldable pub require : Repo → String × List String → Report
unfolding missing_tokens
require repo (path, tokens) =
    if not (is_file repo path)
    then complain (absent path)
    else (do content ← read repo path; missing_tokens (lacking path) tokens content)

abbrev pub smoke : String
smoke = "scripts/docker_smoke.sh"

-- `read(smoke) if smoke.is_file() else ""`
unfoldable pub smoke_text : Repo → Option String
smoke_text repo = if is_file repo smoke then read repo smoke else some ""

-- a port or a container that is not the script's own
unfoldable pub smoke_isolated : String → Report
unfolding complain_if
smoke_isolated content = do
  complain_if (in_text "18080" content) "Docker smoke must not reserve a fixed port"
  complain_if (in_text "docker stop" content || in_text "docker rm" content)
      "Docker smoke must clean up only its own Compose project"

abbrev pub pom_lacking : String → String
pom_lacking token = "pom.xml missing EMP-006 dependency token: " <> token

-- `f"Implementation EMP-004:** `{state}`" in status` for one of the states
abbrev pub implementation_started : String → Bool
implementation_started status =
    any_of (λ state. in_text ("Implementation EMP-004:** `" <> state <> "`") status) started_states

abbrev pub describes_redemption : String → Bool
describes_redemption openapi = in_text "/api/v1/coupons/{code}/redemptions" openapi

-- `JAVA.rglob("*.java")`
unfoldable pub sources : Repo → List String
unfolding is_under has_suffix
sources repo =
    select
      (λ path.
        is_under "src/main/java/pl/radoslawpiatek/couponservice/geolocation" path
        && has_suffix ".java" path)
      (keys repo)

-- `and` binds tighter than `or`
abbrev pub leaks : String → Bool
leaks content =
    in_text "Logger" content
    || in_text "MDC" content
    || in_text "raw IP" content && not (in_text "Javadoc" content)

unfoldable pub privacy : Repo → String → Report
unfolding complain_if
privacy repo path = do
  content ← read repo path
  complain_if (leaks content) ("privacy review required for geolocation source: " <> path)

abbrev pub not_loopback : String
not_loopback = "docker-compose.yml must bind the application port to loopback"

abbrev pub too_early : String
too_early = "EMP-006 must not add redemption before EMP-004 implementation starts"

abbrev pub prompt_file : String
prompt_file = "repository contains forbidden CODEX_PROMPT.md"

abbrev pub loopback : String
loopback = "127.0.0.1:${APP_PORT:-8080}:8080"

unfoldable pub errors : Repo → Report
unfolding for_each require smoke_text smoke_isolated complain_if missing_tokens has_prompt_file
    sources privacy
errors repo = do
  for_each required (require repo)
  content ← smoke_text repo
  smoke_isolated content
  compose ← read repo "docker-compose.yml"
  complain_if (not (in_text loopback compose)) not_loopback
  pom ← read repo "pom.xml"
  missing_tokens pom_lacking pom_tokens pom
  openapi ← read repo "docs/api/openapi.yaml"
  status ← read repo "docs/project/current-status.md"
  complain_if (describes_redemption openapi && not (implementation_started status)) too_early
  complain_if (has_prompt_file repo) prompt_file
  for_each (sources repo) (privacy repo)

abbrev pub success : String
success = "SUCCESS: EMP-006 trusted client IP and GeoIP implementation contract valid"

unfoldable pub main : Repo → Exit
unfolding errors conclude
main repo = conclude error_lines success (errors repo)
