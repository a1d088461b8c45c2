-- ===== src/Coverage/StaticContract.antt =====
-- `static_contract_errors` of scripts/check_emp008.py: what pom.xml, the tracked files and .gitignore
-- have to say about JaCoCo.
use coupon_service.Base.{
  ◌==◌, Bool, true, false, not, ◌&&◌, Option, none, some, List, [], ◌∷◌, map, String, ◌<>◌, ◌=?◌,
  if◌then◌else◌, Text, codes, text_eq, string_eq, is_empty, any_of, select, lookup, occurs,
  starts_with, strip, rstrip, is_space, splitlines,
}
use coupon_service.Contract.Report.{Report, ◌>>◌, ◌>>=◌, nothing, complain, complain_if, for_each}
use coupon_service.Contract.Repo.{Item, Repo, read, has_prompt_file}
use coupon_service.Coverage.Xml.{
  Element, text, findall, find, first, descendants, stripped, node_text,
}
use coupon_service.Package.Paths.{lower}

-- the prefix `m:` stands for the namespace
abbrev pub named : String → Text
named name = codes ("{http://maven.apache.org/POM/4.0.0}" <> name)

abbrev pub path : List String → List Text
path = map named

-- `text(element, path)`
unfoldable pub text_at : Element → List String → Option Text
unfolding find
text_at e names = node_text (find (path names) e)

-- comparison with a literal
abbrev pub reads_as : Option Text → String → Bool
reads_as none literal = false
reads_as (some t) literal = t =? codes literal

unfoldable pub execution_among : String → List Element → Option Element
unfolding text_at
execution_among id [] = none
execution_among id (item ∷ items) =
    let rest = execution_among id items in
    if reads_as (text_at item ("id" ∷ [])) id then some item else rest

unfoldable pub execution : Element → String → Option Element
unfolding execution_among
execution plugin id = execution_among id (findall (path ("executions" ∷ "execution" ∷ [])) plugin)

abbrev pub is_jacoco : Element → Bool
is_jacoco plugin =
    reads_as (text_at plugin ("groupId" ∷ [])) "org.jacoco"
    && reads_as (text_at plugin ("artifactId" ∷ [])) "jacoco-maven-plugin"

-- `next((plugin for plugin in plugins if ...), None)`
unfoldable pub jacoco_plugin : Element → Option Element
unfolding findall text_at
jacoco_plugin root =
    first (select is_jacoco (findall (path ("build" ∷ "plugins" ∷ "plugin" ∷ [])) root))

-- "0.8.15" under the properties
abbrev pub pins_version : Option Element → Bool
pins_version none = false
pins_version (some properties) =
    reads_as (text_at properties ("jacoco-maven-plugin.version" ∷ [])) "0.8.15"

abbrev pub is_prepare : Element → Bool
is_prepare e = reads_as (text_at e ("goals" ∷ "goal" ∷ [])) "prepare-agent"

abbrev pub appends_data : Element → Bool
appends_data e =
    reads_as (text_at e ("configuration" ∷ "destFile" ∷ []))
      "${project.build.directory}/jacoco.exec"
    && reads_as (text_at e ("configuration" ∷ "append" ∷ [])) "true"

unfoldable pub check_prepare : Option Element → Report
unfolding text_at complain_if
check_prepare none = complain "missing jacoco-prepare-agent execution"
check_prepare (some e) =
    if not (is_prepare e)
    then complain "missing jacoco-prepare-agent execution"
    else complain_if (not (appends_data e)) "prepare-agent must append to target/jacoco.exec"

-- the execution runs the goal in the phase `verify`
abbrev pub runs_in_verify : String → Option Element → Bool
runs_in_verify goal none = false
runs_in_verify goal (some e) =
    reads_as (text_at e ("phase" ∷ [])) "verify"
    && reads_as (text_at e ("goals" ∷ "goal" ∷ [])) goal

abbrev pub is_limit : String → Element → Bool
is_limit counter limit =
    reads_as (text_at limit ("counter" ∷ [])) counter
    && reads_as (text_at limit ("value" ∷ [])) "COVEREDRATIO"

-- `limits.get((counter, "COVEREDRATIO"))`: the minimum of the last limit with that key
unfoldable pub limit_among : String → List Element → Option Text → Option Text
unfolding text_at
limit_among counter [] found = found
limit_among counter (limit ∷ limits) found =
    limit_among counter limits
      (if is_limit counter limit then text_at limit ("minimum" ∷ []) else found)

unfoldable pub limit_of : Element → String → Option Text
unfolding limit_among
limit_of check counter =
    limit_among counter
      (findall (path ("configuration" ∷ "rules" ∷ "rule" ∷ "limits" ∷ "limit" ∷ [])) check) none

abbrev pub cons_text : Option Text → List Text → List Text
cons_text none ts = ts
cons_text (some t) ts = t ∷ ts

-- `[node.text.strip() for node in nodes if node.text]`
unfoldable pub texts_of : List Element → List Text
texts_of [] = []
texts_of (node ∷ nodes) = cons_text (stripped (text node)) (texts_of nodes)

unfoldable pub includes_of : Element → List Text
unfolding findall texts_of
includes_of check = texts_of (findall (path ("configuration" ∷ "includes" ∷ "include" ∷ [])) check)

abbrev pub same_texts : List Text → List Text → Bool
same_texts [] [] = true
same_texts (s ∷ ss) (t ∷ ts) = s =? t && same_texts ss ts
same_texts [] (t ∷ ts) = false
same_texts (s ∷ ss) [] = false

-- an entry of `expected`
pub record Gate : Type 0 where
  pub id : String
  pub line : String
  pub branch : String
  pub includes : List String

abbrev pub critical_patterns : List String
critical_patterns =
    "pl/radoslawpiatek/couponservice/coupon/domain/**"
    ∷ "pl/radoslawpiatek/couponservice/coupon/application/**"
    ∷ "pl/radoslawpiatek/couponservice/coupon/adapters/persistence/**"
    ∷ "pl/radoslawpiatek/couponservice/geolocation/domain/**"
    ∷ "pl/radoslawpiatek/couponservice/geolocation/adapters/**" ∷ []

abbrev pub gates : List Gate
gates =
    record { id = "jacoco-check-global"; line = "0.80"; branch = "0.70"; includes = [] }
    ∷ record {
      id = "jacoco-check-critical";
      line = "0.75";
      branch = "0.65";
      includes = critical_patterns;
    }
    ∷ []

abbrev pub is_bundle : Element → Bool
is_bundle check =
    reads_as (text_at check ("configuration" ∷ "rules" ∷ "rule" ∷ "element" ∷ [])) "BUNDLE"

abbrev pub enforces : Gate → Element → Bool
enforces g check =
    reads_as (limit_of check "LINE") g.line && reads_as (limit_of check "BRANCH") g.branch

-- the rest of the loop body where the check is there
unfoldable pub check_rule : Gate → Element → Report
unfolding text_at limit_of includes_of complain_if
check_rule g check = do
  complain_if (not (is_bundle check)) (g.id <> " must use one BUNDLE aggregate")
  complain_if (not (enforces g check))
      (g.id <> " must enforce LINE " <> g.line <> " and BRANCH " <> g.branch)
  complain_if (not (same_texts (includes_of check) (map codes g.includes)))
      (g.id <> " has incorrect critical includes")

abbrev pub gate_of_execution : Gate → Option Element → Report
gate_of_execution g none = complain ("missing " <> g.id <> " verify check")
gate_of_execution g (some check) =
    if not (runs_in_verify "check" (some check))
    then complain ("missing " <> g.id <> " verify check")
    else check_rule g check

unfoldable pub check_gate : Element → Gate → Report
unfolding execution check_rule
check_gate jacoco g = gate_of_execution g (execution jacoco g.id)

-- what holds of the plugin where it is there
unfoldable pub check_plugin : Option Element → Report
unfolding text_at descendants execution check_prepare check_gate for_each complain_if
check_plugin none = complain "missing org.jacoco:jacoco-maven-plugin"
check_plugin (some jacoco) = do
  complain_if (not (reads_as (text_at jacoco ("version" ∷ [])) "${jacoco-maven-plugin.version}"))
      "JaCoCo plugin must use the pinned version property"
  complain_if (not (is_empty (descendants (named "excludes") jacoco)))
      "EMP-008 forbids JaCoCo exclusions"
  check_prepare (execution jacoco "jacoco-prepare-agent")
  complain_if (not (runs_in_verify "report" (execution jacoco "jacoco-report")))
      "JaCoCo report must run during verify"
  for_each gates (check_gate jacoco)

-- `path.exists()`
abbrev pub is_there : Option Item → Bool
is_there none = false
is_there (some item) = true

-- `any(path.startswith("target/") for path in tracked_files)`; `git ls-files` may fail
unfoldable pub check_tracked : Repo → Option Text → Report
unfolding starts_with splitlines complain_if
check_tracked repo ls_files =
    if is_there (lookup ".git" repo)
    then (do
      output ← ls_files
      complain_if (any_of (λ p. starts_with p (codes "target/")) (splitlines output))
          "generated target artifacts must not be tracked")
    else nothing

-- the text of .gitignore, empty where there is no such file
unfoldable pub gitignore : Repo → Option String
unfolding read
gitignore repo = if is_there (lookup ".gitignore" repo) then read repo ".gitignore" else some ""

-- `line.strip().rstrip("/") == "target"`
unfoldable pub excludes_target : Text → Bool
unfolding strip rstrip
excludes_target line = rstrip (λ c. c == b'/') (strip is_space line) =? codes "target"

-- `ET.parse(POM).getroot()` may raise; `lower` agrees with Python's on the search for "pitest".
unfoldable pub static_contract_errors : Repo → Option Element → Option Text → Report
unfolding find findall jacoco_plugin check_plugin lower occurs check_tracked gitignore
    excludes_target complain_if
static_contract_errors repo pom ls_files = do
  root ← pom
  complain_if (not (pins_version (find (path ("properties" ∷ [])) root)))
      "pom.xml must pin jacoco-maven-plugin.version to 0.8.15"
  check_plugin (jacoco_plugin root)
  pom_text ← read repo "pom.xml"
  complain_if (occurs (codes "pitest") (lower (codes pom_text))) "EMP-008 forbids PIT"
  complain_if (has_prompt_file repo) "forbidden CODEX_PROMPT.md"
  check_tracked repo ls_files
  ignored ← gitignore repo
  complain_if (not (any_of excludes_target (splitlines (codes ignored))))
      ".gitignore must exclude target"
