-- ===== src/Contract/Refinement008/Tokens.antt =====
-- The tokens of scripts/check_emp008_refinement.py.
use coupon_service.Base.{List, [], ◌∷◌, String, Dict}

abbrev pub files : Dict String (List String)
files =
    (
      "docs/project/refinements/EMP-008.md",
      "Task-ID: EMP-008" ∷ "Stan-Refinementu:" ∷ "Implementation-Allowed:" ∷ "Coverage-Evidence:"
          ∷ "Javadoc-Warning-Baseline: 42" ∷ "JaCoCo-Version: 0.8.15" ∷ "LINE >= 80%"
          ∷ "BRANCH >= 70%" ∷ "LINE >=75%" ∷ "BRANCH >=65%" ∷ "Surefire" ∷ "Failsafe" ∷ "argLine"
          ∷ "target/site/jacoco/index.html" ∷ "target/site/jacoco/jacoco.xml" ∷ "coupon domain"
          ∷ "coupon application" ∷ "coupon persistence"
          ∷ "Client IP / GeoIP security-sensitive logic" ∷ "Testcontainers" ∷ "WireMock"
          ∷ "Na początku nie ma żadnych exclusions" ∷ "make verify" ∷ "manual" ∷ "missed branches"
          ∷ "new warnings = 0" ∷ "<=5" ∷ "OUT_OF_SCOPE" ∷ "EMP008-AC-01" ∷ "EMP008-AC-23"
          ∷ "CODEX_PROMPT.md" ∷ [],
    )
    ∷ ("docs/project/refinements/EMP-008-summary.md", "ACCEPTED" ∷ "42" ∷ [])
    ∷ (
      "docs/project/refinements/EMP-008-review-checklist.md",
      "ACCEPTED" ∷ "Implementation-Allowed: YES" ∷ "OUT_OF_SCOPE" ∷ [],
    )
    ∷ []

abbrev pub accepted_tokens : List String
accepted_tokens =
    "Zaakceptował: Radosław Piątek" ∷ "Data-Akceptacji: 2026-08-07"
    ∷ "org.jacoco:jacoco-maven-plugin:0.8.15" ∷ "LINE >= 80%" ∷ "BRANCH >= 70%" ∷ "LINE >=75%"
    ∷ "BRANCH >=65%" ∷ "Na początku nie ma żadnych exclusions" ∷ "finalny justified budget <=5"
    ∷ "new warnings = 0" ∷ "DocLint errors zawsze = 0" ∷ "OUT_OF_SCOPE" ∷ []

-- `f"EMP008-AC-{ac:02d}"` for the numbers from 1 to 23
abbrev pub criteria : List String
criteria =
    "EMP008-AC-01" ∷ "EMP008-AC-02" ∷ "EMP008-AC-03" ∷ "EMP008-AC-04" ∷ "EMP008-AC-05"
    ∷ "EMP008-AC-06" ∷ "EMP008-AC-07" ∷ "EMP008-AC-08" ∷ "EMP008-AC-09" ∷ "EMP008-AC-10"
    ∷ "EMP008-AC-11" ∷ "EMP008-AC-12" ∷ "EMP008-AC-13" ∷ "EMP008-AC-14" ∷ "EMP008-AC-15"
    ∷ "EMP008-AC-16" ∷ "EMP008-AC-17" ∷ "EMP008-AC-18" ∷ "EMP008-AC-19" ∷ "EMP008-AC-20"
    ∷ "EMP008-AC-21" ∷ "EMP008-AC-22" ∷ "EMP008-AC-23" ∷ []
