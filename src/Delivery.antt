-- ===== src/Delivery.antt =====
-- The delivery part of scripts/check_emp010.py: the two exports, the hygiene of the archives, and the
-- export of a mutated clone. What the commands do is given by the record of their results.
pub mod Evidence
pub mod Hygiene
use coupon_service.Base.{
  ℕ, Bool, true, false, not, ◌&&◌, ◌||◌, Option, none, some, List, [], ◌∷◌, ◌=?◌, if◌then◌else◌,
  String, Text, codes, text_eq, any_of, contains, is_empty, length, occurs, select, split_on,
}
use coupon_service.Base.Int.{ℤ, is_zero}
use coupon_service.Contract.Report.{Reported, reported, crashed}
use coupon_service.Contract.Repo.{Repo, ends_with}
use coupon_service.Contract.Emp010.{static_check}

-- The messages of the `RuntimeError`s, and a `CalledProcessError`.
pub data Problem : Type 0 where
  unclean command_failed : Problem
  export_failed not_closed : Text → Problem
  zips_found : ℕ → Problem
  exports_differ : Text → Text → Problem
  unwanted_entries : List Text → Problem

-- The value of a step, an error that `main` catches, or one that it does not.
pub data Step {ℓ} (A : Type ℓ) : Type ℓ where
  done : A → Step A
  refused : Problem → Step A
  traceback : Step A

infixl 5 ◌>>=◌ ◌>>◌
abbrev pub ◌>>=◌ {ℓ κ} : {A : Type ℓ} {B : Type κ} → Step A → (A → Step B) → Step B
done a >>= k = k a
refused p >>= k = refused p
traceback >>= k = traceback

abbrev pub ◌>>◌ {ℓ} : {B : Type ℓ} → Step (Unit {0}) → Step B → Step B
s >> k = s >>= λ _. k

-- `if not holds: raise RuntimeError(...)`
abbrev pub demand : Bool → Problem → Step (Unit {0})
demand true p = done tt
demand false p = refused p

-- `subprocess.check_call(...)`: whether it exits with status 0
abbrev pub check_call : Bool → Step (Unit {0})
check_call zero_status = demand zero_status command_failed

-- a call whose error is not caught
abbrev pub uncaught : Bool → Step (Unit {0})
uncaught true = done tt
uncaught false = traceback

-- the bytes of an archive, and `namelist()`; `none` is a `BadZipFile`
pub record Zip : Type 0 where
  pub bytes : Text
  pub names : Option (List Text)

-- a run of package_source.sh: its return code (negative where a signal ended it) and output, and the ZIP files in the output directory
pub record Export : Type 0 where
  pub returncode : ℤ
  pub stdout : Text
  pub zips : List Zip

abbrev pub check_output : Option Text → Step Text
check_output none = refused command_failed
check_output (some text) = done text

abbrev pub name_list : Option (List Text) → Step (List Text)
name_list none = traceback
name_list (some names) = done names

abbrev pub unwanted_parts : List Text
unwanted_parts =
    codes ".git"
    ∷ codes "target"
    ∷ codes "build"
    ∷ codes "dist"
    ∷ codes "coverage"
    ∷ codes "__pycache__"
    ∷ []

abbrev pub has_unwanted_part : Text → Bool
has_unwanted_part name = any_of (λ part. contains part (split_on b'/' name)) unwanted_parts

abbrev pub has_unwanted_end : Text → Bool
has_unwanted_end name = ends_with name (codes "CODEX_PROMPT.md") || ends_with name (codes ".zip")

unfoldable pub is_unwanted : Text → Bool
unfolding split_on ends_with
is_unwanted name = has_unwanted_part name || has_unwanted_end name

unfoldable pub assert_archive_hygiene : Zip → Step (Unit {0})
unfolding is_unwanted
assert_archive_hygiene archive = do
  names ← name_list archive.names
  demand (is_empty (select is_unwanted names)) (unwanted_entries (select is_unwanted names))

-- the export has to be the only one in its directory
abbrev pub only_zip : List Zip → Step Zip
only_zip (z ∷ []) = done z
only_zip [] = refused (zips_found 0)
only_zip (y ∷ z ∷ zs) = refused (zips_found (length (y ∷ z ∷ zs)))

-- What the commands of `delivery_check` do. The Booleans say whether a command has exit status 0, and
-- whether the README is written.
pub record Commands : Type 0 where
  pub status : Option Text
  pub first : Export
  pub second : Export
  pub clone : Bool
  pub user_name : Bool
  pub user_email : Bool
  pub append : Bool
  pub add : Bool
  pub commit : Bool
  pub mutated : Export

-- the same for `candidate_delivery_check`
pub record Candidate : Type 0 where
  pub copy : Bool
  pub init : Bool
  pub user_name : Bool
  pub user_email : Bool
  pub checksums : Bool
  pub add : Bool
  pub commit : Bool
  pub delivery : Commands

abbrev pub failed_closed : Export → Bool
failed_closed run = not (is_zero run.returncode) && occurs (codes "stale checksum") run.stdout

-- SHA-256 of a file's bytes, in hexadecimal digits
module _ (sha256 : Text → Text) where
  unfoldable pub run_export : Export → Step (Zip × Text)
  run_export run = do
    demand (is_zero run.returncode) (export_failed run.stdout)
    archive ← only_zip run.zips
    done (archive, sha256 archive.bytes)

  -- the digest that is printed
  unfoldable pub delivery_check : Commands → Step Text
  unfolding run_export assert_archive_hygiene occurs
  delivery_check commands = do
    status ← check_output commands.status
    demand (is_empty status) unclean
    (first, first_sha) ← run_export commands.first
    (second, second_sha) ← run_export commands.second
    demand (first_sha =? second_sha) (exports_differ first_sha second_sha)
    assert_archive_hygiene first
    assert_archive_hygiene second
    check_call commands.clone
    check_call commands.user_name
    check_call commands.user_email
    uncaught commands.append
    check_call commands.add
    check_call commands.commit
    demand (failed_closed commands.mutated) (not_closed commands.mutated.stdout)
    done first_sha

  unfoldable pub candidate_delivery_check : Candidate → Step Text
  unfolding delivery_check
  candidate_delivery_check candidate = do
    uncaught candidate.copy
    check_call candidate.init
    check_call candidate.user_name
    check_call candidate.user_email
    check_call candidate.checksums
    check_call candidate.add
    check_call candidate.commit
    delivery_check candidate.delivery

  -- The end of the run: status 0, status 1 with the errors or with what was caught, or an exception.
  pub data Outcome : Type 0 where
    passed : Outcome
    failed : List Text → Outcome
    caught : Problem → Outcome
    raised : Outcome

  -- `if flag: check()`
  abbrev pub when : Bool → Step Text → Step (Unit {0})
  when true (done digest) = done tt
  when true (refused p) = refused p
  when true traceback = traceback
  when false s = done tt

  abbrev pub exit_of : Step (Unit {0}) → Outcome
  exit_of (done _) = passed
  exit_of (refused p) = caught p
  exit_of traceback = raised

  -- the two flags, with what `static_check` reports
  unfoldable pub after_static : Bool → Bool → Reported Text → Commands → Candidate → Outcome
  unfolding delivery_check candidate_delivery_check
  after_static delivery candidate crashed commands copied = raised
  after_static delivery candidate (reported (e ∷ es)) commands copied = failed (e ∷ es)
  after_static delivery candidate (reported []) commands copied =
      exit_of (
        when delivery (delivery_check commands) >> when candidate (candidate_delivery_check copied))

  unfoldable pub main : Bool → Bool → Repo → Commands → Candidate → Outcome
  unfolding after_static static_check
  main delivery candidate repo commands copied =
      after_static delivery candidate (static_check repo) commands copied
