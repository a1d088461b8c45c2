-- ===== src/Delivery/Evidence.antt =====
-- What a successful run of the delivery check has seen.
use coupon_service.Base.{
  ◌≡◌, refl, sym, ap, ◌∙◌, ◌↔◌, Bool, true, false, Option, none, some, List, [], ◌∷◌, ◌=?◌, arith,
  Text, text_eq, All, is_empty, select,
}
use coupon_service.Base.Int.{is_zero}
use coupon_service.Base.Empty.{is_empty_iff, select-none}
use coupon_service.Contract.Emp010.{static_check}
use coupon_service.Contract.Emp010.Checked.{Static, static_check-Checks}
use coupon_service.Contract.Report.{Reported, reported, crashed, Clean}
use coupon_service.Contract.Repo.{Repo}
use coupon_service.Delivery.{
  Problem, unwanted_entries, unclean, exports_differ, command_failed, not_closed, export_failed,
  Step, done, refused, traceback, ◌>>=◌, ◌>>◌, demand, check_call, uncaught, Zip, Export,
  check_output, name_list, is_unwanted, assert_archive_hygiene, only_zip, Commands, Candidate,
  failed_closed, run_export, delivery_check, candidate_delivery_check, passed, when, exit_of,
  after_static, main,
}

done-injective {ℓ} : {A : Type ℓ} {a b : A} → done a ≡ done b → a ≡ b
done-injective h = cc

-- When a step and the rest have a value, each characterised on its own.
then-done {ℓ κ μ} :
    {A : Type ℓ} {B : Type κ} (s : Step A) (k : A → Step B) {b : B} (P Q : A → Type μ)
    → ((a : A) → (s ≡ done a) ↔ P a)
    → ((a : A) → (k a ≡ done b) ↔ Q a)
    → ((s >>= k) ≡ done b) ↔ ((a : A) × P a × Q a)
then-done (done a) k P Q f g =
    (λ h. (a, (f a).0 refl, (g a).0 h), λ (c, p, q). ap k (done-injective ((f c).1 p)) ∙ (g c).1 q)
then-done (refused r) k P Q f g = (λ h. cc, λ (a, p, _). let no_way = (f a).1 p in cc)
then-done traceback k P Q f g = (λ h. cc, λ (a, p, _). let no_way = (f a).1 p in cc)

demand-done {ℓ κ} :
    {B : Type ℓ} (holds : Bool) (p : Problem) (k : Step B) {b : B} (Q : Type κ)
    → ((k ≡ done b) ↔ Q)
    → ((demand holds p >> k) ≡ done b) ↔ ((holds ≡ true) × Q)
demand-done true p k Q g = (λ h. (refl, g.0 h), λ (_, q). g.1 q)
demand-done false p k Q g = (λ h. cc, λ (no_way, _). cc)

uncaught-done {ℓ κ} :
    {B : Type ℓ} (holds : Bool) (k : Step B) {b : B} (Q : Type κ)
    → ((k ≡ done b) ↔ Q)
    → ((uncaught holds >> k) ≡ done b) ↔ ((holds ≡ true) × Q)
uncaught-done true k Q g = (λ h. (refl, g.0 h), λ (_, q). g.1 q)
uncaught-done false k Q g = (λ h. cc, λ (no_way, _). cc)

-- a step without a value of interest
pass-done {ℓ κ} :
    {B : Type ℓ} (s : Step (Unit {0})) (k : Step B) {b : B} (P Q : Type κ)
    → ((s ≡ done tt) ↔ P)
    → ((k ≡ done b) ↔ Q)
    → ((s >> k) ≡ done b) ↔ (P × Q)
pass-done (done _) k P Q f g = (λ h. (f.0 refl, g.0 h), λ (_, q). g.1 q)
pass-done (refused r) k P Q f g = (λ h. cc, λ (p, _). let no_way = f.1 p in cc)
pass-done traceback k P Q f g = (λ h. cc, λ (p, _). let no_way = f.1 p in cc)

-- No entry of the archive is unwanted.
abbrev pub IsHygienic : Zip → Type 0
IsHygienic archive =
    (names : List Text) × (archive.names ≡ some names)
    × All (λ name. is_unwanted name ≡ false) names

name_list-done :
    (o : Option (List Text)) (names : List Text) → (name_list o ≡ done names) ↔ (o ≡ some names)
name_list-done none names = ground arith
name_list-done (some ns) names = ground arith

check_output-done : (o : Option Text) (text : Text) → (check_output o ≡ done text) ↔ (o ≡ some text)
check_output-done none text = ground arith
check_output-done (some t) text = ground arith

demanded : (holds : Bool) (p : Problem) → (demand holds p ≡ done tt) ↔ (holds ≡ true)
demanded true p = ground arith
demanded false p = ground arith

hygiene-done : (archive : Zip) → (assert_archive_hygiene archive ≡ done tt) ↔ IsHygienic archive
unfolding assert_archive_hygiene
hygiene-done archive =
    then-done (name_list archive.names) _ (λ names. archive.names ≡ some names)
      (λ names. All (λ name. is_unwanted name ≡ false) names) (name_list-done archive.names)
      hygienic
  where
    hygienic :
        (names : List Text)
        → (demand
              (is_empty (select is_unwanted names))
              (unwanted_entries (select is_unwanted names))
            ≡ done tt)
          ↔ All (λ name. is_unwanted name ≡ false) names
    hygienic names =
        let test =
          demanded (is_empty (select is_unwanted names))
            (unwanted_entries (select is_unwanted names)) in
        let empty = is_empty_iff (select is_unwanted names) in
        let none_left = select-none is_unwanted names in
        (λ h. none_left.0 (empty.0 (test.0 h)), λ h. test.1 (empty.1 (none_left.1 h)))

only_zip-done : (zips : List Zip) (z : Zip) → (only_zip zips ≡ done z) ↔ (zips ≡ z ∷ [])
only_zip-done [] z = ground arith
only_zip-done (y ∷ []) z = ground arith
only_zip-done (x ∷ y ∷ zs) z = ground arith

module _ (sha256 : Text → Text) where
  -- The export ended with status 0 and left one archive, with its digest.
  abbrev pub IsExport : Export → Zip × Text → Type 0
  IsExport run (archive, digest) =
      ((is_zero run.returncode) ≡ true)
      × ((run.zips ≡ archive ∷ []) × (digest ≡ sha256 archive.bytes))

  abbrev with_digest : Zip → Step (Zip × Text)
  with_digest archive = done (archive, sha256 archive.bytes)

  exported :
      (zips : List Zip) (archive : Zip) (digest : Text)
      → ((only_zip zips >>= with_digest) ≡ done (archive, digest))
        ↔ ((zips ≡ archive ∷ []) × (digest ≡ sha256 archive.bytes))
  exported [] archive digest = ground arith
  exported (z ∷ []) archive digest = (
    λ h.
        let same = done-injective h in
        let is : z ≡ archive = ap (λ (p : Zip × Text). p.0) same in
        (
          ap (λ (y : Zip). y ∷ []) is,
          sym (ap (λ (p : Zip × Text). p.1) same) ∙ ap (λ (y : Zip). sha256 y.bytes) is,
        ),
    λ (one, digest_is).
        let is : z ≡ archive = cc in
        ap (λ (y : Zip). done (y, sha256 y.bytes)) is
        ∙ ap (λ (d : Text). done (archive, d)) (sym digest_is),
  )
  exported (y ∷ z ∷ zs) archive digest = ground arith

  run_export-done :
      (run : Export) (found : Zip × Text)
      → (run_export sha256 run ≡ done found) ↔ IsExport run found
  unfolding run_export
  run_export-done run (archive, digest) =
      demand-done (is_zero run.returncode) (export_failed run.stdout) _ _
        (exported run.zips archive digest)

  -- the commands on the clone: each has exit status 0, the README is written, and the export of the clone
  -- fails over a stale checksum
  abbrev pub MutationFails : Commands → Type 0
  MutationFails commands =
      (commands.clone ≡ true)
      × ((commands.user_name ≡ true)
          × ((commands.user_email ≡ true)
              × ((commands.append ≡ true)
                  × ((commands.add ≡ true)
                      × ((commands.commit ≡ true) × (failed_closed commands.mutated ≡ true))))))

  -- The work tree is clean, two exports have the same digest and no unwanted entry, and the export of a
  -- mutated clone fails.
  abbrev pub Delivered : Commands → Text → Type 0
  Delivered commands digest =
      (status : Text) × (commands.status ≡ some status)
      × ((is_empty status ≡ true)
          × ((first : Zip × Text) × IsExport commands.first first
              × ((second : Zip × Text) × IsExport commands.second second
                  × (((first.1 =? second.1) ≡ true)
                      × (IsHygienic first.0
                          × (IsHygienic second.0
                              × (MutationFails commands × (first.1 ≡ digest))))))))

  abbrev mutation : Commands → Text → Step Text
  mutation commands digest = do
    check_call commands.clone
    check_call commands.user_name
    check_call commands.user_email
    uncaught commands.append
    check_call commands.add
    check_call commands.commit
    demand (failed_closed commands.mutated) (not_closed commands.mutated.stdout)
    done digest

  mutation-done :
      (commands : Commands) (a digest : Text)
      → (mutation commands a ≡ done digest) ↔ (MutationFails commands × (a ≡ digest))
  mutation-done commands a digest =
      let all = demand-done commands.clone command_failed _ _ (
        demand-done commands.user_name command_failed _ _ (
          demand-done commands.user_email command_failed _ _ (
            uncaught-done commands.append _ _ (
              demand-done commands.add command_failed _ _ (
                demand-done commands.commit command_failed _ _ (
                  demand-done (failed_closed commands.mutated) (not_closed commands.mutated.stdout)
                    (done a) (a ≡ digest) (λ h. done-injective h, λ h. ap done h))))))) in
      (
        λ h.
            let (c, (n, (e, (w, (d, (m, (f, is))))))) = all.0 h in
            ((c, (n, (e, (w, (d, (m, f)))))), is),
        λ ((c, (n, (e, (w, (d, (m, f)))))), is). all.1 (c, (n, (e, (w, (d, (m, (f, is))))))),
      )

  -- The check succeeds with a digest exactly when the work tree is clean, the two exports each leave one
  -- archive with that digest and no unwanted entry, and the export of the clone with a changed README
  -- fails with a stale checksum.
  pub delivery_check-done :
      (commands : Commands) (digest : Text)
      → (delivery_check sha256 commands ≡ done digest) ↔ Delivered commands digest
  unfolding delivery_check
  delivery_check-done commands digest =
      then-done (check_output commands.status) _ _ _ (check_output-done commands.status) (λ status.
        demand-done (is_empty status) unclean _ _ (
          then-done (run_export sha256 commands.first) _ _ _ (run_export-done commands.first)
            (λ first.
              then-done (run_export sha256 commands.second) _ _ _ (run_export-done commands.second)
                (λ second. demand-done (first.1 =? second.1) (exports_differ first.1 second.1) _ _ (
                  pass-done (assert_archive_hygiene first.0) _ _ _ (hygiene-done first.0) (
                    pass-done (assert_archive_hygiene second.0) _ _ _ (hygiene-done second.0)
                      (mutation-done commands first.1 digest)))))))

  -- the repository that stands in for the candidate is made, and delivers
  abbrev pub CandidateDelivered : Candidate → Text → Type 0
  CandidateDelivered candidate digest =
      (candidate.copy ≡ true)
      × ((candidate.init ≡ true)
          × ((candidate.user_name ≡ true)
              × ((candidate.user_email ≡ true)
                  × ((candidate.checksums ≡ true)
                      × ((candidate.add ≡ true)
                          × ((candidate.commit ≡ true) × Delivered candidate.delivery digest))))))

  candidate-done :
      (candidate : Candidate) (digest : Text)
      → (candidate_delivery_check sha256 candidate ≡ done digest)
        ↔ CandidateDelivered candidate digest
  unfolding candidate_delivery_check
  candidate-done candidate digest = uncaught-done candidate.copy _ _ (
      demand-done candidate.init command_failed _ _ (
        demand-done candidate.user_name command_failed _ _ (
          demand-done candidate.user_email command_failed _ _ (
            demand-done candidate.checksums command_failed _ _ (
              demand-done candidate.add command_failed _ _ (
                demand-done candidate.commit command_failed _ _
                  (delivery_check-done candidate.delivery digest)))))))

  when-done :
      (P : Text → Type 0) (flag : Bool) (s : Step Text)
      → ((digest : Text) → (s ≡ done digest) ↔ P digest)
      → (when sha256 flag s ≡ done tt) ↔ ((flag ≡ true) → (digest : Text) × P digest)
  when-done P true (done digest) f = (λ h. λ _. (digest, (f digest).0 refl), λ _. refl)
  when-done P true (refused p) f =
      (λ h. cc, λ k. let (digest, holds) = k refl in let no_way = (f digest).1 holds in cc)
  when-done P true traceback f =
      (λ h. cc, λ k. let (digest, holds) = k refl in let no_way = (f digest).1 holds in cc)
  when-done P false s f = (λ h. λ no_way. cc, λ k. refl)

  exit_of-passed : (s : Step (Unit {0})) → (exit_of sha256 s ≡ passed) ↔ (s ≡ done tt)
  exit_of-passed (done _) = ground arith
  exit_of-passed (refused p) = ground arith
  exit_of-passed traceback = ground arith

  after_static-passed :
      (delivery candidate : Bool) (r : Reported Text) (commands : Commands) (copied : Candidate)
      → (after_static sha256 delivery candidate r commands copied ≡ passed) ↔ (
          Clean r
          × (((delivery ≡ true) → (digest : Text) × Delivered commands digest)
              × ((candidate ≡ true) → (digest : Text) × CandidateDelivered copied digest)))
  unfolding after_static
  after_static-passed delivery candidate crashed commands copied = (λ h. cc, λ (no_way, _). cc)
  after_static-passed delivery candidate (reported (e ∷ es)) commands copied =
      (λ h. cc, λ (no_way, _). cc)
  after_static-passed delivery candidate (reported []) commands copied =
      let checks =
        pass-done (when sha256 delivery (delivery_check sha256 commands)) _ _ _
          (when-done (Delivered commands) delivery _ (delivery_check-done commands))
          (when-done (CandidateDelivered copied) candidate (candidate_delivery_check sha256 copied)
            (candidate-done copied)) in
      let exit = exit_of-passed _ in
      (λ h. (refl, checks.0 (exit.0 h)), λ (_, both). exit.1 (checks.1 both))

  -- The run ends with status 0 exactly when the static contract holds of the repository's files, the
  -- delivery check succeeds where it is asked for, and so does the one of the candidate.
  pub emp010-passed :
      (delivery candidate : Bool) (repo : Repo) (commands : Commands) (copied : Candidate)
      → (main sha256 delivery candidate repo commands copied ≡ passed) ↔ (
          Static repo
          × (((delivery ≡ true) → (digest : Text) × Delivered commands digest)
              × ((candidate ≡ true) → (digest : Text) × CandidateDelivered copied digest)))
  unfolding main
  emp010-passed delivery candidate repo commands copied =
      let run = after_static-passed delivery candidate (static_check repo) commands copied in
      let contract = static_check-Checks repo in
      (
        λ h. let (clean, both) = run.0 h in (contract.0 clean, both),
        λ (static, both). run.1 (contract.1 static, both),
      )
