-- ===== src/Contract/Laws.antt =====
-- When the steps of a checker leave the list of errors empty. Each lemma turns a step into the
-- condition that it checks, so a whole checker is turned into its contract step by step.
use coupon_service.Base.{
  ◌≡◌, refl, ◌↔◌, Bool, true, false, not, Option, some, List, [], ◌∷◌, arith, String, All, All-imp,
  if◌then◌else◌, ◌⊎◌, inl, inr,
}
use coupon_service.Contract.Report.{
  Reported, Report, ◌>>◌, ◌>>=◌, passed, Clean, nothing, complain, complain_if, for_each, if_clean,
  conclude, Clean->>, Clean->>=, Clean-complain_if, Clean-for_each, Clean-if_clean, conclude-passed,
}
use coupon_service.Contract.Repo.{
  Repo, is_file, read, in_text, missing_tokens, present_tokens, require_tokens, missing_files,
  HasAll, HasNone, Reads,
}

-- `r` leaves the errors empty exactly when `P` holds.
abbrev pub Checks {ℓ} : {M : Type 0} → Reported M → Type ℓ → Type ℓ
Checks r P = Clean r ↔ P

pub seq {ℓ κ} :
    {M : Type 0} {P : Type ℓ} {Q : Type κ} (r s : Reported M)
    → Checks r P
    → Checks s Q
    → Checks (r >> s) (P × Q)
seq r s f g = (
  λ h. let both = (Clean->> r s).0 h in (f.0 both.0, g.0 both.1),
  λ (p, q). (Clean->> r s).1 (f.1 p, g.1 q),
)

pub gate {ℓ κ} :
    {M : Type 0} {P : Type ℓ} {Q : Type κ} (r s : Reported M)
    → Checks r P
    → Checks s Q
    → Checks (if_clean r s) (P × Q)
gate r s f g = (
  λ h. let both = (Clean-if_clean r s).0 h in (f.0 both.0, g.0 both.1),
  λ (p, q). (Clean-if_clean r s).1 (f.1 p, g.1 q),
)

pub binding {ℓ κ} :
    {M : Type 0} {A : Type ℓ} (o : Option A) (k : A → Reported M) (P : A → Type κ)
    → ((a : A) → Checks (k a) (P a))
    → Clean (o >>= k) ↔ ((a : A) × (o ≡ some a) × P a)
binding o k P f = (
  λ h. let (a, is, clean) = (Clean->>= o k).0 h in (a, is, (f a).0 clean),
  λ (a, is, p). (Clean->>= o k).1 (a, is, (f a).1 p),
)

pub reading :
    (repo : Repo) (path : String) (k : String → Report) (P : String → Type 0)
    → ((content : String) → Checks (k content) (P content))
    → Checks (read repo path >>= k) (Reads repo path P)
reading repo path k P f = binding (read repo path) k P f

pub each {ℓ κ} :
    {M : Type 0} {A : Type ℓ} (P : A → Type κ) (xs : List A) (body : A → Reported M)
    → ((x : A) → Checks (body x) (P x))
    → Checks (for_each xs body) (All P xs)
each P xs body f = (
  λ h. All-imp (λ x. (f x).0) xs ((Clean-for_each xs body).0 h),
  λ a. (Clean-for_each xs body).1 (All-imp (λ x. (f x).1) xs a),
)

not-true : (b : Bool) → (not b ≡ false) ↔ (b ≡ true)
not-true true = ground arith
not-true false = ground arith

-- `if not holds: errors.append(message)`
pub unless :
    {M : Type 0} (holds : Bool) (message : M)
    → Checks (complain_if (not holds) message) (holds ≡ true)
unless holds message = (
  λ h. (not-true holds).0 ((Clean-complain_if (not holds) message).0 h),
  λ h. (Clean-complain_if (not holds) message).1 ((not-true holds).1 h),
)

pub missing :
    (message : String → String) (tokens : List String) (content : String)
    → Checks (missing_tokens message tokens content) (HasAll content tokens)
unfolding missing_tokens
missing message tokens content =
    each (λ token. in_text token content ≡ true) tokens _
      (λ token. unless (in_text token content) (message token))

pub present :
    (message : String → String) (tokens : List String) (content : String)
    → Checks (present_tokens message tokens content) (HasNone content tokens)
unfolding present_tokens
present message tokens content =
    each (λ token. in_text token content ≡ false) tokens _
      (λ token. Clean-complain_if (in_text token content) (message token))

pub required :
    (repo : Repo) (path : String) (tokens : List String)
    → Checks (require_tokens repo path tokens) (Reads repo path (λ content. HasAll content tokens))
unfolding require_tokens
required repo path tokens =
    reading repo path _ (λ content. HasAll content tokens) (λ content. missing _ tokens content)

pub files :
    (message : String → String) (repo : Repo) (paths : List String)
    → Checks (missing_files message repo paths) (All (λ path. is_file repo path ≡ true) paths)
unfolding missing_files
files message repo paths =
    each (λ path. is_file repo path ≡ true) paths _
      (λ path. unless (is_file repo path) (message path))

-- The script exits with success exactly when its contract holds.
pub passing {ℓ} :
    {P : Type ℓ} (lines : List String → List String) (success : String) (r : Report)
    → Checks r P
    → (conclude lines success r ≡ passed success) ↔ P
passing lines success r f = (
  λ h. f.0 ((conclude-passed lines success r).0 h),
  λ p. (conclude-passed lines success r).1 (f.1 p),
)

-- `if holds: r else: s`
pub branch {ℓ} :
    {M : Type 0} {P Q : Type ℓ} (holds : Bool) (r s : Reported M)
    → Checks r P
    → Checks s Q
    → Checks (if holds then r else s) (((holds ≡ true) × P) ⊎ ((holds ≡ false) × Q))
branch true r s f g =
    (λ h. inl (refl, f.0 h), λ x. elim x [ inl (_, p) ↦ f.1 p | inr (no_way, _) ↦ cc ])
branch false r s f g =
    (λ h. inr (refl, g.0 h), λ x. elim x [ inl (no_way, _) ↦ cc | inr (_, q) ↦ g.1 q ])

-- `if holds: continue`, or a test that runs only where a condition does not hold
pub otherwise {ℓ} :
    {M : Type 0} {P : Type ℓ} (holds : Bool) (r : Reported M)
    → Checks r P
    → Checks (if holds then nothing else r) ((holds ≡ true) ⊎ P)
otherwise true r f = (λ h. inl refl, λ _. refl)
otherwise false r f = (λ h. inr (f.0 h), λ x. elim x [ inl no_way ↦ cc | inr p ↦ f.1 p ])

-- `if holds: r`
pub only_if {ℓ} :
    {M : Type 0} {P : Type ℓ} (holds : Bool) (r : Reported M)
    → Checks r P
    → Checks (if holds then r else nothing) (holds ≡ true → P)
only_if true r f = (λ h. λ _. f.0 h, λ k. f.1 (k refl))
only_if false r f = (λ h. λ no_way. cc, λ k. refl)

-- a branch that only complains is never taken
pub refused : {M : Type 0} (message : M) → Checks (complain message) ⊥
refused message = (λ h. cc, λ h. absurd h)

none-Refused {ℓ} : {A : Type ℓ} (xs : List A) → All (λ _. ⊥) xs ↔ (xs ≡ [])
none-Refused [] = (λ _. refl, λ _. tt)
none-Refused (x ∷ xs) = (λ (no_way, _). absurd no_way, λ h. cc)

-- `for x in xs: errors.append(message(x))`
pub complaints {ℓ} :
    {M : Type 0} {A : Type ℓ} (message : A → M) (xs : List A)
    → Checks (for_each xs (λ x. complain (message x))) (xs ≡ [])
complaints message xs =
    let loop = each (λ _. ⊥) xs (λ x. complain (message x)) (λ x. refused (message x)) in
    (λ h. (none-Refused xs).0 (loop.0 h), λ h. loop.1 ((none-Refused xs).1 h))
