-- ===== src/Contract/Report.antt =====
-- The list `errors` to which a checker appends, or the exception that ends it, and how the script
-- exits.
use mathlib.Core.Path.{subst}
use mathlib.Core.Option.{some-injective}
use coupon_service.Base.{
  ◌≡◌, refl, sym, ◌↔◌, Bool, true, false, Option, none, some, List, [], ◌∷◌, ◌++◌, arith, String,
  ◌<>◌, map, All,
}

-- Messages of a type `M`: the texts themselves, or a name for each with what it quotes.
pub data Reported (M : Type 0) : Type 0 where
  -- the messages appended, in order
  reported : List M → Reported M
  -- an exception that nothing catches
  crashed : Reported M

abbrev pub Report : Type 0
Report = Reported String

-- A step, and then the rest.
infixl 5 ◌>>◌ ◌>>=◌
abbrev pub ◌>>◌ : {M : Type 0} → Reported M → Reported M → Reported M
crashed >> k = crashed
reported es >> crashed = crashed
reported es >> reported fs = reported (es ++ fs)

-- A call with a value that may raise, and then the rest.
abbrev pub ◌>>=◌ {ℓ} : {A : Type ℓ} {M : Type 0} → Option A → (A → Reported M) → Reported M
none >>= k = crashed
some a >>= k = k a

abbrev pub nothing : {M : Type 0} → Reported M
nothing = reported []

-- `errors.append(message)`
abbrev pub complain : {M : Type 0} → M → Reported M
complain message = reported (message ∷ [])

-- `if wrong: errors.append(message)`
unfoldable pub complain_if : {M : Type 0} → Bool → M → Reported M
complain_if true message = complain message
complain_if false message = nothing

-- `for x in xs: body(x)`
unfoldable pub for_each {ℓ} : {A : Type ℓ} {M : Type 0} → List A → (A → Reported M) → Reported M
for_each [] body = nothing
for_each (x ∷ xs) body = body x >> for_each xs body

-- How the script ends: status 0 with its last line, status 1 with the lines that it prints of the
-- errors, or a traceback, which is status 1 too.
pub data Exit : Type 0 where
  passed : String → Exit
  failed : List String → Exit
  traceback : Exit

-- `print(f"ERROR: {error}", file=sys.stderr)` of every error
abbrev pub error_lines : List String → List String
error_lines = map (λ e. "ERROR: " <> e)

-- A title, and an item for every error.
abbrev pub bullet_lines : String → List String → List String
bullet_lines title errors = title ∷ map (λ e. "- " <> e) errors

unfoldable pub conclude : (List String → List String) → String → Report → Exit
conclude lines success crashed = traceback
conclude lines success (reported []) = passed success
conclude lines success (reported (e ∷ es)) = failed (lines (e ∷ es))

-- `if not errors:` with the errors of a first phase
unfoldable pub if_clean : {M : Type 0} → Reported M → Reported M → Reported M
if_clean (reported []) k = k
if_clean r k = r

-- Nothing has been appended and nothing raised.
abbrev pub Clean : {M : Type 0} → Reported M → Type 0
Clean r = r ≡ nothing

pub Clean->> : {M : Type 0} (r s : Reported M) → Clean (r >> s) ↔ (Clean r × Clean s)
Clean->> crashed s = ground arith
Clean->> (reported []) crashed = ground arith
Clean->> (reported []) (reported fs) = ground arith
Clean->> (reported (e ∷ es)) crashed = ground arith
Clean->> (reported (e ∷ es)) (reported fs) = ground arith

pub Clean->>= {ℓ} :
    {A : Type ℓ} {M : Type 0} (o : Option A) (k : A → Reported M)
    → Clean (o >>= k) ↔ ((a : A) × (o ≡ some a) × Clean (k a))
Clean->>= none k = (λ h. cc, λ (a, h, _). cc)
Clean->>= (some a) k =
    (λ h. (a, refl, h), λ (b, e, h). subst (λ c. Clean (k c)) (sym (some-injective a b e)) h)

pub Clean-complain_if :
    {M : Type 0} (wrong : Bool) (message : M) → Clean (complain_if wrong message) ↔ (wrong ≡ false)
unfolding complain_if
Clean-complain_if true m = ground arith
Clean-complain_if false m = ground arith

pub Clean-for_each {ℓ} :
    {A : Type ℓ} {M : Type 0} (xs : List A) (body : A → Reported M)
    → Clean (for_each xs body) ↔ All (λ x. Clean (body x)) xs
unfolding for_each
Clean-for_each [] body = (λ _. tt, λ _. refl)
Clean-for_each (x ∷ xs) body = (
  λ h.
      let both = (Clean->> (body x) (for_each xs body)).0 h in
      (both.0, (Clean-for_each xs body).0 both.1),
  λ (h, hs). (Clean->> (body x) (for_each xs body)).1 (h, (Clean-for_each xs body).1 hs),
)

pub conclude-passed :
    (lines : List String → List String) (success : String) (r : Report)
    → (conclude lines success r ≡ passed success) ↔ Clean r
unfolding conclude
conclude-passed lines success crashed = ground arith
conclude-passed lines success (reported []) = ground arith
conclude-passed lines success (reported (e ∷ es)) = ground arith

pub Clean-if_clean : {M : Type 0} (r k : Reported M) → Clean (if_clean r k) ↔ (Clean r × Clean k)
unfolding if_clean
Clean-if_clean crashed k = ground arith
Clean-if_clean (reported []) k = ground arith
Clean-if_clean (reported (e ∷ es)) k = ground arith
