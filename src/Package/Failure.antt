-- ===== src/Package/Failure.antt =====
-- How a run of scripts/package_source.py ends early: the `SystemExit` messages of the script with
-- their arguments, and the Python errors that it does not catch.
use coupon_service.Base.{◌≡◌, refl, Bool, true, false, Option, none, some, List, Text}

pub data PythonError : Type 0 where
  value_error unicode_decode_error index_error key_error called_process_error : PythonError

pub data Failure : Type 0 where
  not_a_work_tree no_commit unclean_tree untracked_manifest manifest_not_utf8 : Failure
  unmerged_path : Text → Failure
  unsupported_mode : Text → Text → Failure
  malformed_object_id : Text → Failure
  malformed_line : Text → Failure
  duplicate_entry : Text → Failure
  forbidden_files : List Text → Failure
  manifest_mismatch : List Text → List Text → Failure
  stale_checksum : Text → Failure
  uncaught : PythonError → Failure

-- What a call returns: its value, or the failure that ends the run.
pub data Result {ℓ} (A : Type ℓ) : Type ℓ where
  err : Failure → Result A
  ok : A → Result A

-- A call, and then the rest of the run; a test, and then the rest.
infixl 5 ◌>>=◌ ◌>>◌
abbrev pub ◌>>=◌ {ℓ μ} : {V : Type ℓ} {W : Type μ} → Result V → (V → Result W) → Result W
err failure >>= rest = err failure
ok value >>= rest = rest value

abbrev pub ◌>>◌ {μ} : {W : Type μ} → Result (Unit {0}) → Result W → Result W
call >> rest = call >>= λ _. rest

-- `if not holds: raise ...`
abbrev pub require : Bool → Failure → Result (Unit {0})
require true e = ok tt
require false e = err e

-- a call that raises `e` where it has no value
abbrev pub from_option {ℓ} : {A : Type ℓ} → Failure → Option A → Result A
from_option e none = err e
from_option e (some a) = ok a

-- A run that came past a call.
pub >>=-eq-ok {ℓ μ} :
    {V : Type ℓ} {W : Type μ} (call : Result V) (rest : V → Result W) {result : W}
    → (call >>= rest) ≡ ok result
    → (value : V) × (call ≡ ok value) × (rest value ≡ ok result)
>>=-eq-ok (err failure) rest came_past = cc
>>=-eq-ok (ok value) rest came_past = (value, refl, came_past)

pub ok-injective {ℓ} : {A : Type ℓ} {a b : A} → ok a ≡ ok b → a ≡ b
ok-injective h = cc

-- A run that came past a test, or past a call that may fail.
pub require_then-eq-ok {ℓ} :
    {B : Type ℓ} (holds : Bool) (e : Failure) (k : Result B) {b : B}
    → require holds e >> k ≡ ok b
    → (holds ≡ true) × (k ≡ ok b)
require_then-eq-ok true e k h = (refl, h)
require_then-eq-ok false e k h = cc

pub from_option_then-eq-ok {ℓ κ} :
    {A : Type ℓ} {B : Type κ} (e : Failure) (o : Option A) (f : A → Result B) {b : B}
    → (from_option e o >>= f) ≡ ok b
    → (a : A) × (o ≡ some a) × (f a ≡ ok b)
from_option_then-eq-ok e (some a) f h = (a, refl, h)
from_option_then-eq-ok e none f h = cc
